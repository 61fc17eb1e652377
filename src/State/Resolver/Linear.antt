-- ===== src/State/Resolver/Linear.antt =====
-- state/mod.rs: the state after one event of a linear history, against a replay of that history.
use kerux.Prelude.{ℕ, zero, suc, ◌<◌, String, ◌≡◌, inl, inr, refl, sym, ap}
use kerux.Prelude.{Bool, true, none, some, List, [], ◌∷◌, subst, arith}
use kerux.Prelude.Tests.{Bool-cases, Option-cases}
use kerux.Prelude.Equality.{string_eq}
use kerux.Prelude.Lists.{length}
use kerux.Errors.{Outcome, ok, ◌>>=◌, >>=-eq-ok}
use kerux.Prelude.Tests.{if◌then◌else◌}
use kerux.Prelude.Equality.{pair_eq}
use kerux.Prelude.Maps.{insert}
use kerux.Events.Content.{Serde, get_type}
use kerux.Events.Pdu.{
  StoredPdu, Hashing, prev_events, event_content, state_key, event_id, did_pass_auth,
}
use kerux.Storage.Reader.{Reader}
use kerux.State.{State, insert_event}
use kerux.State.Resolver.Resolve.{Cache, cached, same_set, apply_event, resolve_v2, keep_state}

module _ {J : Type 0} (S : Serde J) (H : Hashing J) (is_server_name : String → Bool) (r : Reader J)
    (room : String) where
  -- A linear history up to an event, the last event first: each has one predecessor, which is the
  -- next of the list, and the last of the list has none.
  abbrev pub Chain : String → List (StoredPdu J) → Type 0
  Chain id [] = (none ≡ some id)
  Chain id (e ∷ []) = (r.get_pdu room id ≡ ok (some e)) × (prev_events e.inner ≡ [])
  Chain id (e ∷ f ∷ es) =
      (r.get_pdu room id ≡ ok (some e))
      × (prev : String) × (prev_events e.inner ≡ prev ∷ [])
      × Chain prev (f ∷ es)

  -- What the state ought to be: every event of the history that passed its check and has a state
  -- key, in turn, takes the place of what was there at its type and state key.
  unfoldable pub replay : List (StoredPdu J) → Outcome State
  replay [] = ok (record { room_id = room; map = [] })
  replay (e ∷ es) = do
    st ← replay es
    (if did_pass_auth e
        then elim (state_key e.inner) [
          | none ↦ ok st
          | some key ↦ ok (record st {
            map = insert (get_type (event_content e.inner), key) (event_id S H e.inner) st.map;
          })
        ]
        else ok st)

  -- What the cache has for a single event is the replay of the event's history.
  pub record CacheOk (cache : Cache) : Type 0 where
    pub holds :
        (id : String) (es : List (StoredPdu J)) (st : State)
        → Chain id es
        → cached (id ∷ []) cache ≡ some st
        → replay es ≡ ok st

  pub nil-CacheOk : CacheOk []
  unfolding cached
  nil-CacheOk = record { holds = λ id es st chain found. absurd (ground arith) }

  same_set_single : (a b : String) → same_set (a ∷ []) (b ∷ []) ≡ true → a ≡ b
  unfolding same_set
  same_set_single a b h = ground arith

  same_event :
      (id : String) (e f : StoredPdu J)
      → r.get_pdu room id ≡ ok (some e)
      → r.get_pdu room id ≡ ok (some f)
      → e ≡ f
  same_event id e f h k = ground arith

  same_prev :
      (e f : StoredPdu J) (other prev : String)
      → e ≡ f
      → prev_events e.inner ≡ prev ∷ []
      → prev_events f.inner ≡ other ∷ []
      → other ≡ prev
  same_prev e f other prev same p q = ground arith

  -- An event has one linear history at most.
  Chain-unique : (id : String) (es fs : List (StoredPdu J)) → Chain id es → Chain id fs → es ≡ fs
  Chain-unique id [] fs c d = absurd (ground arith)
  Chain-unique id (e ∷ es) [] c d = absurd (ground arith)
  Chain-unique id (e ∷ []) (f ∷ []) (c, _) (d, _) = ap (λ x. x ∷ []) (same_event id e f c d)
  Chain-unique id (e ∷ []) (f ∷ _ ∷ _) (c, p) (d, prev, q, _) =
      let same = same_event id e f c d in absurd (ground arith)
  Chain-unique id (e ∷ _ ∷ _) (f ∷ []) (c, prev, p, _) (d, q) =
      let same = same_event id e f c d in absurd (ground arith)
  Chain-unique id (e ∷ e' ∷ es) (f ∷ f' ∷ fs) (c, prev, p, c') (d, other, q, d') =
      let same = same_event id e f c d in
      let back = same_prev e f other prev same p q in
      let rest =
        Chain-unique prev (e' ∷ es) (f' ∷ fs) c' (subst (λ x. Chain x (f' ∷ fs)) back d') in
      ground arith

  kept :
      (id : String) (es : List (StoredPdu J)) (st : State) (cache : Cache)
      → Chain id es
      → replay es ≡ ok st
      → CacheOk cache
      → (other : String) (fs : List (StoredPdu J)) (st' : State) → Chain other fs
      → cached (other ∷ []) (keep_state (id ∷ []) st cache) ≡ some st'
      → replay fs ≡ ok st'
  unfolding cached
  kept id es st cache chain replayed k other fs st' chain' found =
      elim (Bool-cases (same_set (other ∷ []) (id ∷ []))) [
        | inl same ↦
            let equal = same_set_single other id same in
            let history = Chain-unique id es fs chain (subst (λ x. Chain x fs) equal chain') in
            ground arith
        | inr differ ↦ k.holds other fs st' chain' (ground arith)
      ]

  keep-CacheOk :
      (id : String) (es : List (StoredPdu J)) (st : State) (cache : Cache)
      → Chain id es
      → replay es ≡ ok st
      → CacheOk cache
      → CacheOk (keep_state (id ∷ []) st cache)
  unfolding cached
  keep-CacheOk id es st cache chain replayed k = record {
    holds =
        λ other fs st' chain' found. kept id es st cache chain replayed k other fs st' chain' found;
  }

  abbrev resolved : ℕ → List String → Cache → Outcome State × Cache
  resolved rounds events cache = resolve_v2 S H is_server_name r rounds room events cache

  resolve_step :
      (rounds : ℕ) (id : String) (e : StoredPdu J) (before st : State) (cache : Cache)
      → cached (id ∷ []) cache ≡ none
      → r.get_pdu room id ≡ ok (some e)
      → (resolved rounds (prev_events e.inner) cache).0 ≡ ok before
      → apply_event S H is_server_name r e before ≡ ok st
      → resolved (suc rounds) (id ∷ []) cache
        ≡ (ok st, keep_state (id ∷ []) st (resolved rounds (prev_events e.inner) cache).1)
  unfolding resolve_v2
  resolve_step rounds id e before st cache fresh found before_eq applied = ground arith

  resolve_hit :
      (rounds : ℕ) (id : String) (st : State) (cache : Cache)
      → cached (id ∷ []) cache ≡ some st
      → resolved (suc rounds) (id ∷ []) cache ≡ (ok st, cache)
  unfolding resolve_v2
  resolve_hit rounds id st cache found = ground arith

  resolve_none :
      (rounds : ℕ) (cache : Cache)
      → resolved rounds [] cache ≡ (ok (record { room_id = room; map = [] }), cache)
  unfolding resolve_v2
  resolve_none rounds cache = refl

  abbrev Replayed : ℕ → List String → State → Cache → Type 0
  Replayed rounds events st cache =
      ((resolved rounds events cache).0 ≡ ok st) × CacheOk (resolved rounds events cache).1

  -- The step of the code is the step of the replay.
  applied :
      (e : StoredPdu J) (es : List (StoredPdu J)) (before st : State)
      → replay es ≡ ok before
      → replay (e ∷ es) ≡ ok st
      → apply_event S H is_server_name r e before ≡ ok st
  unfolding replay insert_event
  applied e es before st h replayed = ground arith

  -- From what is right of the predecessors to what is right of the event.
  Replayed-after :
      (rounds : ℕ) (id : String) (e : StoredPdu J) (es : List (StoredPdu J)) (before st : State)
      (cache : Cache)
      → Chain id (e ∷ es)
      → CacheOk cache
      → r.get_pdu room id ≡ ok (some e)
      → replay es ≡ ok before
      → replay (e ∷ es) ≡ ok st
      → Replayed rounds (prev_events e.inner) before cache
      → Replayed (suc rounds) (id ∷ []) st cache
  unfolding replay
  Replayed-after rounds id e es before st cache chain k found h replayed (was, kept_before) =
      elim (Option-cases (cached (id ∷ []) cache)) [
        | inl fresh ↦
            let step =
              resolve_step rounds id e before st cache fresh found was
                (applied e es before st h replayed) in
            (
              ap (λ x. x.0) step,
              subst (λ x. CacheOk x.1) (sym step)
                  (keep-CacheOk id (e ∷ es) st _ chain replayed kept_before),
            )
        | inr (st', hit) ↦
            let step = resolve_hit rounds id st' cache hit in
            let same = k.holds id (e ∷ es) st' chain hit in
            (ground arith, subst (λ x. CacheOk x.1) (sym step) k)
      ]

  -- With a cache that is right, the state after an event of a linear history is the replay of the
  -- history, if the replay ends well; the rounds have to be more than the history has events. The
  -- cache stays right.
  pub resolve_v2-replay :
      (rounds : ℕ) (id : String) (es : List (StoredPdu J)) (st : State) (cache : Cache)
      → Chain id es
      → CacheOk cache
      → length es < rounds
      → replay es ≡ ok st
      → ((resolve_v2 S H is_server_name r rounds room (id ∷ []) cache).0 ≡ ok st)
        × CacheOk (resolve_v2 S H is_server_name r rounds room (id ∷ []) cache).1
  unfolding replay
  resolve_v2-replay (suc rounds) id (e ∷ []) st cache (found, first) k enough replayed =
      let start = resolve_none rounds cache in
      Replayed-after rounds id e [] (record { room_id = room; map = [] }) st cache (found, first) k
        found refl replayed
        (subst (λ x. Replayed rounds x (record { room_id = room; map = [] }) cache) (sym first)
          (ap (λ x. x.0) start, subst (λ x. CacheOk x.1) (sym start) k))
  resolve_v2-replay (suc rounds) id (e ∷ f ∷ es) st cache (found, prev, p, chain) k enough
        replayed =
      let (before, h, _) = >>=-eq-ok (replay (f ∷ es)) _ replayed in
      Replayed-after rounds id e (f ∷ es) before st cache (found, prev, p, chain) k found h replayed
        (subst (λ x. Replayed rounds x before cache) (sym p)
          (resolve_v2-replay rounds prev (f ∷ es) before cache chain k (omega arith) h))
  resolve_v2-replay zero id es st cache chain k enough replayed = absurd (omega arith)
  resolve_v2-replay (suc rounds) id [] st cache chain k enough replayed = absurd (ground arith)
