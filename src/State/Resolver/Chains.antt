-- ===== src/State/Resolver/Chains.antt =====
-- state/mod.rs: what `auth_chains` collects.
use kerux.Prelude.{ℕ, zero, suc, String, ◌≡◌, refl, sym, ◌∙◌, subst, Bool, true, false, ◌||◌}
use kerux.Prelude.{◌&&◌, not, ◌↔◌, ◌⊎◌, inl, inr, List, [], ◌∷◌, arith}
use kerux.Prelude.Tests.{if◌then◌else◌, Bool-cases}
use kerux.Prelude.Equality.{◌==◌, ==-eq, ==_refl, string_eq}
use kerux.Prelude.Lists.{contains}
use kerux.Prelude.Maps.{HashSet, set_insert, contains-set_insert}
use kerux.Errors.{ok, >>=-eq-ok, ok-injective}
use kerux.Events.Content.{Serde}
use kerux.Events.Pdu.{StoredPdu, Hashing, auth_events}
use kerux.Storage.Reader.{Reader}
use kerux.State.Resolver.{fetch}
use kerux.State.Resolver.Graph.{visit, auth_chains_loop, auth_chains}

contains-visit :
    (ids : List String) (ret : HashSet String) (stack : List String) (x : String)
    → (contains (visit ids ret stack).0 x ≡ (contains ret x || contains ids x))
      × (contains (visit ids ret stack).1 x
          ≡ (contains stack x || (contains ids x && not (contains ret x))))
unfolding visit
contains-visit [] ret stack x = (ground arith, ground arith)
contains-visit (id ∷ ids) ret stack x =
    let pushed = if contains ret id then stack else id ∷ stack in
    let (met, waits) = contains-visit ids (set_insert id ret) pushed x in
    let own = contains-set_insert x id ret in ground (arith, met, waits, own, ==-eq x id)

ended : {P : Type 0} → (false ≡ true) ⊎ P → P
ended (inl h) = cc
ended (inr p) = p

module _ {J : Type 0} (S : Serde J) (H : Hashing J) (is_server_name : String → Bool) (r : Reader J)
    (room : String) where
  -- The first event is in the storage, and names the second as an auth event.
  abbrev pub Names : String → String → Type 0
  Names u v =
      (pdu : StoredPdu J) × (fetch S H is_server_name r room u ≡ ok pdu)
      × (contains (auth_events pdu.inner) v ≡ true)

  -- An event's auth chain: its auth events, their auth events, and so on.
  pub data InChain (id : String) : String → Type 0 where
    named : {v : String} → Names id v → InChain id v
    further : {u v : String} → InChain id u → Names u v → InChain id v

  module _ (root : String) where
    -- What was met, and what is still to be looked at.
    record Inv (ret : HashSet String) (stack : List String) : Type 0 where
      sound : (x : String) → contains ret x ≡ true → InChain root x
      queued : (x : String) → contains stack x ≡ true → (x ≡ root) ⊎ (contains ret x ≡ true)
      closed :
          (u v : String)
          → (u ≡ root) ⊎ (contains ret u ≡ true)
          → Names u v
          → (contains stack u ≡ true) ⊎ (contains ret v ≡ true)

    Inv-start : Inv [] (root ∷ [])
    Inv-start = record {
      sound = λ x h. absurd (ground arith);
      queued = λ x h. ground (arith, ==-eq x root);
      closed = λ u v h names. ground (arith, ==_refl root);
    }

    -- An event that is looked at is the root, or in its chain.
    below :
        (id x : String) (ret : HashSet String)
        → ((y : String) → contains ret y ≡ true → InChain root y)
        → (id ≡ root) ⊎ (contains ret id ≡ true)
        → Names id x
        → InChain root x
    below id x ret sound (inl e) names = named (subst (λ y. Names y x) e names)
    below id x ret sound (inr k) names = further (sound id k) names

    named_by :
        (id v : String) (pdu : StoredPdu J)
        → fetch S H is_server_name r room id ≡ ok pdu
        → Names id v
        → contains (auth_events pdu.inner) v ≡ true
    named_by id v pdu got (pdu', got', has) =
        subst (λ (p : StoredPdu J). contains (auth_events p.inner) v ≡ true)
          (ok-injective pdu' pdu (sym got' ∙ got)) has

    Inv-visit :
        (id : String) (pdu : StoredPdu J) (ret : HashSet String) (stack : List String)
        → fetch S H is_server_name r room id ≡ ok pdu
        → Inv ret (id ∷ stack)
        → Inv
            (visit (auth_events pdu.inner) ret stack).0
            (visit (auth_events pdu.inner) ret stack).1
    Inv-visit id pdu ret stack got h = record {
      sound = λ x m. elim (Bool-cases (contains ret x)) [
        | inl old ↦ h.sound x old
        | inr fresh ↦
            below id x ret h.sound (h.queued id (ground (arith, ==_refl id)))
              (pdu, got, ground (arith, met x))
      ];
      queued = λ x m. ground (arith, met x, h.queued x);
      closed = λ u v m names. elim (seen u m) [
        | inl fresh ↦ inl fresh
        | inr old ↦ elim (h.closed u v old names) [
          | inr k ↦ inr (ground (arith, met v))
          | inl waits ↦ elim (Bool-cases (u == id)) [
            | inr other ↦ inl (ground (arith, met u))
            | inl is ↦
                let own = named_by id v pdu got (subst (λ y. Names y v) (==-eq u id is) names) in
                inr (ground (arith, met v))
          ]
        ]
      ];
    }
      where
        met :
            (x : String)
            → (contains (visit (auth_events pdu.inner) ret stack).0 x
                ≡ (contains ret x || contains (auth_events pdu.inner) x))
              × (contains (visit (auth_events pdu.inner) ret stack).1 x ≡ (
                  contains stack x || (contains (auth_events pdu.inner) x && not (contains ret x))))
        met x = contains-visit (auth_events pdu.inner) ret stack x

        seen :
            (u : String)
            → (u ≡ root) ⊎ (contains (visit (auth_events pdu.inner) ret stack).0 u ≡ true)
            → (contains (visit (auth_events pdu.inner) ret stack).1 u ≡ true)
              ⊎ ((u ≡ root) ⊎ (contains ret u ≡ true))
        seen u (inl e) = inr (inl e)
        seen u (inr m) = elim (Bool-cases (contains ret u)) [
          | inl old ↦ inr (inr old)
          | inr fresh ↦ inl (ground (arith, met u))
        ]

    Inv-loop :
        (rounds : ℕ) (ret : HashSet String) (stack : List String) (out : HashSet String)
        → Inv ret stack
        → auth_chains_loop S H is_server_name r rounds room ret stack ≡ ok out
        → Inv out []
    unfolding auth_chains_loop
    Inv-loop rounds ret [] out h e = subst (λ x. Inv x []) (ok-injective ret out e) h
    Inv-loop zero ret (id ∷ stack) out h e = cc
    Inv-loop (suc n) ret (id ∷ stack) out h e =
        let (pdu, got, rest) = >>=-eq-ok (fetch S H is_server_name r room id) _ e in
        Inv-loop n _ _ out (Inv-visit id pdu ret stack got h) rest

    all_met :
        (out : HashSet String) → Inv out [] → {x : String} → InChain root x → contains out x ≡ true
    all_met out h (named {v} names) = ended (h.closed root v (inl refl) names)
    all_met out h (further {u} {v} chain names) =
        ended (h.closed u v (inr (all_met out h chain)) names)

  -- `auth_chains` of an event, if it returns, has exactly the event's auth chain.
  pub contains-auth_chains :
      (rounds : ℕ) (id : String) (chain : HashSet String) (x : String)
      → auth_chains S H is_server_name r rounds room id ≡ ok chain
      → (contains chain x ≡ true) ↔ InChain id x
  contains-auth_chains rounds id chain x e =
      let h = Inv-loop id rounds [] (id ∷ []) chain (Inv-start id) e in
      (h.sound x, all_met id chain h)
