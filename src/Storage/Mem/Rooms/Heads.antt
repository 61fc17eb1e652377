-- ===== src/Storage/Mem/Rooms/Heads.antt =====
-- storage/mem.rs: `get_prev_events` gives the heads of the event graph.
use kerux.Prelude.{String, ◌≡◌, refl, sym, ap, subst, ◌∙◌, Bool, true, false, ◌||◌, not}
use kerux.Prelude.{List, [], ◌∷◌, ◌++◌, map, ◌⊎◌, inl, inr, arith, fun_ext}
use kerux.Prelude.Tests.{if◌then◌else◌, Bool-cases}
use kerux.Prelude.Equality.{◌==◌, string_eq, ==_refl}
use kerux.Prelude.Lists.{contains, keep, any, all, All, keep-append}
use kerux.Errors.{Outcome, ok, ◌>>=◌}
use kerux.Prelude.Ints.{ℤ, negsuc, ◌≤ℤ◌, max_ℤ, leb_ℤ}
use kerux.Events.Content.{Serde}
use kerux.Events.Pdu.{StoredPdu, Hashing, prev_events, depth}
use kerux.Storage.Mem.{Room, MemStorage}
use kerux.Storage.Mem.Rooms.{id_of, strike, strike_all, get_prev_events, max_depth, find_room}

keep-keep {ℓ} :
    {A : Type ℓ} (p q r : A → Bool) (xs : List A)
    → ((x : A) → r x ≡ (if p x then q x else false))
    → keep q (keep p xs) ≡ keep r xs
keep-keep p q r [] h = refl
keep-keep p q r (x ∷ xs) h = ground (arith, h x, keep-keep p q r xs h)

keep-true {ℓ} : {A : Type ℓ} (p : A → Bool) (xs : List A) → ((x : A) → p x ≡ true) → keep p xs ≡ xs
keep-true p [] h = refl
keep-true p (x ∷ xs) h = ground (arith, h x, keep-true p xs h)

any-append {ℓ} :
    {A : Type ℓ} (p : A → Bool) (xs ys : List A) → any p (xs ++ ys) ≡ (any p xs || any p ys)
any-append p [] ys = refl
any-append p (x ∷ xs) ys = ground (arith, any-append p xs ys)

keep_none {ℓ} :
    {A : Type ℓ} (p : A → Bool) (xs : List A) → all (λ x. not (p x)) xs ≡ true → keep p xs ≡ []
keep_none p [] h = refl
keep_none p (x ∷ xs) h = ground (arith, keep_none p xs)

module _ {ℓ} {A : Type ℓ} (name : A → String) (p : A → Bool) where
  -- Each element that is kept has its name among the names of what is kept.
  all_named :
      (names : List String) (xs : List A)
      → ((k : String) → contains (map name (keep p xs)) k ≡ true → contains names k ≡ true)
      → all (λ x. not (p x) || contains names (name x)) xs ≡ true
  all_named names [] h = refl
  all_named names (x ∷ xs) h =
      ground (arith, h (name x), ==_refl (name x), all_named names xs (λ k m. h k (ground arith)))

  all_mono :
      (q r : A → Bool) (xs : List A)
      → ((x : A) → q x ≡ true → r x ≡ true)
      → all q xs ≡ true
      → all r xs ≡ true
  all_mono q r [] h a = refl
  all_mono q r (x ∷ xs) h a = ground (arith, h x, all_mono q r xs h)

module _ {J : Type 0} (S : Serde J) (H : Hashing J) where
  -- An event refers to another as one that came before it.
  abbrev refers : String → StoredPdu J → Bool
  refers id e = contains (prev_events e.inner) id

  -- No event of the list refers to this one: it is a head of the graph of events.
  abbrev pub is_head : List (StoredPdu J) → StoredPdu J → Bool
  is_head events pdu = not (any (refers (id_of S H pdu)) events)

  strike-eq-keep :
      (prevs : List String) (heads : List (StoredPdu J))
      → strike S H prevs heads ≡ keep (λ pdu. not (contains prevs (id_of S H pdu))) heads
  unfolding strike
  strike-eq-keep [] heads = sym (keep-true _ heads (λ x. refl))
  strike-eq-keep (prev ∷ prevs) heads =
      strike-eq-keep prevs _
      ∙ keep-keep (λ pdu. not (id_of S H pdu == prev)) _
          (λ pdu. not (contains (prev ∷ prevs) (id_of S H pdu))) heads (λ x. ground arith)

  strike_all-eq-keep :
      (events heads : List (StoredPdu J))
      → strike_all S H events heads ≡ keep (is_head events) heads
  unfolding strike_all
  strike_all-eq-keep [] heads = sym (keep-true _ heads (λ x. refl))
  strike_all-eq-keep (e ∷ events) heads =
      strike_all-eq-keep events _
      ∙ ap (keep (is_head events)) (strike-eq-keep (prev_events e.inner) heads)
      ∙ keep-keep (λ pdu. not (contains (prev_events e.inner) (id_of S H pdu))) (is_head events)
          (is_head (e ∷ events)) heads (λ x. ground arith)

  -- One of the events has the depth.
  abbrev pub HasDepth : ℤ → List (StoredPdu J) → Type 0
  HasDepth d [] = ⊥
  HasDepth d (e ∷ es) = (depth e.inner ≡ d) ⊎ HasDepth d es

  -- No event has a greater depth.
  abbrev pub NoneDeeper : ℤ → List (StoredPdu J) → Type 0
  NoneDeeper d es = All (λ (p : StoredPdu J). depth p.inner ≤ℤ d) es

  -- The largest of the events' depths, and -1 where there is no event.
  abbrev pub IsLargest : ℤ → List (StoredPdu J) → Type 0
  IsLargest d [] = d ≡ negsuc 0
  IsLargest d (e ∷ es) = HasDepth d (e ∷ es) × NoneDeeper d (e ∷ es)

  NoneDeeper-le :
      (d d' : ℤ) (es : List (StoredPdu J)) → d ≤ℤ d' → NoneDeeper d es → NoneDeeper d' es
  NoneDeeper-le d d' [] le h = tt
  NoneDeeper-le d d' (e ∷ es) le (first, rest) = (omega arith, NoneDeeper-le d d' es le rest)

  larger :
      (d : ℤ) (e : StoredPdu J) (es : List (StoredPdu J))
      → HasDepth d es
      → NoneDeeper d es
      → HasDepth (max_ℤ (depth e.inner) d) (e ∷ es) × NoneDeeper (max_ℤ (depth e.inner) d) (e ∷ es)
  larger d e es has none =
      let pinned = λ (m : ℤ). HasDepth m (e ∷ es) × NoneDeeper m (e ∷ es) in
      let own = depth e.inner in
      elim (Bool-cases (leb_ℤ own d)) [
        | inl le ↦
            let is : max_ℤ own d ≡ d = rw le refl in
            subst pinned (sym is) (inr has, (ground arith, none))
        | inr gt ↦
            let is : max_ℤ own d ≡ own = rw gt refl in
            let below : d ≤ℤ own = ground arith in
            subst pinned (sym is) (inl refl, (omega arith, NoneDeeper-le d own es below none))
      ]

  max_depth-IsLargest : (es : List (StoredPdu J)) → IsLargest (max_depth es) es
  unfolding max_depth
  max_depth-IsLargest [] = refl
  max_depth-IsLargest (e ∷ []) = (inl refl, (omega arith, tt))
  max_depth-IsLargest (e ∷ f ∷ es) =
      let (has, none) = max_depth-IsLargest (f ∷ es) in
      larger (max_depth (f ∷ es)) e (f ∷ es) has none

  -- The new event's predecessors are the identifiers of exactly those events of the room that no
  -- event of the room refers to, in the order of the room, and the depth is the largest of theirs
  -- (-1 where there is none). In a room that does not exist it is an error.
  pub get_prev_events-heads :
      (id : String) (db : MemStorage J)
      → (get_prev_events S H id db ≡ (do
        room ← find_room id db
        let heads = keep (is_head room.events) room.events
        ok (map (id_of S H) heads, max_depth heads)))
        × ((heads : List (StoredPdu J)) → IsLargest (max_depth heads) heads)
  unfolding get_prev_events
  get_prev_events-heads id db = (
    ap (λ (f : Room J → Outcome (List String × ℤ)). find_room id db >>= f)
        (fun_ext λ room.
          ap (λ (heads : List (StoredPdu J)). ok (map (id_of S H) heads, max_depth heads))
            (strike_all-eq-keep room.events room.events)),
    max_depth-IsLargest,
  )

  -- An event that names all heads of its room as its predecessors, and that neither the room's
  -- events nor itself refer to, becomes the room's only head.
  pub single_head :
      (events : List (StoredPdu J)) (pdu : StoredPdu J)
      → prev_events pdu.inner ≡ map (id_of S H) (keep (is_head events) events)
      → any (refers (id_of S H pdu)) events ≡ false
      → refers (id_of S H pdu) pdu ≡ false
      → keep (is_head (events ++ (pdu ∷ []))) (events ++ (pdu ∷ [])) ≡ pdu ∷ []
  single_head events pdu prevs fresh apart =
      let head = is_head (events ++ (pdu ∷ [])) in
      let named =
        all_named (id_of S H) (is_head events) (prev_events pdu.inner) events (λ k m. rw prevs m) in
      let old : keep head events ≡ [] = keep_none head events (
        all_mono (id_of S H) head _ _ events
          (λ x covered. ground (arith, any-append (refers (id_of S H x)) events (pdu ∷ [])))
          named) in
      let new : keep head (pdu ∷ []) ≡ pdu ∷ [] =
        ground (arith, any-append (refers (id_of S H pdu)) events (pdu ∷ [])) in
      rw (keep-append head events (pdu ∷ []), old, new)
