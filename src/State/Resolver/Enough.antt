-- ===== src/State/Resolver/Enough.antt =====
-- state/mod.rs: how many rounds the auth chains and the auth difference need.
use Prim.Native.Nat.{◌≤◌}
use kerux.Prelude.{ℕ, zero, suc, ◌+◌, String, ◌≡◌, refl, Bool, true, false}
use kerux.Prelude.{List, [], ◌∷◌, inl, inr, arith, ap}
use kerux.Prelude.Tests.{if◌then◌else◌, Bool-cases}
use kerux.Prelude.Equality.{◌==◌, ==-eq, ==_refl, string_eq}
use kerux.Prelude.Lists.{contains, all, length}
use kerux.Prelude.Maps.{HashSet, set_insert, contains-set_insert}
use kerux.Errors.{ok}
use kerux.Events.Content.{Serde}
use kerux.Events.Pdu.{StoredPdu, Hashing, auth_events}
use kerux.Storage.Reader.{Reader}
use kerux.State.Resolver.{fetch}
use kerux.State.Resolver.Graph.{visit, auth_chains_loop, all_chains}

-- How many of the known events were not met yet.
unmet : List String → HashSet String → ℕ
unmet [] ret = 0
unmet (k ∷ known) ret = let rest = unmet known ret in if contains ret k then rest else suc rest

unmet-start : (known : List String) → unmet known [] ≡ length known
unfolding unmet
unmet-start [] = refl
unmet-start (k ∷ known) = ap suc (unmet-start known)

unmet-insert :
    (known : List String) (id : String) (ret : HashSet String)
    → unmet known (set_insert id ret) ≤ unmet known ret
unfolding unmet
unmet-insert [] id ret = omega arith
unmet-insert (k ∷ known) id ret =
    ground (arith, unmet-insert known id ret, contains-set_insert k id ret)

unmet-insert_new :
    (known : List String) (id : String) (ret : HashSet String)
    → contains known id ≡ true
    → contains ret id ≡ false
    → suc (unmet known (set_insert id ret)) ≤ unmet known ret
unfolding unmet
unmet-insert_new [] id ret is fresh = cc
unmet-insert_new (k ∷ known) id ret is fresh = elim (Bool-cases (id == k)) [
  | inl here ↦
      ground
        (arith, ==-eq id k here, unmet-insert known id ret, contains-set_insert k id ret, ==_refl k)
  | inr there ↦
      ground
        (arith, unmet-insert_new known id ret (ground arith) fresh, contains-set_insert k id ret)
]

pushed-unmet :
    (b : Bool) (known : List String) (id : String) (ret : HashSet String) (stack : List String)
    → contains ret id ≡ b
    → contains known id ≡ true
    → length (if b then stack else id ∷ stack) + unmet known (set_insert id ret)
      ≤ length stack + unmet known ret
pushed-unmet true known id ret stack old is = let le = unmet-insert known id ret in omega arith
pushed-unmet false known id ret stack fresh is =
    let lt = unmet-insert_new known id ret is fresh in omega arith

-- What a visit queues was not met before it, and has been met after it.
visit-unmet :
    (known ids : List String) (ret : HashSet String) (stack : List String)
    → all (contains known) ids ≡ true
    → length (visit ids ret stack).1 + unmet known (visit ids ret stack).0
      ≤ length stack + unmet known ret
unfolding visit
visit-unmet known [] ret stack h = omega arith
visit-unmet known (id ∷ ids) ret stack h =
    let step = pushed-unmet (contains ret id) known id ret stack refl (ground arith) in
    let rest =
      visit-unmet known ids (set_insert id ret) (if contains ret id then stack else id ∷ stack)
        (ground arith) in
    omega arith

visit-known :
    (known ids : List String) (ret : HashSet String) (stack : List String)
    → all (contains known) ids ≡ true
    → all (contains known) stack ≡ true
    → all (contains known) (visit ids ret stack).1 ≡ true
unfolding visit
visit-known known [] ret stack h k = k
visit-known known (id ∷ ids) ret stack h k =
    visit-known known ids (set_insert id ret) (if contains ret id then stack else id ∷ stack)
      (ground arith) (ground arith)

module _ {J : Type 0} (S : Serde J) (H : Hashing J) (is_server_name : String → Bool) (r : Reader J)
    (room : String) where
  -- Each of these events is in the storage, and its auth events are among these.
  abbrev pub IsClosed : List String → Type 0
  IsClosed known =
      (id : String)
      → contains known id ≡ true
      → (pdu : StoredPdu J) × (fetch S H is_server_name r room id ≡ ok pdu)
        × (all (contains known) (auth_events pdu.inner) ≡ true)

  module _ (known : List String) (closed : IsClosed known) where
    auth_chains_loop_returns :
        (rounds : ℕ) (ret : HashSet String) (stack : List String)
        → all (contains known) stack ≡ true
        → length stack + unmet known ret ≤ rounds
        → (out : HashSet String) × (auth_chains_loop S H is_server_name r rounds room ret stack
            ≡ ok out)
    unfolding auth_chains_loop
    auth_chains_loop_returns rounds ret [] h le = (ret, refl)
    auth_chains_loop_returns zero ret (id ∷ stack) h le = absurd (omega arith)
    auth_chains_loop_returns (suc n) ret (id ∷ stack) h le =
        let (pdu, got, named) = closed id (ground arith) in
        let ids = auth_events pdu.inner in
        let fewer = visit-unmet known ids ret stack named in
        rw got (
          auth_chains_loop_returns n (visit ids ret stack).0 (visit ids ret stack).1
            (visit-known known ids ret stack named (ground arith)) (omega arith))

    -- With more rounds than there are events to meet, the auth chains of some of them are found.
    pub all_chains_returns :
        (rounds : ℕ) (ids : List String)
        → suc (length known) ≤ rounds
        → all (contains known) ids ≡ true
        → (chains : List (HashSet String)) × (all_chains S H is_server_name r rounds room ids
            ≡ ok chains)
    unfolding all_chains
    all_chains_returns rounds [] le h = ([], refl)
    all_chains_returns rounds (id ∷ ids) le h =
        let start = unmet-start known in
        let (chain, e) =
          auth_chains_loop_returns rounds [] (id ∷ []) (ground arith) (omega arith) in
        let (chains, e') = all_chains_returns rounds ids le (ground arith) in
        (chain ∷ chains, rw (e, e') refl)
