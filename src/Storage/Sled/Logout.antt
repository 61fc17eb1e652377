-- ===== src/Storage/Sled/Logout.antt =====
-- storage/sled.rs and storage/mem.rs: a logout from everywhere, and calls in sequence.
use kerux.Prelude.{
  String, ◌≡◌, refl, sym, ap, ◌∙◌, Bool, false, not, ◌&&◌, Option, none, some, List, [], ◌∷◌, inl,
  inr, arith,
}
use kerux.Prelude.Tests.{is_some, if◌then◌else◌, Option-cases}
use kerux.Prelude.Equality.{◌==◌, ==_refl, string_eq, nat_eq}
use kerux.Prelude.Lists.{contains}
use kerux.Prelude.Maps.{lookup, NodupKeys, lookup-cons, lookup-nil}
use kerux.Errors.{ok}
use kerux.Storage.Mem.{Uuid, MemStorage}
use kerux.Storage.Mem.Accounts as Memory
use kerux.Storage.Mem.Accounts.{Argon}
use kerux.Storage.Sled.{AccessTokenData, Sled, SledStorage}
use kerux.Storage.Sled.{get_value}
use kerux.Storage.Sled.Accounts
use kerux.Storage.Sled.Values.{Holds, update, get_value-Holds}
use kerux.Storage.Sled.Values.{remove-Holds, written_as}
use kerux.Storage.Sled.Agreement.{IsSled, Agrees, tokens_of}
use kerux.Storage.Sled.Simulation.{Same}
use kerux.Storage.Sled.Sessions.{with_tokens}
use kerux.Prelude.Maps.{retain, lookup-retain, retain-NodupKeys}

module _ {J : Type 0} (D : Sled J) (laws : IsSled D) where
  abbrev written_token : Option AccessTokenData → Option D.Bytes
  written_token = written_as D.uuids D.token_codec laws.uuids_lem laws.tokens_lem

  abbrev is_of : String → Option AccessTokenData → Bool
  is_of username none = false
  is_of username (some found) = found.username == username

  -- The entries are of a map `f`, which may have others.
  abbrev AreOf : List (Uuid × D.Bytes) → (Uuid → Option AccessTokenData) → Type 0
  AreOf entries f =
      (j : Uuid) (b : D.Bytes) → lookup j entries ≡ some b → written_token (f j) ≡ some b

  AreOf-tail :
      (k : Uuid) (b : D.Bytes) (entries : List (Uuid × D.Bytes)) (f : Uuid → Option AccessTokenData)
      → lookup k entries ≡ none
      → AreOf ((k, b) ∷ entries) f
      → AreOf entries f
  AreOf-tail k b entries f fresh h j c e = h j c (ground (arith, lookup-cons j k b entries))

  head_written :
      (k : Uuid) (b : D.Bytes) (entries : List (Uuid × D.Bytes)) (f : Uuid → Option AccessTokenData)
      → AreOf ((k, b) ∷ entries) f
      → written_token (f k) ≡ some b
  head_written k b entries f h = h k b (rw (lookup-cons k k b entries, ==_refl k) refl)

  head_read :
      (k : Uuid) (b : D.Bytes) (entries : List (Uuid × D.Bytes)) (f : Uuid → Option AccessTokenData)
      (v : AccessTokenData)
      → AreOf ((k, b) ∷ entries) f
      → f k ≡ some v
      → D.token_codec.deserialize b ≡ ok v
  head_read k b entries f v h there =
      let bytes : laws.tokens_lem.written v ≡ b =
        ground (arith, head_written k b entries f h, there) in
      rw (← bytes) (laws.tokens_lem.deserialize_lem v)

  keys_of-eq :
      (username : String) (entries : List (Uuid × D.Bytes)) (f : Uuid → Option AccessTokenData)
      → NodupKeys entries
      → AreOf entries f
      → (keys : List Uuid) × (Accounts.keys_of D username entries ≡ ok keys)
        × ((j : Uuid) → contains keys j ≡ (is_some (lookup j entries) && is_of username (f j)))
  unfolding Accounts.keys_of
  keys_of-eq username [] f n h = ([], refl, λ j. rw (lookup-nil {V = D.Bytes} j) refl)
  keys_of-eq username ((k, b) ∷ entries) f (fresh, n) h =
      let (keys, made, are) = keys_of-eq username entries f n (AreOf-tail k b entries f fresh h) in
      elim (Option-cases (f k)) [
        | inl missing ↦ absurd (ground (arith, head_written k b entries f h, missing))
        | inr (v, there) ↦ (
          (if v.username == username then k ∷ keys else keys),
          rw (head_read k b entries f v h there, made) refl,
          λ j. ground (arith, are j, lookup-cons j k b entries, there, fresh),
        )
      ]

  remove_all-eq :
      (keys : List Uuid) (s : SledStorage D) (f : Uuid → Option AccessTokenData)
      → Holds D.uuids D.token_codec laws.uuids_lem laws.tokens_lem s.access_tokens f
      → (t : D.uuids.Tree) × (Accounts.remove_all D keys s
          ≡ (ok tt, record s { access_tokens = t }))
        × Holds D.uuids D.token_codec laws.uuids_lem laws.tokens_lem t
            (λ j. if contains keys j then none else f j)
  unfolding Accounts.remove_all
  remove_all-eq [] s f h = (s.access_tokens, refl, h)
  remove_all-eq (k ∷ keys) s f h =
      let t1 = (D.uuids.remove k s.access_tokens).1 in
      let (t, done, held) =
        remove_all-eq keys (record s { access_tokens = t1 })
          (update D.uuids D.token_codec laws.uuids_lem laws.tokens_lem k none f)
          (remove-Holds D.uuids D.token_codec laws.uuids_lem laws.tokens_lem k s.access_tokens f
            h) in
      (
        t,
        rw (laws.uuids_lem.remove_lem k s.access_tokens) done,
        λ j. held j ∙ ap written_token (both j),
      )
    where
      both :
          (j : Uuid)
          → (if contains keys j
              then none
              else update D.uuids D.token_codec laws.uuids_lem laws.tokens_lem k none f j)
            ≡ (if contains (k ∷ keys) j then none else f j)
      both j = ground arith

  pub delete_all_access_tokens-Same :
      (token : Uuid) (s : SledStorage D) (db : MemStorage J)
      → Agrees D laws s db
      → Same D laws
          (Accounts.delete_all_access_tokens D token s)
          (Memory.delete_all_access_tokens token db)
  unfolding Accounts.delete_all_access_tokens Memory.delete_all_access_tokens
  delete_all_access_tokens-Same token s db a = elim (Option-cases (lookup token db.access_tokens)) [
    | inl missing ↦ rw (held, missing, Memory.delete_all_access_tokens) (refl, a)
    | inr (name, there) ↦
        let (keys, made, are) =
          keys_of-eq name (laws.uuids_lem.entries s.access_tokens) f
            (laws.uuids_lem.entries_nodup s.access_tokens) (λ j b e. sym (a.tokens_agree j) ∙ e) in
        let (t, done, left) = remove_all-eq keys s f a.tokens_agree in
        rw
          (
            held,
            there,
            Memory.delete_all_access_tokens,
            laws.uuids_lem.iter_lem s.access_tokens,
            made,
            done,
          )
          (
            refl,
            with_tokens D laws s db a.device t
                (retain (λ t' name'. not (name' == name)) db.access_tokens) a
                (λ j. left j ∙ ap written_token (kept name keys are j))
                (retain-NodupKeys _ db.access_tokens a.tokens_nodup),
          )
  ]
    where
      f : Uuid → Option AccessTokenData
      f = tokens_of a.device db.access_tokens

      held : get_value D.uuids D.token_codec token s.access_tokens ≡ ok (f token)
      held =
          get_value-Holds D.uuids D.token_codec laws.uuids_lem laws.tokens_lem token s.access_tokens
            f a.tokens_agree

      kept :
          (name : String) (keys : List Uuid)
          → ((j : Uuid)
              → contains keys j
                ≡ (is_some (lookup j (laws.uuids_lem.entries s.access_tokens)) && is_of name (f j)))
          → (j : Uuid)
          → (if contains keys j then none else f j)
            ≡ tokens_of a.device (retain (λ t' name'. not (name' == name)) db.access_tokens) j
      kept name keys are j =
          rw (are j, a.tokens_agree j)
            (ground (
              arith,
              lookup-retain (λ (t' : Uuid) (name' : String). not (name' == name)) j db.access_tokens
                  a.tokens_nodup,
            ))
