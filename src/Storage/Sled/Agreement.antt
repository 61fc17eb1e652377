-- ===== src/Storage/Sled/Agreement.antt =====
-- storage/sled.rs and storage/mem.rs: when a database and the memory hold the same accounts.
use Prim.Native.Char.{Char}
use Prim.Native.String.{◌++◌ as ◌<>◌}
use text.Mathlib.TextLemmas.{nil-append, cons-append}
use kerux.Prelude.{String, ◌≡◌, refl, sym, ap, ◌∙◌, subst, Option, List, arith}
use kerux.Prelude.Tests.{is_some, map_option}
use kerux.Prelude.Equality.{string_eq, nat_eq}
use kerux.Prelude.Lists.{contains}
use kerux.Prelude.Maps.{HashMap, lookup, NodupKeys}
use kerux.Mxid.Text.{any_char, Lacks}
use kerux.Storage.Mem.{Uuid, MemStorage}
use kerux.Storage.Mem as Mem
use kerux.Storage.Mem.Accounts as Memory
use kerux.Storage.Sled.{User, AccessTokenData, Sled, SledStorage}
use kerux.Storage.Sled.Accounts
use kerux.Storage.Sled.Values.{IsTree, IsCodec, Holds}

-- What is documented of sled and of bincode, as long as no call fails.
pub record IsSled {J : Type 0} (D : Sled J) : Type 0 where
  pub texts_lem : IsTree D.texts
  pub uuids_lem : IsTree D.uuids
  pub users_lem : IsCodec D.user_codec
  pub tokens_lem : IsCodec D.token_codec
  pub batches_lem : IsCodec D.batch_codec
  pub uuid_lacks : (token : Uuid) → Lacks b'_' (D.uuid_text token)
  pub uuid_injective : (t u : Uuid) → D.uuid_text t ≡ D.uuid_text u → t ≡ u

abbrev underscore : Char
underscore = "_"

starts_wrong : (d : Char) (v : String) → d ≡ underscore → ¬ Lacks b'_' (String.◌∷◌ d v)
unfolding any_char
starts_wrong d v same k = cc (subst (λ x. Lacks b'_' (String.◌∷◌ x v)) same k)

first_text :
    (u v a b : String)
    → Lacks b'_' u
    → Lacks b'_' v
    → u <> String.◌∷◌ underscore a ≡ v <> String.◌∷◌ underscore b
    → (u ≡ v) × (a ≡ b)
unfolding any_char
first_text String.[] String.[] a b h k e =
    let e' = sym (nil-append _) ∙ e ∙ nil-append _ in (refl, cc)
first_text String.[] (String.◌∷◌ d v) a b h k e =
    let e' = sym (nil-append _) ∙ e ∙ cons-append d v _ in
    let same : d ≡ underscore = cc in absurd (starts_wrong d v same k)
first_text (String.◌∷◌ c u) String.[] a b h k e =
    let e' = sym (cons-append c u _) ∙ e ∙ nil-append _ in
    let same : c ≡ underscore = cc in absurd (starts_wrong c u same h)
first_text (String.◌∷◌ c u) (String.◌∷◌ d v) a b h k e =
    let e' = sym (cons-append c u _) ∙ e ∙ cons-append d v _ in
    let rest = first_text u v a b (ground arith) (ground arith) (cc) in ground arith

underscore-append : (s : String) → "_" <> s ≡ String.◌∷◌ underscore s
underscore-append s = cons-append underscore "" s ∙ ap (String.◌∷◌ underscore) (nil-append s)

module _ {J : Type 0} where
  -- The fields that both backends have of a user.
  abbrev pub stored_user : Mem.User J → User J
  stored_user u = record {
    password_hash = u.password_hash;
    profile = u.profile;
    account_data = u.account_data;
  }

  abbrev pub users_of : List (Mem.User J) → String → Option (User J)
  users_of users name = map_option stored_user (Memory.find_user name users)

-- The memory does not keep the devices of its tokens.
abbrev pub tokens_of : (Uuid → String) → HashMap Uuid String → Uuid → Option AccessTokenData
tokens_of device tokens token =
    map_option (λ name. record { username = name; device_id = device token }) (lookup token tokens)

module _ {J : Type 0} (D : Sled J) (laws : IsSled D) where
  -- The name of a transaction tells its token and its identifier.
  pub txn_name-injective :
      (t u : Uuid) (a b : String)
      → Accounts.txn_name D t a ≡ Accounts.txn_name D u b
      → (t ≡ u) × (a ≡ b)
  txn_name-injective t u a b e =
      let (same, rest) =
        first_text (D.uuid_text t) (D.uuid_text u) a b (laws.uuid_lacks t) (laws.uuid_lacks u) (
          ap (λ x. D.uuid_text t <> x) (sym (underscore-append a))
          ∙ e
          ∙ ap (λ x. D.uuid_text u <> x) (underscore-append b)) in
      (laws.uuid_injective t u same, rest)

  pub record Agrees (s : SledStorage D) (db : MemStorage J) : Type 0 where
    pub device : Uuid → String
    pub users_agree :
        Holds D.texts D.user_codec laws.texts_lem laws.users_lem s.users (users_of db.users)
    pub tokens_agree :
        Holds D.uuids D.token_codec laws.uuids_lem laws.tokens_lem s.access_tokens
          (tokens_of device db.access_tokens)
    pub tokens_nodup : NodupKeys db.access_tokens
    pub txns_agree :
        (token : Uuid) (id : String)
        → is_some (lookup (Accounts.txn_name D token id) (laws.texts_lem.entries s.txn_ids))
          ≡ contains (Memory.txns_of token db) id
    pub batches_agree :
        Holds D.texts D.batch_codec laws.texts_lem laws.batches_lem s.batches
          (λ id. lookup id db.batches)
