-- ===== src/Storage/Sled/Fixture.antt =====
-- A stand-in for sled and bincode, at which the theorems are tried: a tree is the list of its
-- entries, in the order in which their keys came in.
pub mod Laws
use Prim.Native.Char.{code}
use kerux.Prelude.{
  ℕ, zero, suc, String, Bool, true, false, ◌&&◌, ◌||◌, Option, none, some, List, [], ◌∷◌, refl, ap,
  ◌≡◌,
}
use kerux.Prelude.Tests.{ltb, eqb, is_some, if◌then◌else◌}
use kerux.Prelude.Equality.{Eq, ◌==◌, string_eq, nat_eq, list_eq}
use kerux.Prelude.Ints.{ℤ}
use kerux.Prelude.Lists.{is_empty, last?, keep}
use kerux.Prelude.Maps.{HashMap, lookup, insert, remove, NodupKeys, insert-NodupKeys}
use kerux.Prelude.Maps.{remove-NodupKeys, lookup-insert, lookup-remove}
use kerux.Errors.{Outcome, ok, err, bincode_error}
use kerux.Exec.{Exec}
use kerux.Mxid.Text.{any_char, Lacks}
use kerux.Events.Room.{unwrap_or}
use kerux.Events.Pdu.{StoredPdu}
use kerux.Storage.Query.{Batch}
use kerux.Storage.Mem.{Uuid}
use kerux.Storage.Sled.{TreeOf, Codec, User, AccessTokenData, Sled}
use kerux.Storage.Sled.Rooms.Keys.{le_bytes}
use kerux.Storage.Sled.Values.{IsTree, IsCodec}
use kerux.Storage.Sled.Agreement.{IsSled}

abbrev pub ListTree : (B K : Type 0) → ⦃e : Eq K⦄ → Type 0
ListTree B K = (m : HashMap K B) × NodupKeys m

module _ {B K : Type 0} ⦃e : Eq K⦄ where
  abbrev insert_entry : K → B → Exec (ListTree B K) (Option B)
  insert_entry k b (m, n) = (ok (lookup k m), (insert k b m, insert-NodupKeys k b m n))

  abbrev remove_entry : K → Exec (ListTree B K) (Option B)
  remove_entry k (m, n) = (ok (lookup k m), (remove k m, remove-NodupKeys k m n))

  -- Swaps where nothing is there and nothing is expected.
  abbrev swap_entry : K → Option B → Option B → Exec (ListTree B K) Bool
  swap_entry k none (some b) (m, n) =
      if is_some (lookup k m)
      then (ok false, (m, n))
      else (ok true, (insert k b m, insert-NodupKeys k b m n))
  swap_entry k _ _ t = (ok false, t)

  -- `in_range` and `has_prefix` are tests on keys.
  abbrev pub list_tree : (K → Option K → K → Bool) → (K → K → Bool) → TreeOf B K
  list_tree in_range has_prefix = record {
    Tree = ListTree B K;
    new_tree = ([], tt);
    get = λ k t. ok (lookup k t.0);
    insert = insert_entry;
    remove = remove_entry;
    contains_key = λ k t. ok (is_some (lookup k t.0));
    iter = λ t. ok t.0;
    is_empty = λ t. is_empty t.0;
    last = λ t. ok (last? t.0);
    range = λ from to t. ok (keep (λ (x : K × B). in_range from to x.0) t.0);
    scan_prefix = λ p t. ok (keep (λ (x : K × B). has_prefix p x.0) t.0);
    compare_and_swap = swap_entry;
  }

  pub list_tree-IsTree :
      (in_range : K → Option K → K → Bool) (has_prefix : K → K → Bool)
      → IsTree {B = B} (list_tree in_range has_prefix)
  list_tree-IsTree in_range has_prefix = record {
    entries = λ t. t.0;
    entries_nodup = λ t. t.1;
    entries_new = refl;
    iter_lem = λ t. refl;
    get_lem = λ k t. refl;
    contains_lem = λ k t. refl;
    insert_lem = λ k b t. refl;
    lookup-insert = λ j k b t. lookup-insert j k b t.0;
    remove_lem = λ k t. refl;
    lookup-remove = λ j k t. lookup-remove j k t.0;
  }

abbrev pub bytes_in_range : List ℕ → Option (List ℕ) → List ℕ → Bool
bytes_in_range from none key = le_bytes from key
bytes_in_range from (some to) key = le_bytes from key && le_bytes key to

-- `starts_with`
unfoldable pub is_prefix : String → String → Bool
is_prefix String.[] s = true
is_prefix (String.◌∷◌ c p) String.[] = false
is_prefix (String.◌∷◌ c p) (String.◌∷◌ d s) = eqb (code c) (code d) && is_prefix p s

-- A UUID is printed as so many crosses.
unfoldable pub crosses : Uuid → String
crosses zero = ""
crosses (suc n) = String.◌∷◌ "x" (crosses n)

crosses-Lacks : (n : Uuid) → Lacks b'_' (crosses n)
unfolding crosses any_char
crosses-Lacks zero = refl
crosses-Lacks (suc n) = crosses-Lacks n

crosses-injective : (m n : Uuid) → crosses m ≡ crosses n → m ≡ n
unfolding crosses
crosses-injective zero zero h = refl
crosses-injective zero (suc n) h = cc
crosses-injective (suc m) zero h = cc
crosses-injective (suc m) (suc n) h = ap suc (crosses-injective m n cc)

-- The values of the database, each kind under its own constructor.
pub data Bytes : Type 0 where
  user_bytes : User String → Bytes
  token_bytes : AccessTokenData → Bytes
  pdu_bytes : StoredPdu String → Bytes
  batch_bytes : Batch → Bytes
  depth_bytes : ℤ → Bytes
  text_bytes : String → Bytes

abbrev wrong {ℓ} : {A : Type ℓ} → Outcome A
wrong = err (bincode_error "another kind")

abbrev pub text_trees : TreeOf Bytes String
text_trees = list_tree (λ from to k. true) is_prefix

abbrev pub uuid_trees : TreeOf Bytes Uuid
uuid_trees = list_tree (λ from to k. true) (λ p k. true)

abbrev pub order_trees : TreeOf Bytes (List ℕ)
order_trees = list_tree bytes_in_range (λ p k. true)

abbrev pub stand_in : Sled String
stand_in = record {
  Bytes = Bytes;
  texts = text_trees;
  uuids = uuid_trees;
  orders = order_trees;
  user_codec = record {
    serialize = λ u. ok (user_bytes u);
    deserialize = λ b. elim b [ user_bytes u ↦ ok u | _ ↦ wrong ];
  };
  token_codec = record {
    serialize = λ t. ok (token_bytes t);
    deserialize = λ b. elim b [ token_bytes t ↦ ok t | _ ↦ wrong ];
  };
  pdu_codec = record {
    serialize = λ p. ok (pdu_bytes p);
    deserialize = λ b. elim b [ pdu_bytes p ↦ ok p | _ ↦ wrong ];
  };
  batch_codec = record {
    serialize = λ p. ok (batch_bytes p);
    deserialize = λ b. elim b [ batch_bytes p ↦ ok p | _ ↦ wrong ];
  };
  depth_codec = record {
    serialize = λ p. ok (depth_bytes p);
    deserialize = λ b. elim b [ depth_bytes p ↦ ok p | _ ↦ wrong ];
  };
  utf8 = text_bytes;
  from_utf8 = λ b. elim b [ text_bytes s ↦ some s | _ ↦ none ];
  no_bytes = text_bytes "";
  uuid_text = crosses;
  open_tree = λ name m. ok (unwrap_or (lookup name m) order_trees.new_tree);
}

pub stand_in-IsSled : IsSled stand_in
stand_in-IsSled = record {
  texts_lem = list_tree-IsTree (λ from to k. true) is_prefix;
  uuids_lem = list_tree-IsTree (λ from to k. true) (λ p k. true);
  users_lem = record {
    written = user_bytes;
    serialize_lem = λ v. refl;
    deserialize_lem = λ v. refl;
  };
  tokens_lem = record {
    written = token_bytes;
    serialize_lem = λ v. refl;
    deserialize_lem = λ v. refl;
  };
  batches_lem = record {
    written = batch_bytes;
    serialize_lem = λ v. refl;
    deserialize_lem = λ v. refl;
  };
  uuid_lacks = crosses-Lacks;
  uuid_injective = crosses-injective;
}
