-- ===== src/Storage/Sled/Values.antt =====
-- storage/sled.rs: what `TreeExt` promises, from what sled and bincode promise while no call fails.
-- A tree of values stands for a partial map from keys to values.
use kerux.Prelude.{◌≡◌, refl, true, false, Option, none, some, List, [], inl, inr, arith}
use kerux.Prelude.Tests.{is_some, if◌then◌else◌, Option-cases}
use kerux.Prelude.Equality.{Eq, ◌==◌}
use kerux.Prelude.Maps.{lookup, lookup-nil, NodupKeys}
use kerux.Errors.{ok}
use kerux.Storage.Sled.{TreeOf, Codec, get_value, replace_value, try_insert_value, overwrite_value}

-- The entries of a tree, as its iterator gives them, and what each call does to them.
pub record IsTree {B K : Type 0} ⦃e : Eq K⦄ (T : TreeOf B K) : Type 0 where
  pub entries : T.Tree → List (K × B)
  pub entries_nodup : (t : T.Tree) → NodupKeys (entries t)
  pub entries_new : entries T.new_tree ≡ []
  pub iter_lem : (t : T.Tree) → T.iter t ≡ ok (entries t)
  pub get_lem : (k : K) (t : T.Tree) → T.get k t ≡ ok (lookup k (entries t))
  pub contains_lem : (k : K) (t : T.Tree) → T.contains_key k t ≡ ok (is_some (lookup k (entries t)))
  pub insert_lem : (k : K) (b : B) (t : T.Tree) → (T.insert k b t).0 ≡ ok (lookup k (entries t))
  pub lookup-insert :
      (j k : K) (b : B) (t : T.Tree)
      → lookup j (entries (T.insert k b t).1) ≡ (if j == k then some b else lookup j (entries t))
  pub remove_lem : (k : K) (t : T.Tree) → (T.remove k t).0 ≡ ok (lookup k (entries t))
  pub lookup-remove :
      (j k : K) (t : T.Tree)
      → lookup j (entries (T.remove k t).1) ≡ (if j == k then none else lookup j (entries t))

-- What is written is read again.
pub record IsCodec {B V : Type 0} (C : Codec B V) : Type 0 where
  pub written : V → B
  pub serialize_lem : (v : V) → C.serialize v ≡ ok (written v)
  pub deserialize_lem : (v : V) → C.deserialize (written v) ≡ ok v

module _ {B K V : Type 0} ⦃e : Eq K⦄ (T : TreeOf B K) (C : Codec B V) (t_laws : IsTree T)
    (c_laws : IsCodec C) where
  -- Where the map has a value the tree has its bytes, and nothing elsewhere.
  abbrev pub written_as : Option V → Option B
  written_as none = none
  written_as (some v) = some (c_laws.written v)

  abbrev pub Holds : T.Tree → (K → Option V) → Type 0
  Holds t f = (k : K) → lookup k (t_laws.entries t) ≡ written_as (f k)

  abbrev pub update : K → Option V → (K → Option V) → K → Option V
  update k v f j = if j == k then v else f j

  pub get_value-Holds :
      (k : K) (t : T.Tree) (f : K → Option V) → Holds t f → get_value T C k t ≡ ok (f k)
  unfolding get_value
  get_value-Holds k t f h = elim (Option-cases (f k)) [
    | inl e ↦ rw (t_laws.get_lem k t, h k, e) refl
    | inr (v, e) ↦ rw (t_laws.get_lem k t, h k, e, c_laws.deserialize_lem v) refl
  ]

  is_some-written : (v : Option V) → is_some (written_as v) ≡ is_some v
  is_some-written none = refl
  is_some-written (some v) = refl

  pub insert-Holds :
      (k : K) (v : V) (t : T.Tree) (f : K → Option V)
      → Holds t f
      → Holds (T.insert k (c_laws.written v) t).1 (update k (some v) f)
  insert-Holds k v t f h j = ground (arith, h j, t_laws.lookup-insert j k (c_laws.written v) t)

  pub remove-Holds :
      (k : K) (t : T.Tree) (f : K → Option V) → Holds t f → Holds (T.remove k t).1 (update k none f)
  remove-Holds k t f h j = ground (arith, h j, t_laws.lookup-remove j k t)

  -- A value is written over what is there, and whether something was there is told.
  pub overwrite_value-eq :
      (k : K) (v : V) (t : T.Tree) (f : K → Option V)
      → Holds t f
      → overwrite_value T C k v t ≡ (ok (is_some (f k)), (T.insert k (c_laws.written v) t).1)
  unfolding overwrite_value
  overwrite_value-eq k v t f h =
      rw
        (
          c_laws.serialize_lem v,
          t_laws.insert_lem k (c_laws.written v) t,
          h k,
          is_some-written (f k),
        )
        refl

  pub replace_value-eq :
      (k : K) (v : V) (t : T.Tree) (f : K → Option V)
      → Holds t f
      → replace_value T C k v t ≡ (ok (f k), (T.insert k (c_laws.written v) t).1)
  unfolding replace_value
  replace_value-eq k v t f h = elim (Option-cases (f k)) [
    | inl e ↦ rw (c_laws.serialize_lem v, t_laws.insert_lem k (c_laws.written v) t, h k, e) refl
    | inr (w, e) ↦
        rw
          (
            c_laws.serialize_lem v,
            t_laws.insert_lem k (c_laws.written v) t,
            h k,
            e,
            c_laws.deserialize_lem w,
          )
          refl
  ]

  -- A value is written where there is none, and a value that is there stays.
  pub try_insert_value-eq :
      (k : K) (v : V) (t : T.Tree) (f : K → Option V)
      → Holds t f
      → try_insert_value T C k v t
        ≡ (if is_some (f k) then (ok false, t) else (ok true, (T.insert k (c_laws.written v) t).1))
  unfolding try_insert_value
  try_insert_value-eq k v t f h = elim (Option-cases (f k)) [
    | inl e ↦
        rw
          (
            c_laws.serialize_lem v,
            t_laws.contains_lem k t,
            h k,
            e,
            t_laws.insert_lem k (c_laws.written v) t,
          )
          refl
    | inr (w, e) ↦ rw (c_laws.serialize_lem v, t_laws.contains_lem k t, h k, e) refl
  ]

  pub new-Holds : Holds T.new_tree (λ k. none)
  new-Holds k = rw (t_laws.entries_new) (lookup-nil k)
