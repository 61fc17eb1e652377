-- ===== src/Validate/Auth/PowerChanges.antt =====
-- validate/auth.rs: a change of power levels that is allowed takes nobody above the sender.
use kerux.Prelude.{ℕ, ◌≤◌, ◌<◌, String, ◌≡◌, ◌≢◌, refl, ◌⊎◌, inl, inr, true, false}
use kerux.Prelude.{Option, none, some, [], ◌∷◌, arith}
use kerux.Prelude.Tests.{eqb, Option-cases, Bool-cases}
use kerux.Prelude.Equality.{Eq, ◌==◌, string_eq, option_eq, nat_eq, ==-eq, ==-ne}
use kerux.Prelude.Maps.{HashMap, lookup}
use kerux.Mxid.{MatrixId, mxid_eq}
use kerux.Events.Room.{PowerLevels}
use kerux.Events.Levels
use kerux.Validate.Changes.{level_denied, was_above, entry_denied, entries_denied, removals_denied}
use kerux.Validate.Changes.{peer_denied, users_denied, levels_denied}

-- A level is unchanged, or neither the old nor the new one is above `s`.
abbrev pub Limited : ℕ → ℕ → ℕ → Type 0
Limited s old new = (old ≡ new) ⊎ ((old ≤ s) × (new ≤ s))

-- A level that may be missing is at most `s`.
abbrev pub AtMost : ℕ → Option ℕ → Type 0
AtMost s none = Unit
AtMost s (some v) = v ≤ s

-- An entry is unchanged, or neither the old nor the new one is above `s`, where there is one.
abbrev pub EntryLimited : ℕ → Option ℕ → Option ℕ → Type 0
EntryLimited s old new = (old ≡ new) ⊎ (AtMost s old × AtMost s new)

Limited-of_allowed : (old new s : ℕ) → level_denied old new s ≡ false → Limited s old new
unfolding level_denied
Limited-of_allowed old new s h = elim (Bool-cases (eqb old new)) [
  | inl same ↦ inl (ground arith)
  | inr differ ↦ inr (ground arith, ground arith)
]

AtMost-of_was : (s : ℕ) (o : Option ℕ) → was_above s o ≡ false → AtMost s o
AtMost-of_was s none h = tt
AtMost-of_was s (some v) h = ground arith

module _ {K : Type 0} ⦃e : Eq K⦄ where
  -- What the loops over new and old entries say of the entry at one key.
  entries_allowed :
      (s : ℕ) (old new : HashMap K ℕ) (key : K) (v : ℕ)
      → entries_denied s old new ≡ false
      → lookup key new ≡ some v
      → entry_denied s old key v ≡ false
  unfolding entries_denied lookup
  entries_allowed s old [] key v h found = cc
  entries_allowed s old ((k, w) ∷ new) key v h found =
      ground (arith, entries_allowed s old new key v)

  removals_allowed :
      (s : ℕ) (old new : HashMap K ℕ) (key : K) (v : ℕ)
      → removals_denied s old new ≡ false
      → lookup key old ≡ some v
      → lookup key new ≡ none
      → v ≤ s
  unfolding removals_denied lookup
  removals_allowed s [] new key v h found gone = absurd (ground arith)
  removals_allowed s ((k, w) ∷ old) new key v h found gone =
      ground (arith, removals_allowed s old new key v)

  entry_of_allowed :
      (s : ℕ) (old : HashMap K ℕ) (key : K) (v : ℕ)
      → entry_denied s old key v ≡ false
      → EntryLimited s (lookup key old) (some v)
  unfolding entry_denied
  entry_of_allowed s old key v h = elim (Bool-cases (lookup key old == some v)) [
    | inl same ↦ inl (==-eq (lookup key old) (some v) same)
    | inr differ ↦ inr (AtMost-of_was s (lookup key old) (ground arith), ground arith)
  ]

  -- At every key, the entries of an allowed change are limited by the sender's level.
  entry_limited :
      (s : ℕ) (old new : HashMap K ℕ) (key : K)
      → ((v : ℕ) → lookup key new ≡ some v → entry_denied s old key v ≡ false)
      → removals_denied s old new ≡ false
      → EntryLimited s (lookup key old) (lookup key new)
  entry_limited s old new key entries removals = elim (Option-cases (lookup key new)) [
    | inr (v, is) ↦ rw is (entry_of_allowed s old key v (entries v is))
    | inl gone ↦ elim (Option-cases (lookup key old)) [
      | inl was ↦ rw (gone, was) (inl refl)
      | inr (v, was) ↦ rw (gone, was) (inr (removals_allowed s old new key v removals was gone, tt))
    ]
  ]

module _ (sender_id : MatrixId) (s : ℕ) where
  users_allowed :
      (old new : HashMap MatrixId ℕ) (key : MatrixId) (v : ℕ)
      → users_denied sender_id s old new ≡ false
      → lookup key new ≡ some v
      → (entry_denied s old key v ≡ false) × (peer_denied sender_id s old key v ≡ false)
  unfolding users_denied lookup
  users_allowed old [] key v h found = cc
  users_allowed old ((k, w) ∷ new) key v h found = ground (arith, users_allowed old new key v)

  -- The entry of another user who has the sender's own level may go, and may not be changed.
  abbrev pub PeerKept : MatrixId → Option ℕ → Option ℕ → Type 0
  PeerKept key old none = Unit
  PeerKept key old (some v) = ((key == sender_id) ≡ true) ⊎ ((old ≡ some v) ⊎ (old ≢ some s))

  -- What an allowed change of power levels keeps: no level and no entry that is above the sender's
  -- level is changed, added or removed, and none is raised above it.
  pub record NoEscalation (old new : PowerLevels) : Type 0 where
    pub for_ban : Limited s (Levels.ban old) (Levels.ban new)
    pub for_invite : Limited s (Levels.invite old) (Levels.invite new)
    pub for_kick : Limited s (Levels.kick old) (Levels.kick new)
    pub for_redact : Limited s (Levels.redact old) (Levels.redact new)
    pub for_events : Limited s (Levels.events_default old) (Levels.events_default new)
    pub for_state : Limited s (Levels.state_default old) (Levels.state_default new)
    pub for_users : Limited s (Levels.users_default old) (Levels.users_default new)
    pub event_entries :
        (key : String) → EntryLimited s (lookup key old.events) (lookup key new.events)
    pub user_entries :
        (key : MatrixId) → EntryLimited s (lookup key old.users) (lookup key new.users)
    pub peers : (key : MatrixId) → PeerKept key (lookup key old.users) (lookup key new.users)

  peer_of_allowed :
      (old : HashMap MatrixId ℕ) (key : MatrixId) (v : ℕ)
      → peer_denied sender_id s old key v ≡ false
      → PeerKept key (lookup key old) (some v)
  peer_of_allowed old key v h = elim (Bool-cases (key == sender_id)) [
    | inl own ↦ inl own
    | inr other ↦ elim (Bool-cases (lookup key old == some v)) [
      | inl same ↦ inr (inl (==-eq (lookup key old) (some v) same))
      | inr differ ↦ inr (inr (==-ne (lookup key old) (some s) (ground arith)))
    ]
  ]

  peer_kept :
      (old new : HashMap MatrixId ℕ) (key : MatrixId)
      → users_denied sender_id s old new ≡ false
      → PeerKept key (lookup key old) (lookup key new)
  peer_kept old new key h = elim (Option-cases (lookup key new)) [
    | inl gone ↦ rw gone tt
    | inr (v, is) ↦ rw is (peer_of_allowed old key v (users_allowed old new key v h is).1)
  ]

  -- Every change of power levels that the rules allow is without escalation, for whatever levels
  -- were in force and are asked for.
  pub levels_denied-NoEscalation :
      (old new : PowerLevels) → levels_denied sender_id s old new ≡ false → NoEscalation old new
  unfolding levels_denied
  levels_denied-NoEscalation old new h = record {
    for_ban = Limited-of_allowed _ _ s (ground arith);
    for_invite = Limited-of_allowed _ _ s (ground arith);
    for_kick = Limited-of_allowed _ _ s (ground arith);
    for_redact = Limited-of_allowed _ _ s (ground arith);
    for_events = Limited-of_allowed _ _ s (ground arith);
    for_state = Limited-of_allowed _ _ s (ground arith);
    for_users = Limited-of_allowed _ _ s (ground arith);
    event_entries = λ key.
        entry_limited s old.events new.events key
          (λ v found. entries_allowed s old.events new.events key v (ground arith) found)
          (ground arith);
    user_entries = λ key.
        entry_limited s old.users new.users key
          (λ v found. (users_allowed old.users new.users key v (ground arith) found).0)
          (ground arith);
    peers = λ key. peer_kept old.users new.users key (ground arith);
  }

  -- After an allowed change a user who is listed has a level above the sender's only if the same
  -- entry was there before.
  pub get_user_level_above :
      (old new : PowerLevels) (user : MatrixId) (v : ℕ)
      → levels_denied sender_id s old new ≡ false
      → lookup user new.users ≡ some v
      → s < Levels.get_user_level new user
      → Levels.get_user_level old user ≡ Levels.get_user_level new user
  unfolding Levels.get_user_level
  get_user_level_above old new user v h listed above =
      ground (arith, (levels_denied-NoEscalation old new h).user_entries user)
