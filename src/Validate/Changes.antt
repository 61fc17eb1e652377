-- ===== src/Validate/Changes.antt =====
-- validate/auth.rs: the tests by which a change of power levels is refused.
use kerux.Prelude.{ℕ, Bool, false, ◌&&◌, ◌||◌, not, Option, none, some, [], ◌∷◌}
use kerux.Prelude.Tests.{ltb, eqb, is_some}
use kerux.Prelude.Equality.{Eq, ◌==◌, string_eq, pair_eq, option_eq, nat_eq}
use kerux.Prelude.Maps.{HashMap, lookup}
use kerux.Mxid.{MatrixId, mxid_eq}
use kerux.Events.Room.{PowerLevels}
use kerux.Events.Room.{membership_eq, join_rule_eq}
use kerux.Events.Levels

-- One of the seven tests on a single level: it changes, and it was or will be above the sender's.
unfoldable pub level_denied : ℕ → ℕ → ℕ → Bool
level_denied old new sender_level =
    not (eqb old new) && (ltb sender_level old || ltb sender_level new)

-- `old_value.map(|v| v > &sender_level) == Some(true)`
abbrev pub was_above : ℕ → Option ℕ → Bool
was_above sender_level none = false
was_above sender_level (some v) = ltb sender_level v

module _ {K : Type 0} ⦃e : Eq K⦄ where
  -- The loop over the new entries of `events`, and the part that the loop over `users` shares.
  unfoldable pub entry_denied : ℕ → HashMap K ℕ → K → ℕ → Bool
  entry_denied sender_level old key new_value =
      not (lookup key old == some new_value)
      && (ltb sender_level new_value || was_above sender_level (lookup key old))

  unfoldable pub entries_denied : ℕ → HashMap K ℕ → HashMap K ℕ → Bool
  unfolding entry_denied
  entries_denied sender_level old [] = false
  entries_denied sender_level old ((key, new_value) ∷ new) =
      entry_denied sender_level old key new_value || entries_denied sender_level old new

  -- The loop over the old entries: one that is removed, and was above the sender's level.
  unfoldable pub removals_denied : ℕ → HashMap K ℕ → HashMap K ℕ → Bool
  removals_denied sender_level [] new = false
  removals_denied sender_level ((key, old_value) ∷ old) new =
      not (is_some (lookup key new)) && ltb sender_level old_value
      || removals_denied sender_level old new

-- The loop over the new entries of `users`: also, nobody changes another of their own level.
abbrev pub peer_denied : MatrixId → ℕ → HashMap MatrixId ℕ → MatrixId → ℕ → Bool
peer_denied sender_id sender_level old key new_value =
    not (lookup key old == some new_value)
    && (not (key == sender_id) && lookup key old == some sender_level)

unfoldable pub users_denied : MatrixId → ℕ → HashMap MatrixId ℕ → HashMap MatrixId ℕ → Bool
unfolding entry_denied
users_denied sender_id sender_level old [] = false
users_denied sender_id sender_level old ((key, new_value) ∷ new) =
    entry_denied sender_level old key new_value
    || peer_denied sender_id sender_level old key new_value
    || users_denied sender_id sender_level old new

-- The tests on a change of power levels, in the order of the source.
unfoldable pub levels_denied : MatrixId → ℕ → PowerLevels → PowerLevels → Bool
levels_denied sender_id s old new =
    level_denied (Levels.ban old) (Levels.ban new) s
    || level_denied (Levels.invite old) (Levels.invite new) s
    || level_denied (Levels.kick old) (Levels.kick new) s
    || level_denied (Levels.redact old) (Levels.redact new) s
    || level_denied (Levels.events_default old) (Levels.events_default new) s
    || level_denied (Levels.state_default old) (Levels.state_default new) s
    || level_denied (Levels.users_default old) (Levels.users_default new) s
    || entries_denied s old.events new.events
    || removals_denied s old.events new.events
    || users_denied sender_id s old.users new.users
    || removals_denied s old.users new.users
