-- ===== src/State/Tests.antt =====
-- state/mod.rs: reading a state after an event was put in, at a concrete state.
use kerux.Prelude.{String, ◌≡◌, refl, [], ◌∷◌, ◌++◌}
use kerux.Prelude.Equality.{string_eq}
use kerux.Errors.{ok}
use kerux.State.{State, insert_event}
use kerux.Fixtures.{runs, serde, hashing, room_state, name_pdu}

abbrev named : State
named = record room_state { map = room_state.map ++ ((("m.room.name", ""), "$n") ∷ []) }

abbrev kind : String
kind = "m.room.name"

abbrev key : String
key = ""

put : insert_event serde hashing name_pdu room_state ≡ ok named
unfolding runs insert_event
put = refl
