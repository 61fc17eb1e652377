-- ===== src/ClientApi/Creation.antt =====
-- client_api/room.rs: what `create_room` does with its first event.
use kerux.Prelude.{String, ◌≡◌, ◌≢◌, refl, true, arith}
use kerux.Prelude.Equality.{◌==◌, string_eq, nat_eq}
use kerux.Prelude.Ints.{ℤ}
use kerux.Errors.{ok}
use kerux.Exec.{continue_never, continue_stopped}
use kerux.Storage.Mem.{Uuid}
use kerux.Util.AddEvent.{Server, add_event}
use kerux.Util.NewEvent.{NewEvent}
use kerux.ClientApi.{Context, authenticate, own_id}
use kerux.ClientApi.Room.{create_room, CreateRoomRequest, add, supported_only}
use kerux.Storage.Mem.Rooms.{is_create}
use kerux.Events.Room.{unwrap_or}

module _ {J : Type 0} (cx : Context J) (now : ℤ) where
  creating_stops :
      (room : String) (event : NewEvent J) (s : Server J) (id : String)
      → is_create event.event_content ≡ true
      → (add cx now room event s).0 ≢ ok id
  unfolding add_event
  creating_stops room event s id h = ground arith

  -- `create_room` never answers: its first event is a create event, which `add_event` refuses.
  pub create_room_stops :
      (token : Uuid) (room answer : String) (req : CreateRoomRequest J) (s : Server J)
      → (create_room cx now token room req s).0 ≢ ok answer
  unfolding create_room
  create_room_stops token room answer req s =
      continue_never (authenticate token s).0 _ (authenticate token s).1 answer λ username.
        continue_never (own_id cx username (authenticate token s).1).0 _ _ answer λ user_id.
          continue_never
            (supported_only cx now (unwrap_or req.room_version "4" == "4")
              (authenticate token s).1).0
            _ _ answer
            λ _.
              continue_stopped (add cx now room _ _).0 _ _ answer
                λ id. creating_stops room _ _ id refl
