-- ===== src/ClientApi/Profile/Tests.antt =====
-- client_api/user.rs and client_api/ephemeral.rs: runs of the handlers.
use kerux.Prelude.{◌≡◌, refl, true, false, none, [], ◌∷◌}
use kerux.Errors.{ok, err, forbidden, not_found}
use kerux.Mxid.{localpart, new}
use kerux.Mxid.Text.{trim_start}
use kerux.Storage.Mem.Accounts
use kerux.Storage.Mem.Ephemeral.{set_typing, change_room}
use kerux.ClientApi.Profile.{get_avatar_url, set_avatar_url, get_display_name, set_display_name}
use kerux.ClientApi.Profile.{get_profile, typing, search_user_directory}
use kerux.Fixtures.{runs, context, server, alice, bob, room_x}

profile_runs : Unit {0}
unfolding runs localpart trim_start Accounts.try_auth Accounts.get_profile Accounts.update_user
    Accounts.change_user Accounts.set_avatar_url Accounts.set_display_name set_typing change_room
    get_avatar_url set_avatar_url get_display_name set_display_name get_profile typing
    search_user_directory new
profile_runs = tt

avatars :
    ((get_avatar_url context alice server).0 ≡ err not_found)
    × ((get_avatar_url context alice (set_avatar_url context 7 alice "mxc://a" server).1).0
        ≡ ok "mxc://a")
    × ((set_avatar_url context 7 bob "mxc://a" server).0 ≡ err forbidden)
unfolding profile_runs
avatars = (refl, refl, refl)

display_names :
    ((get_display_name context alice (set_display_name context 7 alice "Alice" server).1).0
      ≡ ok "Alice")
    × ((get_profile context alice server).0 ≡ ok (record { avatar_url = none; displayname = none }))
unfolding profile_runs
display_names = (refl, refl)

typing_errors : (typing context 100 7 room_x bob true 30 server).0 ≡ err forbidden
unfolding profile_runs
typing_errors = refl

directory :
    ((search_user_directory context (λ e. "no") "bob" server).0
      ≡ ok (record { results = []; limited = false }))
    × ((search_user_directory context (λ e. "no") "alice" server).0
        ≡ ok (record {
          results =
              record { user_id = alice; profile = record { avatar_url = none; displayname = none } }
              ∷ [];
          limited = false;
        }))
unfolding profile_runs
directory = (refl, refl)
