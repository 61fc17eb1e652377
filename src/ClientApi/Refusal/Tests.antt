-- ===== src/ClientApi/Refusal/Tests.antt =====
-- client_api/: a user's two tokens, after a logout everywhere by one of them.
use kerux.Prelude.{String, ◌≡◌, refl, true, [], ◌∷◌}
use kerux.Prelude.Equality.{nat_eq}
use kerux.Prelude.Ints.{pos}
use kerux.Errors.{ok, err, forbidden}
use kerux.Mxid.{localpart}
use kerux.Mxid.Text.{trim_start}
use kerux.Storage.Mem.Ephemeral.{Typing, set_typing, change_room}
use kerux.Storage.Mem.Accounts.{try_auth}
use kerux.Util.AddEvent.{Server}
use kerux.ClientApi.Profile.{typing}
use kerux.ClientApi.Session.{logout, logout_all}
use kerux.ClientApi.Refusal.{Call, types, serve, serve-logout}
use kerux.Fixtures.{runs, context, alice, server, room_x, db}

abbrev two_tokens : Server String
two_tokens = record server { db = record db { access_tokens = (7, "alice") ∷ (9, "alice") ∷ [] } }

abbrev typing_json : Typing → String
typing_json t = "typing"

abbrev call : Call String
call = types room_x alice true 30

serve-logout_example :
    (serve context typing_json (pos 1) 5 call 7 (logout context 7 two_tokens).1
      ≡ (err forbidden, (logout context 7 two_tokens).1))
    × (serve context typing_json (pos 1) 5 call 9 (logout_all context 7 two_tokens).1
        ≡ (err forbidden, (logout_all context 7 two_tokens).1))
unfolding runs
serve-logout_example =
    serve-logout context typing_json (pos 1) 5 call 7 9 two_tokens (refl, (refl, tt)) refl

-- Before the logout the second token is as good as the first.
served : (serve context typing_json (pos 1) 5 call 9 two_tokens).0 ≡ ok tt
unfolding runs serve typing try_auth set_typing change_room localpart trim_start
served = refl
