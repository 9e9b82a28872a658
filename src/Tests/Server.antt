-- ===== src/Tests/Server.antt =====
-- core/internal/node/server.go and device_auth.go: runs of the sessions, the limits and the devices' sign-in.
use easyprivacy.Base.{
  retain, text_discrete, ℕ, lookup, List, ◌+◌, Text, lit, some, none, true, [], ◌∷◌, ◌≡◌, refl,
  arith, ◌⊎◌, ◌↔◌, ◌≤◌, inl, length, every,
}
use easyprivacy.Tests.Fixtures.{
  session, owner, signed_in, no_exit, identity, first, with_token, key_bytes, repeat, token,
  platform, server, request,
}
use easyprivacy.Hex
use easyprivacy.Hex.Digits.{lower_digit, valid_id_iff, decode-encode}
use easyprivacy.Node.Server.{access, session_lifetime, Server, reply}
use easyprivacy.Node.Server.Limits.{admitted-le, admitted, Limits}
use easyprivacy.Node.Sessions.Access.{login_finish-authenticate, authenticate_sound, LetsIn}
use easyprivacy.Node.Sessions.{password_matches, open_session, login_finish, authenticate}
use easyprivacy.Node.DeviceAuth.{login_locked, revoke_locked, LoginInput}
use easyprivacy.Node.DeviceAuth.Challenges.{login_locked_sound, Answered}
use easyprivacy.Node.Devices.{device_id, find_active, revoke}
use easyprivacy.Node.DeviceAuth.Revocation.{revoke_locked_cases, Forgotten}

valid_id_iff_example :
    (Hex.valid_id token ≡ true) ↔ ((length token ≡ 64) × (every lower_digit token ≡ true))
valid_id_iff_example = valid_id_iff token

decode-encode_example : Hex.decode (Hex.encode key_bytes) ≡ some key_bytes
unfolding repeat
decode-encode_example = decode-encode key_bytes refl

server-Limits : Limits server
server-Limits = record { of_hosts = tt; in_all = omega arith; hosts = omega arith }

abbrev three_calls : List (ℕ × Text)
three_calls = (7, request.remote) ∷ (8, request.remote) ∷ (9, lit "198.51.100.7:5") ∷ []

admitted-le_example : admitted platform three_calls server + server.global.count ≤ 60
admitted-le_example =
    admitted-le platform three_calls server (omega arith)
      (omega arith, (omega arith, (omega arith, tt)))

let_in : LetsIn platform 4 (with_token token) signed_in session
unfolding repeat lookup text_discrete
let_in = record {
  stored = refl;
  in_time = omega arith;
  authorized = inl refl;
  bearer = refl;
  sized = refl;
}

authenticate_sound_example :
    LetsIn platform 4 (with_token token) signed_in session
    × ((authenticate platform 4 (with_token token) signed_in).0 ≡ signed_in)
unfolding authenticate repeat lookup text_discrete
authenticate_sound_example = authenticate_sound platform 4 (with_token token) signed_in session refl

login_finish-authenticate_example :
    let (u, answer) = login_finish platform 1 2 (some first) owner server in
    (answer ≡ reply (access (Hex.encode first) (1 + session_lifetime)))
    × (authenticate platform 5 (with_token (Hex.encode first)) u
        ≡ (u, some (record { expires = 1 + session_lifetime; device_id = [] })))
unfolding password_matches text_discrete repeat retain
login_finish-authenticate_example =
    login_finish-authenticate platform 1 2 5 first owner (with_token (Hex.encode first)) server refl
      refl (omega arith) (omega arith) refl

abbrev asked : Server (Unit {0})
asked = record server { challenges = (lit "c", record { device_id = identity; expires = 50 }) ∷ [] }

abbrev answer : LoginInput
answer = record { id = identity; challenge_id = lit "c"; signature = repeat 64 9 }

login_locked_sound_example : Answered platform 4 answer asked
unfolding login_locked lookup text_discrete find_active device_id Hex.encode Hex.digit repeat
    open_session retain
login_locked_sound_example =
    login_locked_sound platform 4 5 token answer asked token (5 + session_lifetime) refl

revoke_locked_cases_example :
    let t = (revoke_locked platform no_exit none identity signed_in).0 in
    (((revoke none identity signed_in.devices).1 ≡ none) × Forgotten platform identity t)
    ⊎ (¬ ((revoke_locked platform no_exit none identity signed_in).1 ≡ none) × (t ≡ signed_in))
revoke_locked_cases_example = revoke_locked_cases platform no_exit none identity signed_in
