-- ===== src/Tests/Link.antt =====
-- core/internal/link/client.go: runs of a node that pairs and signs in.
use easyprivacy.Hex.{digit, encode}
use easyprivacy.Node.Devices.{device_id}
use easyprivacy.Tests.Fixtures.{
  phone, with_token, core, token, identity, first, server, key_bytes, platform, repeat,
}
use easyprivacy.Link.{authority, Event, challenge_input, Identity, Url, Certificate, Web}
use easyprivacy.Link.Request.Policy.{request-Allowed, Allowed}
use easyprivacy.Link.Enroll.Guard.{Same}
use easyprivacy.Node.Server.{
  Enrollment, session_lifetime, pairing_proof, access, second, Reply, challenge, pairing_started,
  Server, PairingCode, reply,
}
use easyprivacy.Base.{
  text_discrete, retain, lookup, arith, List, lit, Text, ◌∷◌, [], some, none, false, true, ◌⊎◌,
  refl, ◌≡◌, ◌*◌, ◌+◌, done,
}
use easyprivacy.Platform.{Platform}
use easyprivacy.Link.Enroll.{
  pake_exchange, proof, new_identity, client_enroll, enroll_context, protocol, EnrollOutputs,
}
use easyprivacy.Node.Pairing.{close_all, purge_pairings, creator_active, start_locked, StartInput}
use easyprivacy.Link.Enroll.Agreement.{pairing-accepted, CanStart}
use easyprivacy.Link.Request.{request, certificate_pin}
use easyprivacy.Node.State.{fingerprint}
use easyprivacy.Link.Enroll.Password.{client_enroll-Guarded, PasswordSent}
use easyprivacy.Node.Enrollment.{finish_locked}
use easyprivacy.Node.DeviceAuth.{challenge_locked}
use easyprivacy.Link.Login.Accepted.{login-accepted, login_fields, sign_in}
use easyprivacy.Link.Login.{signed_login}
use easyprivacy.Node.Sessions.{authenticate}

abbrev leaf : Certificate
leaf = record { raw = repeat 32 1; not_before = 1; not_after = 1000 }

abbrev url : Url
url = record {
  scheme = lit "https";
  host = lit "core:7444";
  hostname = lit "core";
  port = lit "7444";
  has_user = false;
  path = [];
  query = [];
  fragment = [];
}

abbrev pub web : Web
web = record {
  parse_url = λ t. some url;
  join_host_port = λ h p. h;
  resolves = λ t. true;
  url_error = λ t. none;
  ed25519_public = λ s. s;
  ed25519_sign = λ s m. repeat 64 3;
  error_field = λ t. [];
  presents = λ h a. some (leaf ∷ []);
  answers = λ h c. some (record { status = 200; body = some [] });
}

abbrev pin : Text
pin = certificate_pin platform leaf

abbrev pub node : Identity
node = record {
  address = lit "core:7444";
  username = lit "owner";
  fingerprint = pin;
  device_seed = key_bytes;
  device_id = identity;
}

request-Allowed_example :
    Allowed platform 5 pin
      (lit "POST")
      (lit "/api/v1/device/challenge")
      []
      (some (challenge_input identity))
      []
      (request platform web
        (λ t. done t)
        5
        node
        (lit "POST")
        (lit "/api/v1/device/challenge")
        []
        (some (challenge_input identity))
        []).0
request-Allowed_example =
    request-Allowed platform web (λ t. done t) 5 node (lit "POST") (lit "/api/v1/device/challenge")
      [] (some (challenge_input identity)) []

-- SPAKE2 messages and keys of the right sizes.
abbrev exchanging : Platform
exchanging = record platform {
  spake_message = λ r c x s. repeat 33 4;
  spake_finish = λ r c x s p. some (repeat 32 6);
}

abbrev outputs : EnrollOutputs
outputs = record {
  begin = λ t. done (record { protocol = protocol; id = token; pin = pin; message = repeat 33 4 });
  finish = λ t. done (record { id = identity; proof = repeat 32 6; expires = 500 });
  device = λ t. done identity;
}

abbrev after_enrollment : (password : Text) → List Event
after_enrollment password =
    (client_enroll exchanging web outputs (done key_bytes) 5 6 7 8 first (lit "core:7444")
      (lit "12345678") (lit "node") (lit "owner") password []).0

client_enroll-Guarded_example :
    Same after_enrollment
    ⊎ ((a : Text) × (seed : Text) × (authority web (lit "core:7444") ≡ done a)
        × (done key_bytes ≡ done seed)
        × PasswordSent exchanging web outputs 8
            (new_identity exchanging web a (lit "owner") seed)
            (lit "12345678")
            (lit "node")
            seed
            first
            after_enrollment)
client_enroll-Guarded_example =
    client_enroll-Guarded exchanging web outputs (done key_bytes) 5 6 7 8 first (lit "core:7444")
      (lit "12345678") (lit "node") (lit "owner") []

abbrev code : PairingCode
code = record {
  code = lit "12345678";
  expires_at = 500;
  attempts = 0;
  generation = lit "generation";
  creator = [];
}

abbrev start : StartInput
start = record { target = lit "core:7444"; name = lit "node"; public_key = key_bytes }

abbrev ready : Server (Unit {0})
ready = record server { code = some code }

ready-CanStart : CanStart exchanging 5 code ready
unfolding creator_active purge_pairings close_all retain
ready-CanStart = record {
  code = refl;
  in_time = omega arith;
  unused = omega arith;
  authorized = refl;
  eight = refl;
  digits = refl;
  states = [];
  last = 0;
  native = refl;
  room = omega arith;
}

abbrev begun : Server (Unit {0}) × Reply
begun = start_locked exchanging 5 first first start ready

abbrev context : Text
context =
    enroll_context exchanging first (lit "core:7444") (lit "node") key_bytes
      (fingerprint exchanging core)

abbrev finished : Server (Unit {0}) × Reply
finished =
    finish_locked exchanging 6
      (record {
        id = first;
        message = repeat 33 4;
        proof = proof exchanging (repeat 32 6) (lit "app") context identity;
      })
      begun.0

pairing-accepted_example :
    (begun.1 ≡ reply (pairing_started first (repeat 33 4) (fingerprint exchanging core)))
    × (pake_exchange exchanging (lit "12345678") context first (repeat 33 4)
        ≡ done (repeat 33 4, repeat 32 6))
    × (finished.1
        ≡ reply (
            pairing_proof identity
              (proof exchanging (repeat 32 6) (lit "core") context identity)
              500))
    × ((p : Enrollment) × (lookup first finished.0.enrollments ≡ some p)
        × (p.proof_hash
            ≡ exchanging.sha256 (proof exchanging (repeat 32 6) (lit "enroll") context identity)))
unfolding repeat proof device_id
pairing-accepted_example =
    pairing-accepted exchanging 5 6 first first first (repeat 32 6) start code ready ready-CanStart
      (omega arith) (omega arith) refl refl refl refl refl refl

abbrev at_core : Identity
at_core = record node { fingerprint = fingerprint platform core }

abbrev asked : Server (Unit {0}) × Reply
asked = challenge_locked platform 5 first identity server

abbrev let_in : Server (Unit {0}) × Reply
let_in =
    sign_in platform 6 7 token (login_fields (signed_login web key_bytes at_core first)) asked.0

login-accepted_example :
    (asked.1 ≡ reply (challenge first (5 + 30 * second)))
    × (let_in.1 ≡ reply (access token (7 + session_lifetime)))
    × (authenticate platform 8 (with_token token) let_in.0
        ≡ (let_in.0, some (record { expires = 7 + session_lifetime; device_id = identity })))
unfolding lookup text_discrete device_id encode digit repeat retain
login-accepted_example =
    login-accepted platform web 5 6 7 8 first token key_bytes at_core phone (with_token token)
      server refl refl refl (λ m. refl) (λ m. refl) (omega arith) (omega arith) (omega arith)
      (omega arith) refl refl
