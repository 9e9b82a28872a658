-- ===== src/Tests/Fixtures.antt =====
-- Concrete data for the runs: a platform whose functions are simple ones, a core and an exit.
use easyprivacy.Base.{
  done, ◌++◌, failed, Text, lit, same, some, none, true, false, [], ◌∷◌, ℕ, zero, suc,
  if◌then◌else◌,
}
use easyprivacy.Platform.{Platform}
use easyprivacy.Net.{v4}
use easyprivacy.Node.Devices.{new_device, Device, DeviceStore, device_id}
use easyprivacy.Node.Server.{Session, Request, Server}
use easyprivacy.Node.State.{State}
use easyprivacy.Node.Sessions.{Credentials}
use easyprivacy.Vpn.Types.{Control}

abbrev pub platform : Platform
platform = record {
  sha256 = λ x. x;
  hmac = λ k m. k;
  pbkdf2 = λ p s. some p;
  ed25519_verify = λ k m s. true;
  trim_space = λ x. x;
  valid_utf8 = λ x. true;
  has_control = λ x. false;
  media_type = λ x. some x;
  base64 = λ x. x;
  base64_decode = λ x. some x;
  x25519_public = λ x. x;
  parse_addr = λ t. if same t (lit "1.1.1.1") then some (v4 0x01010101) else none;
  parse_prefix = λ t.
      if same t (lit "10.87.0.0/24")
      then some (record { addr = v4 0x0a570000; bits = 24 })
      else none;
  split_host_port = λ t. some (lit "vpn.example", lit "51820");
  spake_message = λ r c x s. c;
  spake_finish = λ r c x s p. some c;
  pem_decode = λ t. some t;
  key_pair = λ c k. done (1, 1000);
}

unfoldable pub repeat : ℕ → ℕ → Text
repeat zero c = []
repeat (suc n) c = c ∷ repeat n c

-- A device key of 32 bytes, and its identity.
abbrev pub key_bytes : Text
key_bytes = 7 ∷ repeat 31 1

abbrev pub identity : Text
identity = device_id platform key_bytes

abbrev pub no_devices : DeviceStore
no_devices = record { persistent = true; devices = []; disk = none }

abbrev pub phone : Device
phone = new_device platform (lit "phone") key_bytes 5

abbrev pub one_device : DeviceStore
one_device = record { persistent = true; devices = (identity, phone) ∷ []; disk = none }

abbrev pub gone : DeviceStore
gone = record {
  persistent = true;
  devices = (identity, record phone { revoked = true }) ∷ [];
  disk = none;
}

abbrev pub core : State
core = record {
  schema_version = 1;
  name = lit "core";
  listen = lit ":7444";
  username = lit "owner";
  salt = [];
  password_hash = lit "secret";
  certificate_pem = lit "pin";
  private_key_pem = [];
}

abbrev pub server : Server (Unit {0})
server = record {
  state = core;
  sessions = [];
  attempts = [];
  global = record { since = 0; count = 0 };
  busy_slots = 0;
  devices = one_device;
  code = none;
  last_code = 0;
  pairings = [];
  enrollments = [];
  next_ref = 1;
  challenges = [];
  native = record { states = []; next = 1 };
  vpn = none;
}

abbrev pub request : Request
request = record {
  remote = lit "192.0.2.1:40000";
  authorization = [];
  content_type = lit "application/json";
  body = [];
}

abbrev pub first : Text
first = repeat 32 1

-- A session token of 64 digits, and a server that has a session for it.
abbrev pub token : Text
token = repeat 64 97

abbrev pub session : Session
session = record { expires = 100; device_id = [] }

abbrev pub signed_in : Server (Unit {0})
signed_in = record server { sessions = (token, session) ∷ [] }

abbrev pub with_token : Text → Request
with_token t = record request { authorization = lit "Bearer " ++ t }

abbrev pub owner : Credentials
owner = record { username = lit "owner"; password = lit "secret" }

-- An exit that answers every call with an error.
abbrev pub no_exit : Control (Unit {0})
no_exit = record {
  serves = false;
  info = λ v. (v, failed "down");
  register = λ i k v. (v, failed "down");
  remove = λ i v. (v, some "down");
  status = λ i v. (v, failed "down");
  exits = λ v. (v, failed "down");
  register_exit = λ i k e v. (v, failed "down");
  register_service = λ i k n a v. (v, failed "down");
}
