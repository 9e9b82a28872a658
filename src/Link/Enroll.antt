-- ===== src/Link/Enroll.antt =====
-- core/internal/link/client.go: Enroll, the pairing of a new node by the code and the password.
pub mod Guard
pub mod Agreement
pub mod Password
use easyprivacy.Platform.{Platform}
use easyprivacy.Hex
use easyprivacy.Node.Pake
use easyprivacy.Link.Request.{start_path, finish_path, request}
use easyprivacy.Link.Login.{◌>>=◌, ◌>>◌, of_outcome, stop_if, return}
use easyprivacy.Base.{
  ltb, same, not, every, List, length, Bool, Outcome, ℕ, lit, Text, ◌++◌, [], some, ◌||◌, ◌&&◌,
  ◌==◌, failed, done,
}
use easyprivacy.Link.{
  valid_pin, enroll_input, start_input, finish_input, authority, Result, Event, Identity, Web,
}
use easyprivacy.Node.Server.{Native, Exchange}
use easyprivacy.Node.Pake.{is_digit}

-- proof
unfoldable pub proof : Platform → (key role context id : Text) → Text
proof g key role context id =
    g.hmac key (lit "easyprivacy.pairing.v2." ++ role ++ lit "\n" ++ context ++ lit "\n" ++ id)

-- The context of the exchange, as Enroll makes it.
unfoldable pub enroll_context : Platform → (id address name key pin : Text) → Text
enroll_context g id address name key pin = g.sha256 (
    lit "easyprivacy.pairing.v2\n"
    ++ id
    ++ lit "\n"
    ++ address
    ++ lit "\n"
    ++ name
    ++ lit "\n"
    ++ g.base64 key
    ++ lit "\n"
    ++ pin)

-- The outputs of the first two calls.
pub record Begin : Type 0 where
  pub protocol : Text
  pub id : Text
  pub pin : Text
  pub message : Text

pub record Finish : Type 0 where
  pub id : Text
  pub proof : Text
  pub expires : ℕ

-- json.Unmarshal into the outputs of the three calls; the last is the field `device_id`.
pub record EnrollOutputs : Type 0 where
  pub begin : Text → Outcome Begin
  pub finish : Text → Outcome Finish
  pub device : Text → Outcome Text

abbrev pub protocol : Text
protocol = lit "easyprivacy.pairing.v2"

abbrev pub valid_code : Text → Bool
valid_code code = length code == 8 && every is_digit code

module _ (g : Platform) where
  -- pake.Start and Finish, and Close: the message of the exchange and its key, with the error that ends it.
  -- The handles are of the client's own copy of the native library, which holds no other state.
  abbrev key_of : Exchange → Native × Outcome Text → Outcome (Text × Text)
  key_of x (n, failed e) = failed e
  key_of x (n, done key) = done (x.message, key)

  abbrev of_started : Text → Native × Outcome Exchange → Outcome (Text × Text)
  of_started peer (n, failed e) = failed e
  of_started peer (n, done x) = key_of x (Pake.finish g x peer n)

  unfoldable pub pake_exchange : (code context seed peer : Text) → Outcome (Text × Text)
  pake_exchange code context seed peer =
      of_started peer (Pake.start g 0 code context seed (record { states = []; next = 1 }))

module _ (g : Platform) (w : Web) where
  -- The identity before the core has proved itself.
  unfoldable pub new_identity : (address username seed : Text) → Identity
  new_identity address username seed = record {
    address = address;
    username = username;
    fingerprint = [];
    device_seed = g.base64 seed;
    device_id = Hex.encode (g.sha256 (w.ed25519_public seed));
  }

  -- Enroll from the password on, over a connection that is checked against the pin.
  unfoldable pub send_password :
      EnrollOutputs
      → (last : ℕ) (context password : Text) → Identity
      → Begin
      → Text
      → List Event
      → List Event × Result Identity
  send_password d last context password i b key = do
    let pinned : Identity = record i { fingerprint = b.pin }
    id ← request g w d.device last pinned (lit "POST") (lit "/api/v1/pairing/enroll") [] (
        some
          (enroll_input b.id (proof g key (lit "enroll") context i.device_id) i.username password))
    stop_if (not (same id i.device_id)) "core returned another device identity"
    return pinned

  -- The check of the core's proof, and what follows it.
  unfoldable pub check_core :
      EnrollOutputs
      → (later last : ℕ) (context password : Text) → Identity
      → Begin
      → Text
      → Finish
      → List Event
      → List Event × Result Identity
  check_core d later last context password i b key f = do
    stop_if
        (not (same f.id i.device_id)
          || not (same f.proof (proof g key (lit "core") context i.device_id))
          || not (ltb later f.expires))
        "pairing code did not verify this core"
    send_password d last context password i b key

  -- Enroll from the agreed key on.
  unfoldable pub enroll_with_key :
      EnrollOutputs
      → (now later last : ℕ) (context password : Text) → Identity
      → Begin
      → Text × Text
      → List Event
      → List Event × Result Identity
  enroll_with_key d now later last context password i b keys = do
    f ←
        request g w d.finish now i (lit "POST") finish_path []
          (some (finish_input b.id keys.0 (proof g keys.1 (lit "app") context i.device_id)))
    check_core d later last context password i b keys.1 f

  -- Enroll from the answer to the first call on.
  unfoldable pub enroll_begun :
      EnrollOutputs
      → (now later last : ℕ) (code name password randomness key : Text) → Identity
      → Begin
      → List Event
      → List Event × Result Identity
  enroll_begun d now later last code name password randomness key i b = do
    stop_if (not (same b.protocol protocol) || not (Hex.valid_id b.id) || not (valid_pin b.pin))
        "invalid pairing response"
    let context = enroll_context g b.id i.address name key b.pin
    keys ← of_outcome (pake_exchange g code context randomness b.message)
    enroll_with_key d now later last context password i b keys

  -- Enroll with a new identity and the public half of its key.
  unfoldable pub enroll_identity :
      EnrollOutputs
      → (start now later last : ℕ) (code name password randomness key : Text) → Identity
      → List Event
      → List Event × Result Identity
  enroll_identity d start now later last code name password randomness key i = do
    b ←
        request g w d.begin start i (lit "POST") start_path []
          (some (start_input i.address name key))
    enroll_begun d now later last code name password randomness key i b

  -- Enroll; `drawn` is ed25519.GenerateKey, `randomness` what the native library draws, and the times are
  -- those of the handshakes, with `later` the one at which the core's proof is checked.
  unfoldable pub client_enroll :
      EnrollOutputs
      → Outcome Text
      → (start now later last : ℕ) (randomness address code name username password : Text)
      → List Event
      → List Event × Result Identity
  client_enroll d drawn start now later last randomness address code name username password = do
    a ← of_outcome (authority w address)
    stop_if (not (valid_code code)) "enter the eight-digit pairing code"
    seed ← of_outcome drawn
    enroll_identity d start now later last code name password randomness (w.ed25519_public seed)
        (new_identity a username seed)
