-- ===== src/Node/Server.antt =====
-- core/internal/node/server.go: the state of the core's server, its replies, and the limit on
-- attempts. Times are in nanoseconds, 0 is Go's zero time.
pub mod Limits
use easyprivacy.Vpn.Types.{Profile, ServiceProfile, Exit, Status}
use easyprivacy.Platform.{Platform, Decoder}
use easyprivacy.Node.State.{State}
use easyprivacy.Node.Devices.{Device, DeviceStore}
use easyprivacy.Base.{
  lit, same, Error, some, inl, true, insert, is_none, none, leb, false, length, lookup, not, ltb,
  retain, Bool, inr, Option, Dict, List, Text, ℕ, ◌||◌, ◌&&◌, ◌⊎◌, ◌-◌, ◌+◌, if◌then◌else◌,
}

abbrev pub second : ℕ
second = 1000000000

abbrev pub minute : ℕ
minute = 60000000000

-- SessionLifetime, PairingLifetime
abbrev pub session_lifetime : ℕ
session_lifetime = 3600000000000

abbrev pub pairing_lifetime : ℕ
pairing_lifetime = 300000000000

-- The empty device identity marks a session that was opened by password.
pub record Session : Type 0 where
  pub expires : ℕ
  pub device_id : Text

pub record Attempts : Type 0 where
  pub since : ℕ
  pub count : ℕ

-- pairingCode with the PairingCode in it
pub record PairingCode : Type 0 where
  pub code : Text
  pub expires_at : ℕ
  pub attempts : ℕ
  pub generation : Text
  pub creator : Text

-- pake.Exchange: handle 0 is a closed exchange.
pub record Exchange : Type 0 where
  pub handle : ℕ
  pub message : Text

pub record PairingExchange : Type 0 where
  pub pake : Exchange
  pub context : Text
  pub public_key : Text
  pub name : Text
  pub generation : Text
  pub expires_at : ℕ

-- The map holds pointers to these: `ref` is the identity of the object that is pointed to.
pub record Enrollment : Type 0 where
  pub ref : ℕ
  pub public_key : Text
  pub name : Text
  pub generation : Text
  pub expires_at : ℕ
  pub proof_hash : Text
  pub attempts : ℕ

pub record Challenge : Type 0 where
  pub device_id : Text
  pub expires : ℕ

-- One SPAKE2 state of the native library: what it was started with.
pub record PakeState : Type 0 where
  pub role : ℕ
  pub code : Text
  pub context : Text
  pub seed : Text

-- The table of the native library, and the next handle.
pub record Native : Type 0 where
  pub states : List (ℕ × PakeState)
  pub next : ℕ

pub record Server (V : Type 0) : Type 0 where
  pub state : State
  pub sessions : Dict Session
  pub attempts : Dict Attempts
  pub global : Attempts
  pub busy_slots : ℕ  -- how full passwordSlots is; it holds two
  pub devices : DeviceStore
  pub code : Option PairingCode
  pub last_code : ℕ
  pub pairings : Dict PairingExchange
  pub enrollments : Dict Enrollment
  pub next_ref : ℕ  -- above every `ref` that was handed out
  pub challenges : Dict Challenge
  pub native : Native
  pub vpn : Option V

-- The JSON that a handler writes with status 200.
pub data Body : Type 0 where
  alive : Body
  access : (token : Text) (expires : ℕ) → Body
  core_status : (name : Text) (server_time expires : ℕ) (device_id : Text) → Body
  signed_out : Body
  pairing_code : (code : Text) (expires : ℕ) → Body
  pairing_started : (exchange_id message fingerprint : Text) → Body
  pairing_proof : (device_id proof : Text) (expires : ℕ) → Body
  enrolled : (device_id : Text) → Body
  challenge : (challenge_id : Text) (expires : ℕ) → Body
  device_list : List Device → (current : Text) → Body
  revoked : Body
  revoked_with_warning : Error → Body
  exit_list : List Exit → Body
  vpn_profile : Profile → Body
  vpn_service : ServiceProfile → Body
  disconnected : Body
  vpn_status : Status → Body

-- writeJSON with status 200, and writeError
pub data Reply : Type 0 where
  reply : Body → Reply
  refuse : ℕ → Error → Reply

-- now.Before(t)
abbrev pub before : ℕ → ℕ → Bool
before now t = ltb now t

-- The host of a remote address, or the whole address.
abbrev host_of : Text → Option (Text × Text) → Text
host_of remote none = remote
host_of remote (some (host, port)) = host

abbrev entry_of : Option Attempts → ℕ → Attempts
entry_of none now = record { since = now; count = 0 }
entry_of (some a) now = a

module _ {V : Type 0} where
  -- The two purges of allowLogin, in its order.
  unfoldable pub purge_attempts : ℕ → Server V → Server V
  purge_attempts now s = record s {
    attempts = retain (λ k a. not (leb minute (now - a.since))) s.attempts;
    global =
        if leb minute (now - s.global.since) then record { since = now; count = 0 } else s.global;
  }

  abbrev pub over_limit : Option Attempts → Attempts → Server V → Bool
  over_limit found entry s =
      leb 60 s.global.count || (is_none found && leb 1024 (length s.attempts)) || leb 10 entry.count

  abbrev pub count_attempt : Text → ℕ → Server V → Server V × Bool
  count_attempt host now s =
      let found = lookup host s.attempts in
      let entry = entry_of found now in
      if over_limit found entry s then (s, false) else (
        record s {
          attempts = insert host (record entry { count = entry.count + 1 }) s.attempts;
          global = record s.global { count = s.global.count + 1 };
        },
        true,
      )

  -- allowLogin
  unfoldable pub allow_login : Platform → ℕ → Text → Server V → Server V × Bool
  allow_login g now remote s =
      count_attempt (host_of remote (g.split_host_port remote)) now (purge_attempts now s)

-- readRequest and the decoding of login: one JSON value of at most `limit` bytes with no unknown
-- field, and nothing behind it.
pub record Request : Type 0 where
  pub remote : Text
  pub authorization : Text
  pub content_type : Text
  pub body : Text

abbrev decoded_to {ℓ} : {A : Type ℓ} → Decoder A → Option (A × Text) → Option A
decoded_to d none = none
decoded_to d (some (a, rest)) = if d.at_end rest then some a else none

unfoldable pub decode_body {ℓ} : {A : Type ℓ} → Decoder A → ℕ → Text → Option A
decode_body d limit body = if ltb limit (length body) then none else decoded_to d (d.decode body)

abbrev pub is_json : Option Text → Bool
is_json none = false
is_json (some m) = same m (lit "application/json")

abbrev decoded_request {ℓ} : {A : Type ℓ} → Option A → (A ⊎ Reply)
decoded_request none = inr (refuse 400 "Invalid request.")
decoded_request (some a) = inl a

-- readRequest: the decoded request, or the reply that was written.
unfoldable pub read_request {ℓ} : {A : Type ℓ} → Platform → Decoder A → Request → A ⊎ Reply
unfolding decode_body
read_request g d r =
    if is_json (g.media_type r.content_type)
    then decoded_request (decode_body d 4096 r.body)
    else inr (refuse 415 "Send a JSON request.")
