-- ===== src/Node/Routes.antt =====
-- core/internal/node/server.go: NewServer, and Handler, which hands a request to the handler of its pattern. A
-- handler that looks at the server again after it let the mutex go is split there.
pub mod Records
pub mod Effects
pub mod Changes
use easyprivacy.Platform.{Platform, Decoder}
use easyprivacy.Vpn.Types.{Control}
use easyprivacy.Node.State.{State}
use easyprivacy.Node.Devices.{DeviceStore, open_device_store, absent, private_directory}
use easyprivacy.Node.Server.{Server, Request, Reply, reply, refuse, alive}
use easyprivacy.Node.Sessions.{Credentials, login_begin, login_finish, status, logout}
use easyprivacy.Node.Pairing.{StartInput, create_pairing_code, pairing_start}
use easyprivacy.Node.Enrollment.{
  FinishInput, EnrollInput, Ticket, pairing_finish, enroll_begin, enroll_finish,
}
use easyprivacy.Node.DeviceAuth.{
  LoginInput, device_challenge, device_login, devices_page, revoke_begin, revoke_finish,
}
use easyprivacy.Node.VpnApi.{
  PeerInput, ServiceInput, vpn_exits, peer_begin, peer_finish, service_begin, service_finish,
  vpn_disconnect, vpn_status_api,
}
use easyprivacy.Base.{
  some, Error, Option, Bool, ℕ, Text, [], none, false, inr, inl, ◌⊎◌, if◌then◌else◌,
}

-- NewServer, with the store that OpenDeviceStore gives for no directory.
unfoldable pub new_server : {V : Type 0} → State → Server V
new_server state = record {
  state = state;
  sessions = [];
  attempts = [];
  global = record { since = 0; count = 0 };
  busy_slots = 0;
  devices = record { persistent = false; devices = []; disk = none };
  code = none;
  last_code = 0;
  pairings = [];
  enrollments = [];
  next_ref = 1;
  challenges = [];
  native = record { states = []; next = 1 };
  vpn = none;
}

-- UseDeviceStore and UseVPN
abbrev pub use_device_store : {V : Type 0} → DeviceStore → Server V → Server V
use_device_store store s = record s { devices = store }

abbrev pub use_vpn : {V : Type 0} → V → Server V → Server V
use_vpn v s = record s { vpn = some v }

-- The patterns of the multiplexer, in their order.
pub data Route : Type 0 where
  health : Route
  login : Route
  core_status : Route
  sign_out : Route
  start_pairing : Route
  finish_pairing : Route
  enroll : Route
  new_code : Route
  device_challenges : Route
  device_logins : Route
  devices : Route
  revoke : (id : Text) → Route
  exits : Route
  peer : Route
  service : Route
  disconnect : Route
  vpn_status : Route

-- The decoders of the handlers' inputs.
pub record Decoders : Type 0 where
  pub credentials : Decoder Credentials
  pub start : Decoder StartInput
  pub finish : Decoder FinishInput
  pub enrollment : Decoder EnrollInput
  pub challenge : Decoder Text
  pub device_login : Decoder LoginInput
  pub peer : Decoder PeerInput
  pub service : Decoder ServiceInput

-- What a handler draws from the clock, from the random source, and of the disk.
pub record Draws : Type 0 where
  pub now : ℕ
  pub later : ℕ
  pub last : ℕ
  pub fresh : Text
  pub seed : Text
  pub raw : Option Text
  pub drawn : Option ℕ
  pub fault : Option Error

-- What a handler hands on from its first critical section to its second.
pub data Pending : Type 0 where
  checks_password : Credentials → Pending
  enrolls : Ticket → Pending
  revokes : (device id : Text) → Pending
  registers : (device : Text) → PeerInput → Pending
  registers_service : (device : Text) → ServiceInput → Pending

abbrev pub answered : {V : Type 0} → Server V × Reply → Server V × (Pending ⊎ Reply)
answered (s, a) = (s, inr a)

abbrev pub handed_on :
    {V : Type 0} {A : Type 0}
    → (A → Pending)
    → Server V × (A ⊎ Reply)
    → Server V × (Pending ⊎ Reply)
handed_on f (s, inl a) = (s, inl (f a))
handed_on f (s, inr r) = (s, inr r)

module _ {V : Type 0} (g : Platform) (control : Control V) (d : Decoders) where
  -- Up to the point at which a handler that looks at the server again lets its mutex go.
  unfoldable pub begin : Draws → Route → Request → Server V → Server V × (Pending ⊎ Reply)
  begin x health r s = (s, inr (reply alive))
  begin x login r s = handed_on checks_password (login_begin g d.credentials x.now r s)
  begin x core_status r s = answered (status g x.now x.later r s)
  begin x sign_out r s = answered (logout g x.now r s)
  begin x start_pairing r s = answered (pairing_start g d.start x.now x.later x.fresh x.seed r s)
  begin x finish_pairing r s = answered (pairing_finish g d.finish x.now r s)
  begin x enroll r s = handed_on enrolls (enroll_begin g d.enrollment x.now x.later r s)
  begin x new_code r s = answered (create_pairing_code g x.now x.later x.drawn x.fresh r s)
  begin x device_challenges r s =
      answered (device_challenge g d.challenge x.now x.later x.fresh r s)
  begin x device_logins r s =
      answered (device_login g d.device_login x.now x.later x.last x.fresh r s)
  begin x devices r s = answered (devices_page g x.now r s)
  begin x (revoke id) r s = handed_on (λ device. revokes device id) (revoke_begin g x.now r s)
  begin x exits r s = answered (vpn_exits control g x.now r s)
  begin x peer r s = handed_on (λ p. registers p.0 p.1) (peer_begin control g d.peer x.now r s)
  begin x service r s =
      handed_on (λ p. registers_service p.0 p.1) (service_begin control g d.service x.now r s)
  begin x disconnect r s = answered (vpn_disconnect control g x.now r s)
  begin x vpn_status r s = answered (vpn_status_api control g x.now r s)

  -- What is left, on the server as it is by then.
  unfoldable pub finish : Draws → Pending ⊎ Reply → Server V → Server V × Reply
  finish x (inr a) s = (s, a)
  finish x (inl (checks_password c)) s = login_finish g x.later x.last x.raw c s
  finish x (inl (enrolls k)) s = enroll_finish g x.fault x.last k s
  finish x (inl (revokes device id)) s = revoke_finish g control x.fault device id s
  finish x (inl (registers device i)) s = peer_finish control g device i s
  finish x (inl (registers_service device i)) s = service_finish control g device i s

  -- Handler, of a request that has a pattern; `tls` says that it came over TLS.
  unfoldable pub handle_begin :
      Draws → (tls : Bool) → Route → Request → Server V → Server V × (Pending ⊎ Reply)
  handle_begin x tls route r s =
      if tls
      then begin x route r s
      else (s, inr (refuse 400 "An encrypted connection is required."))

  -- The whole of it, where `meanwhile` is what other requests do between the two sections.
  unfoldable pub handle :
      Draws
      → (meanwhile : Server V → Server V) (tls : Bool) → Route
      → Request
      → Server V
      → Server V × Reply
  handle x meanwhile tls route r s =
      let (t, p) = handle_begin x tls route r s in finish x p (meanwhile t)
