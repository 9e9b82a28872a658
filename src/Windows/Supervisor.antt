-- ===== src/Windows/Supervisor.antt =====
-- native/windows-vpn/main_windows.go: the supervisor, which starts and stops the tunnel as a service of its own,
-- and what it answers on its pipe.
pub mod Ordered
use easyprivacy.Windows.Services.{
  Service, supervisor, tunnel, Opening, opened, missing, refused, Stopping, asked, not_active, kept,
  Starting, begun, already_running, not_begun, Event, Host, ServiceState, is_stopped, is_running,
  in_directory, connect_manager, open_service, create_service, query, stop_service, start_service,
  wait, write_private, remove_file,
}
use easyprivacy.Windows.{TunnelConfig, config_text}
use easyprivacy.Platform.{Platform, Decoder}
use easyprivacy.Vpn.Shell.{Run, ◌>>=◌, ◌>>◌, ret, of_outcome, reject_if}
use easyprivacy.Node.Server.{decode_body}
use easyprivacy.Net.{Prefix}
use easyprivacy.Base.{
  ◌-◌, ◌/◌, same, Outcome, leb, Bool, lit, not, Error, true, Option, Text, List, ℕ, ◌∷◌, [], some,
  none, false, suc, zero, if◌then◌else◌, failed, done,
}

module _ (s : Host) where
  -- The two loops: at most so many queries, and a wait behind each.
  unfoldable pub await_stop : ℕ → ServiceState → Run (List Event) ServiceState
  await_stop zero v = ret v
  await_stop (suc n) v =
      query s tunnel >>= λ u. if is_stopped u then ret u else (wait s >> await_stop n u)

  unfoldable pub await_start : ℕ → Run (List Event) (Unit {0})
  await_start zero = of_outcome (failed "WireGuard tunnel startup timed out")
  await_start (suc n) = query s tunnel >>= λ u.
      if is_running u
      then ret tt
      else if is_stopped u
      then of_outcome (failed "WireGuard tunnel failed to start")
      else (wait s >> await_start n)

  -- What follows the request to stop.
  abbrev pub halt : ServiceState → Stopping → Run (List Event) (Unit {0})
  halt v (kept e) = of_outcome (failed e)
  halt v asked = await_stop 80 v >>= λ u. reject_if (not (is_stopped u)) "VPN service did not stop"
  halt v not_active =
      await_stop 80 v >>= λ u. reject_if (not (is_stopped u)) "VPN service did not stop"

  abbrev pub halt_from : ServiceState → Run (List Event) (Unit {0})
  halt_from v = if is_stopped v then ret tt else (stop_service s tunnel >>= halt v)

  abbrev pub stop_opened : Opening → Run (List Event) (Unit {0})
  stop_opened missing = ret tt
  stop_opened (refused e) = of_outcome (failed e)
  stop_opened opened = query s tunnel >>= halt_from

  -- stopTunnel
  unfoldable pub stop_tunnel : Run (List Event) (Unit {0})
  stop_tunnel = do connect_manager s; open_service s tunnel >>= stop_opened

  -- OpenService of the tunnel, or CreateService where it fails in any way.
  abbrev pub or_create : (program file : Text) → Opening → Run (List Event) (Unit {0})
  or_create program file opened = ret tt
  or_create program file _ = create_service s tunnel program (lit "--tunnel" ∷ file ∷ [])

  abbrev pub started : Starting → Run (List Event) (Unit {0})
  started begun = await_start 100
  started already_running = of_outcome (failed "An instance of the service is already running.")
  started (not_begun e) = of_outcome (failed e)

-- The driver's view of the adapter: nothing where it cannot be opened, and of an adapter that is up, its first
-- peer, which its configuration may lack.
pub record AdapterPeer : Type 0 where
  pub received : ℕ
  pub sent : ℕ
  pub last_handshake : ℕ

pub data Adapter : Type 0 where
  absent : Adapter
  down : Adapter
  up : Option AdapterPeer → Adapter

-- state
pub record TunnelStatus : Type 0 where
  pub protocol : ℕ
  pub installed : Bool
  pub active : Bool
  pub handshake : ℕ
  pub received : ℕ
  pub sent : ℕ

-- The number of 100 ns from 1601 to 1970.
abbrev pub epoch : ℕ
epoch = 116444736000000000

abbrev pub idle_status : TunnelStatus
idle_status = record {
  protocol = 2;
  installed = true;
  active = false;
  handshake = 0;
  received = 0;
  sent = 0;
}

-- localStatus
unfoldable pub local_status : Adapter → TunnelStatus
local_status absent = idle_status
local_status down = idle_status
local_status (up none) = record idle_status { active = true }
local_status (up (some p)) = record idle_status {
  active = true;
  received = p.received;
  sent = p.sent;
  handshake = if leb epoch p.last_handshake then (p.last_handshake - epoch) / 10000000 else 0;
}

-- A call on the pipe.
pub data PipeCall : Type 0 where
  asks_status : PipeCall
  asks_connect : (body : Text) → PipeCall
  asks_disconnect : PipeCall

-- What respond writes: the status, or an error with status 400.
pub data Answer : Type 0 where
  reports : TunnelStatus → Answer
  rejects : Error → Answer

abbrev pub respond : Adapter → List Event × Outcome (Unit {0}) → List Event × Answer
respond a (h, done u) = (h, reports (local_status a))
respond a (h, failed e) = (h, rejects e)

-- The functions of a tunnel's text that are not the program's, and the directories of paths.
pub record Setting : Type 0 where
  pub host : Host
  pub platform : Platform
  pub decoder : Decoder TunnelConfig
  pub lookup_port : Text → Option Error
  pub private_v6 : Prefix → Bool
  pub directories : Outcome (Text × Text)

module _ (x : Setting) where
  -- The part of connect behind the file.
  abbrev pub launch : (program file : Text) → Run (List Event) (Unit {0})
  launch program file = do
    connect_manager x.host
    opening ← open_service x.host tunnel
    or_create x.host program file opening
    start_service x.host tunnel >>= started x.host

  -- supervisor.connect; `directory` is its field `data`.
  unfoldable pub connect : (directory : Text) → TunnelConfig → Run (List Event) (Unit {0})
  connect directory c = do
    text ← of_outcome (config_text x.platform x.lookup_port x.private_v6 c)
    stop_tunnel x.host
    let file = in_directory directory (lit "EasyPrivacy.conf")
    write_private x.host file text
    paths ← of_outcome x.directories
    launch (in_directory paths.0 (lit "easyprivacy-vpn.exe")) file

  abbrev pub connect_decoded :
      (directory : Text) → Adapter → Option TunnelConfig → List Event → List Event × Answer
  connect_decoded directory a none h = (h, rejects "invalid tunnel configuration")
  connect_decoded directory a (some c) h = respond a (connect directory c h)

  -- The file is removed where the tunnel was stopped; a removal that fails is no error.
  abbrev pub disconnect : (directory : Text) → Run (List Event) (Unit {0})
  disconnect directory = do
    stop_tunnel x.host
    remove_file x.host (in_directory directory (lit "EasyPrivacy.conf"))

  -- handler; `adapter` is what the driver says at the end of the call.
  unfoldable pub handle : (directory : Text) → Adapter → PipeCall → List Event → List Event × Answer
  handle directory a asks_status h = (h, reports (local_status a))
  handle directory a (asks_connect body) h =
      connect_decoded directory a (decode_body x.decoder 4096 body) h
  handle directory a asks_disconnect h = respond a (disconnect directory h)

-- What reaches the supervisor: a request of the service manager, the end of its server, or a call. A call
-- holds the mutex from its first event to its last.
pub data Incoming : Type 0 where
  interrogates : Incoming
  ends : Incoming
  other_command : Incoming
  server_ended : Incoming
  calls : Adapter → PipeCall → Incoming

-- The text of the SID that a text names is the text.
abbrev pub same_sid : Text → Option Text → Bool
same_sid sid none = false
same_sid sid (some u) = same u sid

module _ (x : Setting) where
  -- The loop of Execute, until it returns a code; nothing is served behind the end.
  unfoldable pub serve : (directory : Text) → List Incoming → List Event → List Event × Option ℕ
  serve directory [] h = (h, none)
  serve directory (interrogates ∷ is) h = serve directory is h
  serve directory (other_command ∷ is) h = serve directory is h
  serve directory (ends ∷ is) h = ((stop_tunnel x.host h).0, some 0)
  serve directory (server_ended ∷ is) h = (h, some 5)
  serve directory (calls a c ∷ is) h = serve directory is (handle x directory a c h).0

  abbrev pub with_owner :
      (canonical : Text → Option Text) (listens : Text → Bool) (directory : Text)
      → Option Text
      → List Incoming
      → List Event
      → List Event × Option ℕ
  with_owner canonical listens directory none is h = (h, some 2)
  with_owner canonical listens directory (some sid) is h =
      if not (same_sid sid (canonical sid))
      then (h, some 3)
      else if not (listens sid)
      then (h, some 4)
      else serve directory is h

  abbrev pub in_directories :
      (owner : Option Text) (canonical : Text → Option Text) (listens : Text → Bool)
      → Outcome (Text × Text)
      → List Incoming
      → List Event
      → List Event × Option ℕ
  in_directories owner canonical listens (failed e) is h = (h, some 1)
  in_directories owner canonical listens (done paths) is h =
      with_owner canonical listens paths.1 owner is h

  -- Execute; `owner` is the file owner.sid, `canonical` the text of the SID that it names, and `listens`
  -- whether the pipe can be made.
  unfoldable pub execute :
      (owner : Option Text) (canonical : Text → Option Text) (listens : Text → Bool)
      → List Incoming
      → List Event
      → List Event × Option ℕ
  execute owner canonical listens is h = in_directories owner canonical listens x.directories is h
