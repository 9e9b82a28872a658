-- ===== src/Windows/Services.antt =====
-- native/windows-vpn/main_windows.go: what the helper asks of Windows, as a list of events, the last first. What
-- Windows answers may depend on all that has happened.
use easyprivacy.Base.{
  lit, Outcome, Text, Bool, List, Option, Error, ◌++◌, ◌∷◌, some, none, false, true, if◌then◌else◌,
  failed, done,
}
use easyprivacy.Vpn.Shell.{Run}

-- svc.State
pub data ServiceState : Type 0 where
  stopped : ServiceState
  start_pending : ServiceState
  stop_pending : ServiceState
  running : ServiceState
  continue_pending : ServiceState
  pause_pending : ServiceState
  paused : ServiceState

-- The services EasyPrivacyVPN and WireGuardTunnel$EasyPrivacy.
pub data Service : Type 0 where
  supervisor : Service
  tunnel : Service

-- mgr.OpenService: `missing` is windows.ERROR_SERVICE_DOES_NOT_EXIST.
pub data Opening : Type 0 where
  opened : Opening
  missing : Opening
  refused : Error → Opening

-- Service.Control with svc.Stop: `not_active` is windows.ERROR_SERVICE_NOT_ACTIVE.
pub data Stopping : Type 0 where
  asked : Stopping
  not_active : Stopping
  kept : Error → Stopping

-- Service.Start: `already_running` is windows.ERROR_SERVICE_ALREADY_RUNNING.
pub data Starting : Type 0 where
  begun : Starting
  already_running : Starting
  not_begun : Error → Starting

pub data Event : Type 0 where
  connects : Option Error → Event
  opens : Service → Opening → Event
  creates : Service → (program : Text) → (arguments : List Text) → Option Error → Event
  queries : Service → Outcome ServiceState → Event
  stops : Service → Stopping → Event
  starts : Service → Starting → Event
  writes : (path content : Text) → Option Error → Event
  removes : (path : Text) → Option Error → Event
  waits : Event

-- What Windows answers; `is_unsafe` says that os.Lstat finds a link or anything but a regular file.
pub record Host : Type 0 where
  pub connect_error : List Event → Option Error
  pub opening : List Event → Service → Opening
  pub creation_error : List Event → Service → Text → List Text → Option Error
  pub state_of : List Event → Service → Outcome ServiceState
  pub stopping : List Event → Service → Stopping
  pub starting : List Event → Service → Starting
  pub is_unsafe : List Event → Text → Bool
  pub write_error : List Event → Text → Text → Option Error
  pub removal_error : List Event → Text → Option Error

abbrev pub is_stopped : ServiceState → Bool
is_stopped stopped = true
is_stopped _ = false

abbrev pub is_running : ServiceState → Bool
is_running running = true
is_running _ = false

-- filepath.Join of a directory and a name
abbrev pub in_directory : Text → Text → Text
in_directory d name = d ++ lit "\\" ++ name

abbrev pub succeeds : Option Error → Outcome (Unit {0})
succeeds none = done tt
succeeds (some e) = failed e

module _ (s : Host) where
  -- mgr.Connect
  unfoldable pub connect_manager : Run (List Event) (Unit {0})
  connect_manager h = (connects (s.connect_error h) ∷ h, succeeds (s.connect_error h))

  unfoldable pub open_service : Service → Run (List Event) Opening
  open_service v h = (opens v (s.opening h v) ∷ h, done (s.opening h v))

  unfoldable pub create_service :
      Service → (program : Text) (arguments : List Text) → Run (List Event) (Unit {0})
  create_service v p args h =
      let e = s.creation_error h v p args in (creates v p args e ∷ h, succeeds e)

  unfoldable pub query : Service → Run (List Event) ServiceState
  query v h = (queries v (s.state_of h v) ∷ h, s.state_of h v)

  unfoldable pub stop_service : Service → Run (List Event) Stopping
  stop_service v h = (stops v (s.stopping h v) ∷ h, done (s.stopping h v))

  unfoldable pub start_service : Service → Run (List Event) Starting
  start_service v h = (starts v (s.starting h v) ∷ h, done (s.starting h v))

  unfoldable pub wait : Run (List Event) (Unit {0})
  wait h = (waits ∷ h, done tt)

  -- writePrivate
  unfoldable pub write_private : (path content : Text) → Run (List Event) (Unit {0})
  write_private path content h = if s.is_unsafe h path then (h, failed "unsafe VPN file") else (
    writes path content (s.write_error h path content) ∷ h,
    succeeds (s.write_error h path content),
  )

  -- os.Remove, whose error is ignored
  unfoldable pub remove_file : (path : Text) → Run (List Event) (Unit {0})
  remove_file path h = (removes path (s.removal_error h path) ∷ h, done tt)
