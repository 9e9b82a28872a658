-- ===== src/Windows/Install.antt =====
-- native/windows-vpn/main_windows.go: install, which puts the helper into its place and starts its supervisor.
pub mod Order
use easyprivacy.Windows.Services.{
  Service, supervisor, Opening, opened, missing, refused, Starting, begun, already_running,
  not_begun, Event, waits, Host, ServiceState, is_stopped, in_directory, connect_manager,
  open_service, create_service, query, stop_service, start_service, write_private,
}
use easyprivacy.Windows.Approval.{Machine, approved}
use easyprivacy.Vpn.Shell.{Run, ◌>>=◌, ◌>>◌, ret, of_outcome, reject_if}
use easyprivacy.Base.{
  Bool, Text, Option, Outcome, Error, List, ℕ, lit, same, not, ◌∷◌, [], some, none, true, false,
  failed, done, zero, suc, if◌then◌else◌, fail_if,
}

abbrev pub program_of : (paths : Text × Text) → Text
program_of paths = in_directory paths.0 (lit "easyprivacy-vpn.exe")

abbrev pub driver_of : (paths : Text × Text) → Text
driver_of paths = in_directory paths.0 (lit "wireguard.dll")

abbrev pub owner_of : (paths : Text × Text) → Text
owner_of paths = in_directory paths.1 (lit "owner.sid")

module _ (m : Machine) where
  abbrev pub retry :
      Run (List Event) (Unit {0})
      → List Event × Outcome ServiceState
      → List Event × Outcome (Unit {0})
  retry rest (h, done v) = if is_stopped v then (h, done tt) else rest (waits ∷ h)
  retry rest (h, failed e) = rest (waits ∷ h)

  -- The loop over the old service, which goes on whatever comes of it.
  unfoldable pub await_old : ℕ → Run (List Event) (Unit {0})
  await_old zero h = (h, done tt)
  await_old (suc n) h = retry (await_old n) (query m.host supervisor h)

  abbrev pub stop_old : Opening → Run (List Event) (Unit {0})
  stop_old opened = stop_service m.host supervisor >>= λ answer. await_old 30
  stop_old _ = ret tt

  abbrev pub or_create : (program : Text) → Opening → Run (List Event) (Unit {0})
  or_create program opened = ret tt
  or_create program _ = create_service m.host supervisor program (lit "--service" ∷ [])

  abbrev pub begun_or_running : Starting → Run (List Event) (Unit {0})
  begun_or_running begun = ret tt
  begun_or_running already_running = ret tt
  begun_or_running (not_begun e) = of_outcome (failed e)

  abbrev pub write_files :
      (owner : Text) (paths : Text × Text) (raw : Text) → Run (List Event) (Unit {0})
  write_files owner paths raw = do
    write_private m.host (program_of paths) raw
    write_private m.host (driver_of paths) m.driver
    write_private m.host (owner_of paths) owner

  abbrev pub place : (owner : Text) (paths : Text × Text) (raw : Text) → Run (List Event) (Unit {0})
  place owner paths raw = do
    connect_manager m.host
    old ← open_service m.host supervisor
    stop_old old
    write_files owner paths raw
    opening ← open_service m.host supervisor
    or_create (program_of paths) opening
    start_service m.host supervisor >>= begun_or_running

  -- install
  unfoldable pub install : (owner : Text) → Run (List Event) (Unit {0})
  install owner = of_outcome (approved m owner) >>= λ a. place owner a.0 a.1
