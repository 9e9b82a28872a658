-- ===== src/Authorization.antt =====
-- core/cmd/easyprivacy-node/vpn.go: auth in runVPN, by which the exit reads the device records that
-- the core has written.
pub mod Records
use easyprivacy.Platform.{Platform}
use easyprivacy.Node.Devices.{
  DeviceStore, Device, DirectoryState, FileState, open_device_store, list_devices,
}
use easyprivacy.Base.{
  not, same, Bool, Text, Outcome, List, ◌∷◌, [], false, true, if◌then◌else◌, failed, done,
}

-- The loop over the records: a map to a Boolean is a function, as a missing key reads as false.
unfoldable pub active_in : List Device → (Text → Bool) → Text → Bool
active_in [] active = active
active_in (d ∷ ds) active = active_in ds (λ k. if same d.id k then not d.revoked else active k)

abbrev pub of_store : Outcome DeviceStore → Outcome (Text → Bool)
of_store (failed e) = failed e
of_store (done store) = done (active_in (list_devices store) (λ k. false))

-- auth
unfoldable pub authorization : Platform → DirectoryState → FileState → Outcome (Text → Bool)
authorization g directory file = of_store (open_device_store g true directory file)
