-- ===== src/Tests/Devices.antt =====
-- core/internal/node/devices.go: runs of the device records.
use easyprivacy.Hex.{digit, encode}
use easyprivacy.Base.{text_discrete, lookup, List, lit, some, none, true, [], ◌∷◌, refl, arith}
use easyprivacy.Tests.Fixtures.{repeat, phone, key_bytes, gone, identity, no_devices, platform}
use easyprivacy.Node.Devices.Invariant.{
  run-IsRevoked, revokes, run-StoreInv, adds, run, Action, IsRevoked, StoreInv,
}
use easyprivacy.Node.Devices.{device_id}
use easyprivacy.Node.Devices.Refinement.{run-Runs, outcomes, view, Runs}

no_devices-StoreInv : StoreInv platform no_devices
no_devices-StoreInv = record { is_map = tt; bounded = omega arith; identified = tt }

abbrev pub one_history : List Action
one_history = adds none 5 (lit "phone") key_bytes ∷ revokes none identity ∷ []

run-StoreInv_example : StoreInv platform (run platform no_devices one_history)
run-StoreInv_example = run-StoreInv platform one_history no_devices no_devices-StoreInv

abbrev again : List Action
again = adds none 6 (lit "phone") key_bytes ∷ revokes (some "disk full") identity ∷ []

run-IsRevoked_example : IsRevoked identity (run platform gone again)
unfolding lookup text_discrete device_id encode digit repeat
run-IsRevoked_example =
    run-IsRevoked platform identity again gone (record phone { revoked = true }, refl, refl)

run-Runs_example :
    Runs platform
      (view no_devices)
      (outcomes platform no_devices one_history)
      (view (run platform no_devices one_history))
run-Runs_example = run-Runs platform one_history no_devices
