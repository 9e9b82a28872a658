-- ===== src/Tests/Authorization.antt =====
-- Witnesses for the authorization that the exit reads.
use easyprivacy.Authorization.{active_in, authorization}
use easyprivacy.Authorization.Records.{registered-is_active}
use easyprivacy.Node.Devices.Invariant.{Action, adds, run, step}
use easyprivacy.Tests.Codec.{
  field_of, field, after_field, record_text, records_text, read_record, read_records, read_file,
  codec, codec-CodecLaws,
}
use easyprivacy.Node.Devices.Reopen.Histories.{at_path, empty_store}
use easyprivacy.Node.Devices.{
  file_state, list_devices, open_device_store, save_locked, add, device_id, is_active,
  private_directory,
}
use easyprivacy.Vpn.Manager.{values, save_peers, disable_all, sweep, reconcile, World}
use easyprivacy.Tests.Vpn.{world, manager, wanted, peer}
use easyprivacy.Base.{
  take, ℕ_discrete, insert, delete, lookup, text_discrete, arith, lit, List, ◌∷◌, [], none, true,
  refl, ◌≡◌,
}
use easyprivacy.Tests.Fixtures.{repeat, key_bytes, identity, platform}
use easyprivacy.Vpn.Registration.{
  install_peer, free_host, retire_key, scan_peers, plan_peer, register_peer,
}
use easyprivacy.Hex.{lower, digit, value, encode, decode, valid_id}
use easyprivacy.Vpn.Config.{key}

abbrev paired : List Action
paired = adds none 5 (lit "phone") key_bytes ∷ []

-- An exit that reads the file of a core with one device.
abbrev reads_file : World (Unit {0})
reads_file = record world {
  authorized = λ x. (
    x,
    authorization platform private_directory (at_path codec (run platform empty_store paired).disk),
  );
}

registered-is_active_example : is_active identity (run platform empty_store paired) ≡ true
unfolding register_peer valid_id decode device_id encode value digit repeat text_discrete lower key
    reconcile sweep plan_peer lookup scan_peers retire_key delete insert disable_all save_peers
    values free_host install_peer ℕ_discrete authorization active_in run step add save_locked
    open_device_store list_devices at_path file_state read_file take read_records read_record
    records_text record_text after_field field field_of
registered-is_active_example =
    registered-is_active platform reads_file codec codec-CodecLaws (λ t h. h) paired
      (((λ e. absurd (omega arith)), omega arith), tt) wanted peer manager
      (record { is_map = tt; bounded = omega arith; placed = tt; apart = tt }) refl refl
