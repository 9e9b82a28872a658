-- ===== src/Tests/Files.antt =====
-- core/internal/vpn/types.go: a private file that is saved and read again.
use easyprivacy.Vpn.Files.{Faults, File, loaded, read_private, save_private, private_mode}
use easyprivacy.Vpn.Files.Atomic.{Atomic, save_private-Atomic, read_private-save_private, look_at}
use easyprivacy.Platform.{Decoder}
use easyprivacy.Base.{
  text_discrete, Dict, Text, lit, lookup, ◌∷◌, [], some, none, true, refl, ◌≡◌, arith,
}

abbrev no_faults : Faults
no_faults = record {
  create_error = none;
  chmod_error = none;
  write_error = none;
  partial = [];
  sync_error = none;
  close_error = none;
  rename_error = none;
  open_error = none;
  sync_directory_error = none;
  remove_error = none;
}

-- The disk is full after three bytes, and the file cannot be removed either.
abbrev full_disk : Faults
full_disk = record no_faults {
  write_error = some "disk full";
  remove_error = some "busy";
  partial = lit "{\"s";
}

abbrev path : Text
path = lit "config.json"

abbrev temp : Text
temp = lit ".easyprivacy-1"

abbrev raw : Text
raw = lit "{\"schema\":1}"

abbrev old : Dict File
old = (path, record { mode = private_mode; content = lit "{}" }) ∷ []

save_private-Atomic_example :
    Atomic full_disk temp path raw old
      (save_private full_disk temp path raw old).0
      (save_private full_disk temp path raw old).1
unfolding text_discrete lookup
save_private-Atomic_example = save_private-Atomic full_disk temp path raw old refl refl

abbrev text_decoder : Decoder Text
text_decoder = record { decode = λ t. some (t, []); at_end = λ t. true }

read_private-save_private_example :
    read_private text_decoder "broken"
      (look_at (lookup path (save_private no_faults temp path raw old).0))
    ≡ loaded raw
unfolding text_discrete lookup save_private
read_private-save_private_example =
    read_private-save_private text_decoder "broken" no_faults temp path raw old raw [] refl refl
      refl refl (omega arith) refl
