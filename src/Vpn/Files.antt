-- ===== src/Vpn/Files.antt =====
-- core/internal/vpn/types.go: LoadConfig, ReadPrivate, SavePrivate and GenerateKey, over a disk of named files.
pub mod Atomic
use easyprivacy.Platform.{Platform, Decoder}
use easyprivacy.Vpn.Validate.{Config, validate}
use easyprivacy.Base.{
  insert, delete, ltb, Dict, not, Bool, Text, Option, Outcome, Error, ℕ, [], some, none, ◌||◌,
  if◌then◌else◌, ◌==◌, failed, done,
}

-- 0600
abbrev pub private_mode : ℕ
private_mode = 384

-- What os.Lstat says of a path, and what os.ReadFile gives then.
pub data Look : Type 0 where
  not_there : Look
  unseen : Error → Look
  seen : (is_regular : Bool) (mode size : ℕ) → Outcome Text → Look

-- The result of ReadPrivate; `nothing_there` is os.ErrNotExist.
pub data Loaded {ℓ} (A : Type ℓ) : Type ℓ where
  loaded : A → Loaded A
  nothing_there : Loaded A
  unusable : Error → Loaded A

module _ {ℓ} {A : Type ℓ} (d : Decoder A) (broken : Error) where
  abbrev decoded : Option (A × Text) → Loaded A
  decoded none = unusable broken
  decoded (some (a, rest)) = if d.at_end rest then loaded a else unusable "invalid VPN state"

  abbrev read : Outcome Text → Loaded A
  read (failed e) = unusable e
  read (done raw) = decoded (d.decode raw)

  -- ReadPrivate; `broken` is the error of a text that does not decode.
  unfoldable pub read_private : Look → Loaded A
  read_private not_there = nothing_there
  read_private (unseen e) = unusable e
  read_private (seen regular mode size content) =
      if not regular || not (mode == private_mode) || ltb 131072 size
      then unusable "VPN state must be a private regular file"
      else read content

abbrev pub validated {ℓ} : {A : Type ℓ} → (A → Outcome (Unit {0})) → Loaded A → Loaded A
validated check (loaded a) = elim (check a) [ done u ↦ loaded a | failed e ↦ unusable e ]
validated check nothing_there = nothing_there
validated check (unusable e) = unusable e

-- LoadConfig
unfoldable pub load_config : Platform → Decoder Config → (broken : Error) → Look → Loaded Config
load_config g d broken look = validated (validate g) (read_private d broken look)

-- What os.Lstat says of a directory that is to be private.
pub data DirectoryLook : Type 0 where
  private_there : DirectoryLook
  other_there : DirectoryLook
  none_there : DirectoryLook
  unseen_directory : Error → DirectoryLook

pub record File : Type 0 where
  pub mode : ℕ
  pub content : Text

-- What the calls of SavePrivate meet: the error of each, and what a write that fails leaves in the file.
pub record Faults : Type 0 where
  pub create_error : Option Error
  pub chmod_error : Option Error
  pub write_error : Option Error
  pub partial : Text
  pub sync_error : Option Error
  pub close_error : Option Error
  pub rename_error : Option Error
  pub open_error : Option Error
  pub sync_directory_error : Option Error
  pub remove_error : Option Error

abbrev pub first_error : Option Error → Option Error → Option Error
first_error none e = e
first_error (some e) f = some e

module _ (f : Faults) (temp path raw : Text) where
  -- The temporary file behind the writing, and the error so far.
  abbrev pub written : Option Error → Option Error → File × Option Error
  written (some e) w = (record { mode = private_mode; content = [] }, some e)
  written none none = (record { mode = private_mode; content = raw }, f.sync_error)
  written none (some e) = (record { mode = private_mode; content = f.partial }, some e)

  abbrev pub directory_error : Option Error
  directory_error = first_error f.open_error f.sync_directory_error

  -- The deferred os.Remove of the temporary name, whose error is ignored.
  abbrev pub removed : Dict File → Dict File
  removed disk = elim f.remove_error [ none ↦ delete temp disk | some e ↦ disk ]

  -- os.Rename, the deferred os.Remove of the temporary name, and the syncing of the directory.
  abbrev pub renamed : File → Option Error → Dict File → Dict File × Option Error
  renamed file (some e) disk = (removed disk, some e)
  renamed file none disk = (removed (insert path file (delete temp disk)), directory_error)

  abbrev pub closed : File → Option Error → Dict File → Dict File × Option Error
  closed file (some e) disk = (removed disk, some e)
  closed file none disk = renamed file f.rename_error disk

  abbrev pub created : Option Error → Dict File → Dict File × Option Error
  created (some e) disk = (disk, some e)
  created none disk =
      let (file, e) = written f.chmod_error f.write_error in
      closed file (first_error e f.close_error) (insert temp file disk)

  -- SavePrivate of a value whose JSON is `raw`; `temp` is the name that os.CreateTemp chose in the directory.
  unfoldable pub save_private : Dict File → Dict File × Option Error
  save_private disk = created f.create_error disk

-- GenerateKey, of the bytes of a fresh X25519 key.
abbrev pub generate_key : Platform → Outcome Text → Outcome Text
generate_key g (done key) = done (g.base64 key)
generate_key g (failed e) = failed e
