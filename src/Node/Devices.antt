-- ===== src/Node/Devices.antt =====
-- core/internal/node/devices.go: the device records, `DeviceStore`, and their file. The mutex makes
-- each method one step. The steps of a write before its rename leave the old file, so a write has
-- one outcome: the error of the first step that fails, or none.
pub mod Invariant
pub mod Reopen
pub mod Refinement
use easyprivacy.Base.{
  Outcome, Error, failed, done, Text, same, is_empty, Dict, lookup, insert, delete, length, exists,
  ltb, leb, ◌==◌, if◌then◌else◌, ℕ, Bool, true, false, not, ◌&&◌, ◌||◌, Option, none, some, List,
  [], ◌∷◌, map, take,
}
use easyprivacy.Hex
use easyprivacy.Platform.{Platform, Decoder}

pub record Device : Type 0 where
  pub id : Text
  pub name : Text
  pub public_key : Text
  pub created_at : ℕ  -- nanoseconds; 0 is Go's zero time
  pub revoked : Bool

-- What devices.json holds.
pub record DeviceFile : Type 0 where
  pub schema : ℕ
  pub entries : List Device

pub record DeviceStore : Type 0 where
  pub persistent : Bool  -- path != ""
  pub devices : Dict Device
  pub disk : Option DeviceFile  -- what stands under path

abbrev pub key_size : ℕ
key_size = 32

abbrev pub max_devices : ℕ
max_devices = 128

abbrev pub max_name : ℕ
max_name = 80

-- What the file system says of a path, and of the record in it.
pub data DirectoryState : Type 0 where
  cannot_create : Error → DirectoryState
  not_private : DirectoryState
  private_directory : DirectoryState

pub data FileState : Type 0 where
  absent : FileState
  inaccessible : Error → FileState
  not_private_file : FileState
  cannot_open : Error → FileState
  undecodable : Error → FileState
  trailing : DeviceFile → FileState
  decoded : DeviceFile → FileState

-- What the two readings of the decoder make of the file, of which io.LimitReader gives the first 131073 bytes; `broken`
-- is the error of a text that does not decode.
abbrev pub read_limit : ℕ
read_limit = 131073

abbrev pub decoded_as :
    Decoder DeviceFile → (broken : Error) → Option (DeviceFile × Text) → FileState
decoded_as d broken none = undecodable broken
decoded_as d broken (some (f, rest)) = if d.at_end rest then decoded f else trailing f

unfoldable pub file_state : Decoder DeviceFile → (broken : Error) → (raw : Text) → FileState
file_state d broken raw = decoded_as d broken (d.decode (take read_limit raw))

module _ (g : Platform) where
  unfoldable pub valid_device_name : Text → Bool
  valid_device_name name =
      not (is_empty (g.trim_space name))
      && leb (length name) max_name
      && g.valid_utf8 name
      && not (g.has_control name)

  unfoldable pub device_id : Text → Text
  device_id key = Hex.encode (g.sha256 key)

  -- The loop of OpenDeviceStore over the records.
  unfoldable pub load_records : List Device → Dict Device → Outcome (Dict Device)
  unfolding valid_device_name device_id
  load_records [] m = done m
  load_records (d ∷ ds) m =
      let next = load_records ds (insert d.id d m) in
      if not (length d.public_key == key_size)
        || not (same d.id (device_id d.public_key))
        || not (valid_device_name d.name)
        || d.created_at == 0
      then failed "invalid device identity"
      else elim (lookup d.id m) [ some _ ↦ failed "duplicate device identity" | none ↦ next ]

  abbrev loaded : DeviceFile → Outcome (Dict Device) → Outcome DeviceStore
  loaded file (failed e) = failed e
  loaded file (done m) = done (record { persistent = true; devices = m; disk = some file })

  abbrev accept_file : DeviceFile → Outcome DeviceStore
  accept_file file =
      if not (file.schema == 1) || ltb max_devices (length file.entries)
      then failed "invalid device records"
      else loaded file (load_records file.entries [])

  abbrev open_file : FileState → Outcome DeviceStore
  open_file absent = done (record { persistent = true; devices = []; disk = none })
  open_file (inaccessible e) = failed e
  open_file not_private_file = failed "device records must be a regular file with mode 0600"
  open_file (cannot_open e) = failed e
  open_file (undecodable e) = failed e
  open_file (trailing f) = failed "invalid device records"
  open_file (decoded f) = accept_file f

  abbrev open_in : DirectoryState → FileState → Outcome DeviceStore
  open_in (cannot_create e) f = failed e
  open_in not_private f =
      failed "device directory must be a private regular directory with mode 0700"
  open_in private_directory f = open_file f

  -- OpenDeviceStore; `named` is directory != "".
  unfoldable pub open_device_store : Bool → DirectoryState → FileState → Outcome DeviceStore
  unfolding load_records
  open_device_store false d f = done (record { persistent = false; devices = []; disk = none })
  open_device_store true d f = open_in d f

-- sort.Slice by CreatedAt. Go leaves the order of equal times open; here they keep theirs.
unfoldable pub insert_by_age : Device → List Device → List Device
insert_by_age d [] = d ∷ []
insert_by_age d (e ∷ es) =
    let rest = insert_by_age d es in if ltb e.created_at d.created_at then e ∷ rest else d ∷ e ∷ es

unfoldable pub list_locked : Dict Device → List Device
unfolding insert_by_age
list_locked [] = []
list_locked ((k, d) ∷ m) = insert_by_age d (list_locked m)

unfoldable pub save_locked : Option Error → DeviceStore → DeviceStore × Option Error
unfolding list_locked
save_locked fault s = if not s.persistent then (s, none) else elim fault [
  | some e ↦ (s, some e)
  | none ↦ (record s { disk = some (record { schema = 1; entries = list_locked s.devices }) }, none)
]

-- Active
unfoldable pub find_active : Text → DeviceStore → Option Device
find_active id s = elim (lookup id s.devices) [
  | none ↦ none
  | some d ↦ if d.revoked then none else some d
]

abbrev pub is_active : Text → DeviceStore → Bool
is_active id s = elim (lookup id s.devices) [ none ↦ false | some d ↦ not d.revoked ]

-- Go evaluates the list of the store at each List.
unfoldable pub list_devices : DeviceStore → List Device
list_devices s = list_locked s.devices

module _ (g : Platform) where
  abbrev pub new_device : Text → Text → ℕ → Device
  new_device name key now = record {
    id = device_id g key;
    name = g.trim_space name;
    public_key = key;
    created_at = now;
    revoked = false;
  }

  -- The end of Add: the rollback of a failed save.
  abbrev saved_device :
      DeviceStore → Device → DeviceStore × Option Error → DeviceStore × Outcome Device
  saved_device s d (t, none) = (t, done d)
  saved_device s d (t, some e) = (record t { devices = delete d.id t.devices }, failed e)

  unfoldable pub add : Option Error → ℕ → Text → Text → DeviceStore → DeviceStore × Outcome Device
  unfolding device_id valid_device_name save_locked
  add fault now name key s =
      let d = new_device name key now in
      if not (valid_device_name g name) || not (length key == key_size)
      then (s, failed "invalid device")
      else elim (lookup d.id s.devices) [
        | some _ ↦ (s, failed "device key is already registered; generate a fresh device key")
        | none ↦
            if leb max_devices (length s.devices)
            then (s, failed "device record limit reached")
            else saved_device s d
                (save_locked fault (record s { devices = insert d.id d s.devices }))
      ]

-- The end of Revoke: the rollback of a failed save.
abbrev revoked_device : Text → Device → DeviceStore × Option Error → DeviceStore × Option Error
revoked_device id before (t, none) = (t, none)
revoked_device id before (t, some e) = (record t { devices = insert id before t.devices }, some e)

unfoldable pub revoke : Option Error → Text → DeviceStore → DeviceStore × Option Error
unfolding save_locked
revoke fault id s = elim (lookup id s.devices) [
  | none ↦ (s, some "device not found")
  | some d ↦
      if d.revoked
      then (s, none)
      else revoked_device id d (
          save_locked fault
            (record s { devices = insert id (record d { revoked = true }) s.devices }))
]
