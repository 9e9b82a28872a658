-- ===== src/Node/Devices/Reopen/Histories.antt =====
-- core/internal/node/devices.go: a store that is opened again after a history of Add and Revoke.
use easyprivacy.Platform.{Platform, Decoder}
use easyprivacy.Node.Devices.{
  private_directory, file_state, read_limit, open_device_store, load_records, new_device, decoded,
  absent, valid_device_name, list_locked, FileState, save_locked, DeviceFile, revoke, add,
  DeviceStore, Device,
}
use easyprivacy.Base.{
  ◌<◌, take_all, length, ◌≤◌, ◌+◌, ◌*◌, Dict, All-lookup, Option-cases, lookup, sym, subst,
  All-insert, AllOf, List, Outcome-cases, arith, ℕ, All, Text, Error, Option, ◌∷◌, [], some, none,
  true, inr, inl, ◌⊎◌, ◌∙◌, refl, ◌≡◌, done,
}
use easyprivacy.Node.Devices.Invariant.{
  IsIdentified, revoke-failed, revoke-StoreInv, add-failed, add-StoreInv, add-done, revokes, adds,
  StoreInv, run, step, Action,
}
use easyprivacy.Node.Devices.Reopen.{
  time_limit, length-list_locked, find_id-list_locked, list_locked-Distinct, list_locked-AllOf,
  load_records-Readable, Keyed, Readable,
}

-- encoding/json, for the file: json.Marshal, and the decoder with the error that it gives.
pub record FileCodec : Type 0 where
  pub encode : DeviceFile → Text
  pub decoder : Decoder DeviceFile
  pub broken : Error

-- What OpenDeviceStore finds at the path, where the text of a value was written, if any was.
unfoldable pub at_path : FileCodec → Option DeviceFile → FileState
at_path c none = absent
at_path c (some f) = file_state c.decoder c.broken (c.encode f)

-- A bound on the bytes of the records: 240 for the field names and marks, an identity of 64 digits, a key of 44
-- characters and a time, and six for each byte of the name, as json.Marshal may escape it.
unfoldable pub written_size : List Device → ℕ
written_size [] = 0
written_size (d ∷ ds) = 240 + 6 * length d.name + written_size ds

-- What saveLocked writes: the schema that OpenDeviceStore asks for, and records that it accepts.
abbrev pub Writable : Platform → DeviceFile → Type 0
Writable g f = (f.schema ≡ 1) × AllOf (Readable g) f.entries

-- What json.Marshal and the decoder do with such a value.
pub record CodecLaws (g : Platform) (c : FileCodec) : Type 0 where
  pub decodes : (f : DeviceFile) → Writable g f → c.decoder.decode (c.encode f) ≡ some (f, [])
  pub at_end : c.decoder.at_end [] ≡ true
  pub short : (f : DeviceFile) → Writable g f → length (c.encode f) ≤ 64 + written_size f.entries

-- Go's clock is behind the zero time and before the year 10000.
abbrev pub Dated : Action → Type 0
Dated (adds fault now name key) = (¬ (now ≡ 0)) × (now < time_limit)
Dated (revokes fault id) = Unit

abbrev stored_records : DeviceStore → Option DeviceFile
stored_records s = some (record { schema = 1; entries = list_locked s.devices })

-- What OpenDeviceStore makes of a directory without a file.
abbrev pub empty_store : DeviceStore
empty_store = record { persistent = true; devices = []; disk = none }

module _ (g : Platform) where
  -- The file holds the records of the map, and each of them can be read.
  pub record Stored (s : DeviceStore) : Type 0 where
    pub valid : StoreInv g s
    pub named : s.persistent ≡ true
    pub readable : All (λ k d. Readable g d) s.devices
    pub on_disk : (s.disk ≡ stored_records s) ⊎ ((s.disk ≡ none) × (s.devices ≡ []))

  add-Readable :
      (fault : Option Error) (now : ℕ) (name key : Text) (s : DeviceStore) (d : Device)
      → ((t : Text) → valid_device_name g t ≡ true → valid_device_name g (g.trim_space t) ≡ true)
      → ¬ (now ≡ 0)
      → now < time_limit
      → (add g fault now name key s).1 ≡ done d
      → Readable g (new_device g name key now)
  unfolding add
  add-Readable fault now name key s d trims dated early h = record {
    sized = ground arith;
    hashed = refl;
    named = trims name (ground arith);
    dated = dated;
    coded = early;
  }

  persistent-add :
      (fault : Option Error) (now : ℕ) (name key : Text) (s : DeviceStore)
      → (add g fault now name key s).0.persistent ≡ s.persistent
  unfolding add save_locked
  persistent-add fault now name key s = ground arith

  add-Stored :
      (fault : Option Error) (now : ℕ) (name key : Text) (s : DeviceStore)
      → ((t : Text) → valid_device_name g t ≡ true → valid_device_name g (g.trim_space t) ≡ true)
      → ¬ (now ≡ 0)
      → now < time_limit
      → Stored s
      → Stored (add g fault now name key s).0
  add-Stored fault now name key s trims dated early v =
      elim (Outcome-cases (add g fault now name key s).1) [
        | inl (d, p) ↦
            let a = (add-done g fault now name key s d p).0 in
            record {
              valid = add-StoreInv g fault now name key s v.valid;
              named = persistent-add fault now name key s ∙ v.named;
              readable = rw a.inserted (
                  All-insert (λ k e. Readable g e) _ _ s.devices
                    (add-Readable fault now name key s d trims dated early p) v.readable);
              on_disk = inl (a.saved v.named);
            }
        | inr (e, p) ↦ subst Stored (sym (add-failed g fault now name key s e p)) v
      ]

  revoke-saved :
      (fault : Option Error) (id : Text) (s : DeviceStore)
      → Stored s
      → (revoke fault id s).1 ≡ none
      → ((revoke fault id s).0.disk ≡ stored_records (revoke fault id s).0)
        × ((revoke fault id s).0.persistent ≡ true)
  unfolding revoke save_locked lookup
  revoke-saved fault id s v h = elim (Option-cases (lookup id s.devices)) [
    | inl n ↦ absurd (ground arith)
    | inr (d, p) ↦
        let named = v.named in
        elim v.on_disk [
          | inl stored ↦ ground arith
          | inr (missing, nothing) ↦
              absurd (holds_none (subst (λ m. lookup id m ≡ some d) nothing p))
        ]
  ]
    where
      holds_none : {d : Device} → lookup id [] ≡ some d → ⊥
      holds_none p = ground arith

  revoke-Readable :
      (fault : Option Error) (id : Text) (s : DeviceStore)
      → All (λ k d. Readable g d) s.devices
      → (revoke fault id s).1 ≡ none
      → All (λ k d. Readable g d) (revoke fault id s).0.devices
  unfolding revoke save_locked
  revoke-Readable fault id s v h = elim (Option-cases (lookup id s.devices)) [
    | inl n ↦ absurd (ground arith)
    | inr (d, p) ↦
        let r : Readable g d = All-lookup (λ k e. Readable g e) id s.devices v p in
        ground (
          arith,
          All-insert (λ k e. Readable g e) id (record d { revoked = true }) s.devices (marked r) v,
        )
  ]
    where
      marked : {d : Device} → Readable g d → Readable g (record d { revoked = true })
      marked r = record {
        sized = r.sized;
        hashed = r.hashed;
        named = r.named;
        dated = r.dated;
        coded = r.coded;
      }

  revoke-Stored :
      (fault : Option Error) (id : Text) (s : DeviceStore) → Stored s → Stored (revoke fault id s).0
  revoke-Stored fault id s v = elim (Option-cases (revoke fault id s).1) [
    | inl ok ↦
        let saved = revoke-saved fault id s v ok in
        record {
          valid = revoke-StoreInv g fault id s v.valid;
          named = saved.1;
          readable = revoke-Readable fault id s v.readable ok;
          on_disk = inl saved.0;
        }
    | inr (e, p) ↦ subst Stored (sym (revoke-failed fault id s e p)) v
  ]

  -- Each step
  step-Stored :
      ((t : Text) → valid_device_name g t ≡ true → valid_device_name g (g.trim_space t) ≡ true)
      → (s : DeviceStore) (a : Action) → Dated a
      → Stored s
      → Stored (step g s a)
  unfolding step
  step-Stored trims s (adds fault now name key) dated v =
      add-Stored fault now name key s trims dated.0 dated.1 v
  step-Stored trims s (revokes fault id) dated v = revoke-Stored fault id s v

  run-Stored :
      ((t : Text) → valid_device_name g t ≡ true → valid_device_name g (g.trim_space t) ≡ true)
      → (h : List Action) (s : DeviceStore) → AllOf Dated h
      → Stored s
      → Stored (run g s h)
  unfolding run
  run-Stored trims [] s dated v = v
  run-Stored trims (a ∷ h) s dated v =
      run-Stored trims h _ dated.1 (step-Stored trims s a dated.0 v)

  -- What is loaded from the records of a store, in the order in which they are listed.
  load-list_locked :
      (s : DeviceStore)
      → Stored s
      → (t : Dict Device) × (load_records g (list_locked s.devices) [] ≡ done t)
        × ((k : Text) → lookup k t ≡ lookup k s.devices)
  unfolding lookup Keyed
  load-list_locked s v =
      let keyed : All Keyed s.devices = All-map s.devices (v.valid.identified) in
      let m = v.valid.is_map in
      let (t, e, f) =
        load_records-Readable g (list_locked s.devices) []
          (list_locked-AllOf (Readable g) s.devices v.readable)
          (list_locked-Distinct s.devices m keyed) (each (list_locked s.devices)) in
      (t, e, λ k. ground (arith, f k, find_id-list_locked k s.devices m keyed))
    where
      each : (ds : List Device) → AllOf (λ d. lookup {V = Device} d.id [] ≡ none) ds
      each [] = tt
      each (d ∷ ds) = (refl, each ds)

      All-map : (m : Dict Device) → All (IsIdentified g) m → All Keyed m
      All-map [] h = tt
      All-map ((k, d) ∷ m) h = (h.0.keyed, All-map m h.1)

  short_names : (ds : List Device) → AllOf (Readable g) ds → written_size ds ≤ 720 * length ds
  unfolding written_size valid_device_name
  short_names [] h = omega arith
  short_names (d ∷ ds) h =
      let rest = short_names ds h.1 in
      let name : length d.name ≤ 80 = let v = h.0.named in ground arith in omega (arith, rest, name)

  pub record Reopened (c : FileCodec) (s : DeviceStore) : Type 0 where
    pub store : DeviceStore
    pub opens : open_device_store g true private_directory (at_path c s.disk) ≡ done store
    pub agrees : (k : Text) → lookup k store.devices ≡ lookup k s.devices

  -- The records of a store fit into what is read.
  read_back :
      (c : FileCodec) (s : DeviceStore)
      → CodecLaws g c
      → Stored s
      → at_path c (stored_records s)
        ≡ decoded (record { schema = 1; entries = list_locked s.devices })
  unfolding at_path file_state
  read_back c s l v =
      let f : DeviceFile = record { schema = 1; entries = list_locked s.devices } in
      let readable = list_locked-AllOf (Readable g) s.devices v.readable in
      let small : length (c.encode f) ≤ read_limit = omega (
        arith,
        l.short f (refl, readable),
        short_names f.entries readable,
        length-list_locked s.devices,
        v.valid.bounded,
      ) in
      rw (take_all read_limit (c.encode f) small, l.decodes f (refl, readable), l.at_end) refl

  reopen-Stored : (c : FileCodec) (s : DeviceStore) → CodecLaws g c → Stored s → Reopened c s
  unfolding open_device_store lookup
  reopen-Stored c s l v = elim v.on_disk [
    | inl stored ↦
        let (t, e, f) = load-list_locked s v in
        let size = length-list_locked s.devices in
        let room = v.valid.bounded in
        record {
          store = record { persistent = true; devices = t; disk = stored_records s };
          opens = rw (stored, read_back c s l v) (ground arith);
          agrees = f;
        }
    | inr (missing, nothing) ↦ record {
      store = empty_store;
      opens = unfold at_path in rw missing refl;
      agrees = λ k. rw nothing refl;
    }
  ]

  -- From an empty store with a file, where trimming keeps a valid name valid, the clock is behind Go's zero time and
  -- before the year 10000, and encoding/json decodes what it encodes and keeps to a size for each record: every
  -- history of Add and Revoke, write errors included, leaves a file that opens without an error, its first 131073
  -- bytes being all of it, as a store that has the same record or none under every identity.
  pub run-Reopened :
      (c : FileCodec)
      → CodecLaws g c
      → ((t : Text) → valid_device_name g t ≡ true → valid_device_name g (g.trim_space t) ≡ true)
      → (h : List Action) → AllOf Dated h
      → Reopened c (run g empty_store h)
  run-Reopened c laws trims h dated = reopen-Stored c _ laws (
      run-Stored trims h empty_store dated (record {
        valid = record { is_map = tt; bounded = omega arith; identified = tt };
        named = refl;
        readable = tt;
        on_disk = inr (refl, refl);
      }))
