-- ===== src/Node/Devices/Reopen.antt =====
-- core/internal/node/devices.go: the records that a store has written are what OpenDeviceStore reads.
pub mod Histories
use easyprivacy.Base.{
  ℕ, ◌<◌, lookup-insert, insert, Lacks-lookup, true, ◌∙◌, done, All, IsMap, Dict, lookup, length,
  AllOf, arith, refl, ◌≡◌, suc, Text, List, Option, some, none, same, if◌then◌else◌, [], ◌∷◌,
}
use easyprivacy.Platform.{Platform}
use easyprivacy.Node.Devices.{
  Device, insert_by_age, list_locked, load_records, valid_device_name, device_id,
}

-- The first record with the identity.
unfoldable pub find_id : Text → List Device → Option Device
find_id k [] = none
find_id k (d ∷ ds) = if same d.id k then some d else find_id k ds

abbrev pub Distinct : List Device → Type 0
Distinct [] = Unit
Distinct (d ∷ ds) = (find_id d.id ds ≡ none) × Distinct ds

find_id-insert_by_age :
    (k : Text) (d : Device) (es : List Device)
    → find_id d.id es ≡ none
    → find_id k (insert_by_age d es) ≡ (if same d.id k then some d else find_id k es)
unfolding find_id insert_by_age
find_id-insert_by_age k d [] h = refl
find_id-insert_by_age k d (e ∷ es) h = ground (arith, find_id-insert_by_age k d es)

insert_by_age-Distinct :
    (d : Device) (es : List Device)
    → find_id d.id es ≡ none
    → Distinct es
    → Distinct (insert_by_age d es)
unfolding find_id insert_by_age
insert_by_age-Distinct d [] h p = (refl, tt)
insert_by_age-Distinct d (e ∷ es) h p =
    let found = find_id-insert_by_age e.id d es in
    let rest = insert_by_age-Distinct d es in ground arith

insert_by_age-AllOf {κ} :
    (P : Device → Type κ) (d : Device) (es : List Device)
    → P d
    → AllOf P es
    → AllOf P (insert_by_age d es)
unfolding insert_by_age
insert_by_age-AllOf P d [] h p = (h, tt)
insert_by_age-AllOf P d (e ∷ es) h p = ground (arith, insert_by_age-AllOf P d es h p.1)

length-insert_by_age :
    (d : Device) (es : List Device) → length (insert_by_age d es) ≡ suc (length es)
unfolding insert_by_age
length-insert_by_age d [] = refl
length-insert_by_age d (e ∷ es) = ground (arith, length-insert_by_age d es)

-- A record stands under its identity.
unfoldable pub Keyed : Text → Device → Type 0
Keyed k d = k ≡ d.id

pub find_id-list_locked :
    (k : Text) (m : Dict Device) → IsMap m → All Keyed m → find_id k (list_locked m) ≡ lookup k m
unfolding find_id list_locked lookup Keyed
find_id-list_locked k [] h p = refl
find_id-list_locked k ((j, d) ∷ m) h p =
    let same_key : j ≡ d.id = p.0 in
    let absent : find_id j (list_locked m) ≡ none =
      find_id-list_locked j m h.1 p.1 ∙ Lacks-lookup j m h.0 in
    let fresh : find_id d.id (list_locked m) ≡ none = rw (← same_key) absent in
    let step = find_id-insert_by_age k d (list_locked m) fresh in
    let below = find_id-list_locked k m h.1 p.1 in ground arith

pub list_locked-Distinct : (m : Dict Device) → IsMap m → All Keyed m → Distinct (list_locked m)
unfolding list_locked Keyed
list_locked-Distinct [] h p = tt
list_locked-Distinct ((j, d) ∷ m) h p =
    let same_key : j ≡ d.id = p.0 in
    let absent : find_id j (list_locked m) ≡ none =
      find_id-list_locked j m h.1 p.1 ∙ Lacks-lookup j m h.0 in
    let fresh : find_id d.id (list_locked m) ≡ none = rw (← same_key) absent in
    insert_by_age-Distinct d (list_locked m) fresh (list_locked-Distinct m h.1 p.1)

pub length-list_locked : (m : Dict Device) → length (list_locked m) ≡ length m
unfolding list_locked
length-list_locked [] = refl
length-list_locked ((j, d) ∷ m) =
    ground (arith, length-list_locked m, length-insert_by_age d (list_locked m))

pub list_locked-AllOf {κ} :
    (P : Device → Type κ) (m : Dict Device) → All (λ k d. P d) m → AllOf P (list_locked m)
unfolding list_locked
list_locked-AllOf P [] h = tt
list_locked-AllOf P ((j, d) ∷ m) h =
    insert_by_age-AllOf P d (list_locked m) h.0 (list_locked-AllOf P m h.1)

-- A record that is loaded leaves the identities of the records that follow free.
fresh_after :
    (d : Device) (ds : List Device) (m : Dict Device)
    → find_id d.id ds ≡ none
    → AllOf (λ e. lookup e.id m ≡ none) ds
    → AllOf (λ e. lookup e.id (insert d.id d m) ≡ none) ds
unfolding find_id
fresh_after d [] m h q = tt
fresh_after d (e ∷ es) m h q =
    (ground (arith, lookup-insert d.id e.id d m), fresh_after d es m (ground arith) q.1)

-- The year 10000 in nanoseconds from Go's zero time. encoding/json writes and reads earlier times only.
abbrev pub time_limit : ℕ
time_limit = 315537897600000000000

module _ (g : Platform) where
  -- What OpenDeviceStore asks of a record, and encoding/json of its time.
  pub record Readable (d : Device) : Type 0 where
    pub sized : length d.public_key ≡ 32
    pub hashed : d.id ≡ device_id g d.public_key
    pub named : valid_device_name g d.name ≡ true
    pub dated : ¬ (d.created_at ≡ 0)
    pub coded : d.created_at < time_limit

  -- Records under distinct identities, none of them in the map yet, are all loaded.
  pub load_records-Readable :
      (ds : List Device) (m : Dict Device)
      → AllOf Readable ds
      → Distinct ds
      → AllOf (λ d. lookup d.id m ≡ none) ds
      → (t : Dict Device) × (load_records g ds m ≡ done t)
        × ((k : Text) → lookup k t ≡ elim (find_id k ds) [ some d ↦ some d | none ↦ lookup k m ])
  unfolding load_records find_id
  load_records-Readable [] m h p q = (m, refl, λ k. refl)
  load_records-Readable (d ∷ ds) m h p q =
      let (t, e, f) =
        load_records-Readable ds (insert d.id d m) h.1 p.1 (fresh_after d ds m p.0 q.1) in
      let r = h.0 in (t, ground arith, λ k. ground (arith, f k, lookup-insert d.id k d m))
