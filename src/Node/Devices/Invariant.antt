-- ===== src/Node/Devices/Invariant.antt =====
-- core/internal/node/devices.go: histories of Add and Revoke, and what holds after each.
use easyprivacy.Base.{
  Outcome-cases, Error, failed, done, text_discrete, ◌∙◌, refl, All-insert, sym, size-insert, subst,
  All-lookup, insert-IsMap, Text, same, lookup, insert, All, IsMap, lookup-insert, length,
  Option-cases, ℕ, ◌≤◌, ◌<◌, ◌≡◌, inl, inr, true, false, Option, none, some, List, [], ◌∷◌, arith,
  delete-insert, insert-insert, lookup-Lacks,
}
use easyprivacy.Platform.{Platform}
use easyprivacy.Node.Devices.{
  list_locked, Device, DeviceStore, device_id, add, revoke, save_locked, new_device, max_devices,
  key_size,
}

-- A call of a method; the fault is what its write meets.
pub data Action : Type 0 where
  adds : Option Error → ℕ → Text → Text → Action
  revokes : Option Error → Text → Action

module _ (g : Platform) where
  unfoldable pub step : DeviceStore → Action → DeviceStore
  step s (adds fault now name key) = (add g fault now name key s).0
  step s (revokes fault id) = (revoke fault id s).0

  unfoldable pub run : DeviceStore → List Action → DeviceStore
  unfolding step
  run s [] = s
  run s (a ∷ rest) = run (step s a) rest

  -- A record stands under its own identity, which is the hash of its key.
  pub record IsIdentified (k : Text) (d : Device) : Type 0 where
    pub keyed : k ≡ d.id
    pub hashed : d.id ≡ device_id g d.public_key
    pub sized : length d.public_key ≡ key_size

  pub record StoreInv (s : DeviceStore) : Type 0 where
    pub is_map : IsMap s.devices
    pub bounded : length s.devices ≤ max_devices
    pub identified : All IsIdentified s.devices

  -- An Add that returns an error leaves the store as it was, the file included.
  pub add-failed :
      (fault : Option Error) (now : ℕ) (name key : Text) (s : DeviceStore) (e : Error)
      → (add g fault now name key s).1 ≡ failed e
      → (add g fault now name key s).0 ≡ s
  unfolding add save_locked
  add-failed fault now name key s e h = ground (
    arith,
    delete-insert (device_id g key) (new_device g name key now) s.devices,
    lookup-Lacks (device_id g key) s.devices,
  )

  -- What a successful Add has found and done.
  pub record Added (now : ℕ) (name key : Text) (s t : DeviceStore) : Type 0 where
    pub was_free : lookup (device_id g key) s.devices ≡ none
    pub had_room : length s.devices < max_devices
    pub key_sized : length key ≡ key_size
    pub inserted : t.devices ≡ insert (device_id g key) (new_device g name key now) s.devices
    pub saved :
        s.persistent ≡ true → t.disk ≡ some (record { schema = 1; entries = list_locked t.devices })

  -- After an Add without an error the key was not registered, there was room, the record is in the map
  -- under the hash of the key and, where the store has a file, in the file.
  pub add-done :
      (fault : Option Error) (now : ℕ) (name key : Text) (s : DeviceStore) (d : Device)
      → (add g fault now name key s).1 ≡ done d
      → Added now name key s (add g fault now name key s).0 × (d ≡ new_device g name key now)
  unfolding add save_locked
  add-done fault now name key s d h = ground arith

-- A Revoke that returns an error leaves the store as it was, the file included.
pub revoke-failed :
    (fault : Option Error) (id : Text) (s : DeviceStore) (e : Error)
    → (revoke fault id s).1 ≡ some e
    → (revoke fault id s).0 ≡ s
unfolding revoke save_locked
revoke-failed fault id s e h = elim (Option-cases (lookup id s.devices)) [
  | inl n ↦ ground arith
  | inr (d, p) ↦ ground (arith, insert-insert id d (record d { revoked = true }) s.devices)
]

pub record Revoked (id : Text) (d : Device) (s t : DeviceStore) : Type 0 where
  pub known : lookup id s.devices ≡ some d
  pub marked : lookup id t.devices ≡ some (record d { revoked = true })
  pub others : (j : Text) → same id j ≡ false → lookup j t.devices ≡ lookup j s.devices

-- After a Revoke without an error the device, which was known, is marked, and the records of all other
-- devices are as they were.
pub revoke-done :
    (fault : Option Error) (id : Text) (s : DeviceStore)
    → (revoke fault id s).1 ≡ none
    → (d : Device) × Revoked id d s (revoke fault id s).0
unfolding revoke save_locked
revoke-done fault id s h = elim (Option-cases (lookup id s.devices)) [
  | inl n ↦ absurd (ground arith)
  | inr (d, p) ↦ (
    d,
    record {
      known = p;
      marked = ground (arith, lookup-insert id id (record d { revoked = true }) s.devices);
      others = λ j n. ground (arith, lookup-insert id j (record d { revoked = true }) s.devices);
    },
  )
]

module _ (g : Platform) where
  pub add-StoreInv :
      (fault : Option Error) (now : ℕ) (name key : Text) (s : DeviceStore)
      → StoreInv g s
      → StoreInv g (add g fault now name key s).0
  add-StoreInv fault now name key s v = elim (Outcome-cases (add g fault now name key s).1) [
    | inl (d, p) ↦ inserted_device (add-done g fault now name key s d p).0
    | inr (e, p) ↦ subst (StoreInv g) (sym (add-failed g fault now name key s e p)) v
  ]
    where
      inserted_device : {t : DeviceStore} → Added g now name key s t → StoreInv g t
      inserted_device a = record {
        is_map = rw a.inserted (insert-IsMap _ _ s.devices v.is_map);
        bounded = rw a.inserted (
            ground (
              arith,
              size-insert (device_id g key) (new_device g name key now) s.devices,
              a.was_free,
              a.had_room,
            ));
        identified = rw a.inserted (
            All-insert (IsIdentified g) _ _ s.devices
              (record { keyed = refl; hashed = refl; sized = a.key_sized }) v.identified);
      }

  pub revoke-StoreInv :
      (fault : Option Error) (id : Text) (s : DeviceStore)
      → StoreInv g s
      → StoreInv g (revoke fault id s).0
  unfolding revoke save_locked
  revoke-StoreInv fault id s v = elim (Option-cases (lookup id s.devices)) [
    | inl n ↦ rw (n, revoke) v
    | inr (d, p) ↦ elim (Option-cases (revoke fault id s).1) [
      | inl ok ↦ record {
        is_map = ground (arith, insert-IsMap id (marked d) s.devices v.is_map, v.is_map);
        bounded = ground (arith, size-insert id (marked d) s.devices, v.bounded);
        identified = ground (
          arith,
          All-insert (IsIdentified g) id (marked d) s.devices (kept p) v.identified,
          v.identified,
        );
      }
      | inr (e, x) ↦ subst (StoreInv g) (sym (revoke-failed fault id s e x)) v
    ]
  ]
    where
      marked : Device → Device
      marked d = record d { revoked = true }

      kept : {d : Device} → lookup id s.devices ≡ some d → IsIdentified g id (marked d)
      kept p =
          let i = All-lookup (IsIdentified g) id s.devices v.identified p in
          record { keyed = i.keyed; hashed = i.hashed; sized = i.sized }

  -- From records that are a map of at most 128, each under the hash of its 32-byte key, every
  -- history of Add and Revoke leads to such records.
  pub run-StoreInv : (h : List Action) (s : DeviceStore) → StoreInv g s → StoreInv g (run g s h)
  unfolding run
  run-StoreInv [] s v = v
  run-StoreInv (adds fault now name key ∷ h) s v =
      run-StoreInv h _ (add-StoreInv fault now name key s v)
  run-StoreInv (revokes fault id ∷ h) s v = run-StoreInv h _ (revoke-StoreInv fault id s v)

-- A known record that is revoked.
abbrev pub IsRevoked : Text → DeviceStore → Type 0
IsRevoked id s = (d : Device) × (lookup id s.devices ≡ some d) × (d.revoked ≡ true)

module _ (g : Platform) where
  add-IsRevoked :
      (fault : Option Error) (now : ℕ) (name key id : Text) (s : DeviceStore)
      → IsRevoked id s
      → IsRevoked id (add g fault now name key s).0
  add-IsRevoked fault now name key id s (d, known, gone) =
      elim (Outcome-cases (add g fault now name key s).1) [
        | inl (n, p) ↦
            let a = (add-done g fault now name key s n p).0 in
            (
              d,
              rw a.inserted (
                  ground (
                    arith,
                    lookup-insert (device_id g key) id (new_device g name key now) s.devices,
                    a.was_free,
                  )),
              gone,
            )
        | inr (e, p) ↦
            subst (IsRevoked id) (sym (add-failed g fault now name key s e p)) (d, known, gone)
      ]

  revoke-IsRevoked :
      (fault : Option Error) (j id : Text) (s : DeviceStore)
      → IsRevoked id s
      → IsRevoked id (revoke fault j s).0
  revoke-IsRevoked fault j id s (d, known, gone) = elim (Option-cases (revoke fault j s).1) [
    | inl ok ↦
        let (e, r) = revoke-done fault j s ok in
        elim (text_discrete j id) [
          | yes p ↦ (record e { revoked = true }, rw (← p) r.marked, refl)
          | no n ↦ (d, r.others id (ground arith) ∙ known, gone)
        ]
    | inr (e, x) ↦ subst (IsRevoked id) (sym (revoke-failed fault j s e x)) (d, known, gone)
  ]

  -- A device that is known and revoked stays so in every history of Add and Revoke.
  pub run-IsRevoked :
      (id : Text) (h : List Action) (s : DeviceStore) → IsRevoked id s → IsRevoked id (run g s h)
  unfolding run
  run-IsRevoked id [] s v = v
  run-IsRevoked id (adds fault now name key ∷ h) s v =
      run-IsRevoked id h _ (add-IsRevoked fault now name key id s v)
  run-IsRevoked id (revokes fault j ∷ h) s v =
      run-IsRevoked id h _ (revoke-IsRevoked fault j id s v)
