-- ===== src/Authorization/Records.antt =====
-- core/cmd/easyprivacy-node/vpn.go and core/internal/node/devices.go: what the exit reads is what the
-- core holds.
use easyprivacy.Platform.{Platform}
use easyprivacy.Node.Devices.{
  absent, inaccessible, not_private_file, cannot_open, undecodable, trailing, decoded, max_devices,
  DeviceFile, Device, DeviceStore, FileState, open_device_store, list_devices, load_records,
  is_active, valid_device_name, list_locked, private_directory,
}
use easyprivacy.Node.Devices.Invariant.{run, Action}
use easyprivacy.Node.Devices.Reopen.{
  Keyed, Distinct, find_id, find_id-list_locked, list_locked-Distinct,
}
use easyprivacy.Node.Devices.Reopen.Histories.{
  FileCodec, CodecLaws, Dated, at_path, empty_store, run-Reopened, Reopened,
}
use easyprivacy.Authorization.{active_in, authorization}
use easyprivacy.Vpn.Manager.{World, Manager}
use easyprivacy.Vpn.Types.{Peer}
use easyprivacy.Vpn.Peers.{PeersInv}
use easyprivacy.Vpn.Registration.{register_peer}
use easyprivacy.Vpn.Registration.Access.{register_peer_sound}
use easyprivacy.Base.{
  sym, Outcome, ◌∙◌, ap, failed, Outcome-cases, length, ltb, Bool-cases, AllOf, subst, ◌||◌, false,
  inr, inl, ◌==◌, All-insert, insert-IsMap, insert, same, arith, not, All, Dict, Bool, IsMap, List,
  Text, ◌∷◌, [], some, none, true, refl, ◌≡◌, if◌then◌else◌, done,
}

-- Where identities are distinct, the loop looks a record up.
active_in-find_id :
    (k : Text) (ds : List Device) (m : Text → Bool)
    → Distinct ds
    → active_in ds m k ≡ elim (find_id k ds) [ none ↦ m k | some d ↦ not d.revoked ]
unfolding active_in find_id
active_in-find_id k [] m h = refl
active_in-find_id k (d ∷ ds) m h =
    let rest = active_in-find_id k ds (λ j. if same d.id j then not d.revoked else m j) h.1 in
    let fresh = h.0 in ground arith

answer :
    {a b : Text → Bool} → ◌≡◌ {A = Outcome (Text → Bool)} (done a) (done b) → (k : Text) → a k ≡ b k
answer p k = ap (λ o. elim o as (λ x. Bool) [ done c ↦ c k | failed e ↦ false ]) p

module _ (g : Platform) where
  load_records-Keyed :
      (ds : List Device) (m t : Dict Device)
      → load_records g ds m ≡ done t
      → IsMap m
      → All Keyed m
      → IsMap t × All Keyed t
  unfolding load_records Keyed
  load_records-Keyed [] m t h p q = ground arith
  load_records-Keyed (d ∷ ds) m t h p q =
      load_records-Keyed ds (insert d.id d m) t (ground arith) (insert-IsMap d.id d m p)
        (All-insert Keyed d.id d m refl q)

  accepted-Keyed :
      (file : DeviceFile) (s : DeviceStore)
      → open_device_store g true private_directory (decoded file) ≡ done s
      → load_records g file.entries [] ≡ done s.devices
  unfolding open_device_store
  accepted-Keyed file s h =
      elim (Bool-cases (not (file.schema == 1) || ltb max_devices (length file.entries))) [
        | inl y ↦ absurd (ground (arith, y))
        | inr n ↦ elim (Outcome-cases (load_records g file.entries [])) [
          | inl (t, p) ↦ ground (arith, n, p)
          | inr (e, p) ↦ absurd (ground (arith, n, p))
        ]
      ]

  opened-Keyed :
      (file : FileState) (s : DeviceStore)
      → open_device_store g true private_directory file ≡ done s
      → IsMap s.devices × All Keyed s.devices
  unfolding open_device_store
  opened-Keyed absent s h =
      let none_there : [] ≡ s.devices = ground arith in
      subst (λ m. IsMap m × All Keyed m) none_there (tt, tt)
  opened-Keyed (inaccessible e) s h = absurd (ground arith)
  opened-Keyed not_private_file s h = absurd (ground arith)
  opened-Keyed (cannot_open e) s h = absurd (ground arith)
  opened-Keyed (undecodable e) s h = absurd (ground arith)
  opened-Keyed (trailing f) s h = absurd (ground arith)
  opened-Keyed (decoded f) s h =
      load_records-Keyed f.entries [] s.devices (accepted-Keyed f s h) tt tt

  -- The authorization that is read from a store's file is that of the store.
  authorization-is_active :
      (c : FileCodec) (s : DeviceStore)
      → Reopened g c s
      → (a : Text → Bool) × (authorization g private_directory (at_path c s.disk) ≡ done a)
        × ((k : Text) → a k ≡ is_active k s)
  unfolding authorization list_devices
  authorization-is_active c s r =
      let t = r.store in
      let (m, keyed) = opened-Keyed (at_path c s.disk) t r.opens in
      (
        active_in (list_locked t.devices) (λ k. false),
        rw r.opens refl,
        λ k.
            let looped =
              active_in-find_id k (list_locked t.devices) (λ j. false)
                (list_locked-Distinct t.devices m keyed) in
            let found = find_id-list_locked k t.devices m keyed in
            let agrees = r.agrees k in ground arith,
      )

  -- After a history of Add and Revoke from an empty store, write errors included, where trimming keeps a
  -- valid name valid, the clock is behind Go's zero time and before the year 10000, and encoding/json decodes what
  -- it encodes and keeps to a size for each record: where what the exit finds as its
  -- authorization is what auth reads in the core's file, and its peer map is well-formed, a peer is
  -- registered only for a device that the core's store holds as active.
  pub registered-is_active :
      {W : Type 0} (w : World W) (c : FileCodec)
      → CodecLaws g c
      → ((t : Text) → valid_device_name g t ≡ true → valid_device_name g (g.trim_space t) ≡ true)
      → (h : List Action) → AllOf Dated h
      → (request p : Peer) (s : Manager W) → PeersInv s.peers
      → (w.authorized s.world).1
        ≡ authorization g private_directory (at_path c (run g empty_store h).disk)
      → (register_peer w g request s).1 ≡ done p
      → is_active request.device_id (run g empty_store h) ≡ true
  registered-is_active w c laws trims h dated request p s i reads registered =
      let r = register_peer_sound w g request p s i registered in
      let (a, e, f) =
        authorization-is_active c (run g empty_store h) (run-Reopened g c laws trims h dated) in
      let named = f request.device_id in
      let found = r.authorized in
      let same_answer = answer (sym e ∙ sym reads ∙ r.read) request.device_id in
      sym named ∙ same_answer ∙ found
