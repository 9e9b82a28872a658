-- ===== src/Node/Routes/Effects.antt =====
-- core/internal/node/server.go: what stands behind a device that is added or revoked.
use easyprivacy.Platform.{Platform}
use easyprivacy.Vpn.Types.{Control}
use easyprivacy.Node.Devices.{Device, DeviceStore, add, revoke, is_active}
use easyprivacy.Node.Server.{PairingCode, Server, Request}
use easyprivacy.Node.Sessions.{authenticate_device, password_matches}
use easyprivacy.Node.Enrollment.{
  Ticket, enroll_begin, enroll_finish, enroll_judged, commit_locked, committed,
}
use easyprivacy.Node.DeviceAuth.{
  revoke_begin, revoke_finish, admin_revoke, revoke_locked, revocation_reply, revoke_marked,
  remove_from, forget_device, forget_code,
}
use easyprivacy.Node.Pairing.{clear_pairings}
use easyprivacy.Node.VpnApi.Access.{OfDevice, device-OfDevice}
use easyprivacy.Node.Routes.{Decoders, Draws}
use easyprivacy.Base.{
  subst, Bool-cases, Error, arith, Option-cases, ap, Option, none, inr, Bool, Outcome, Text, some,
  false, true, inl, ◌⊎◌, ◌∙◌, refl, ◌≡◌, failed, done,
}

module _ {V : Type 0} (g : Platform) (control : Control V) (d : Decoders) where
  -- Behind a device that is added, of the server s at the first section, t before the second and u behind it.
  pub record Enrolled (x : Draws) (r : Request) (s t u : Server V) : Type 0 where
    pub ticket : Ticket
    pub reserved : (enroll_begin g d.enrollment x.now x.later r s).1 ≡ inl ticket
    pub password : password_matches g t.state ticket.input.credentials ≡ some true
    pub added :
        u.devices ≡ (add g x.fault x.last ticket.pending.name ticket.pending.public_key t.devices).0

  -- Behind a device that is revoked.
  pub record Revoked (x : Draws) (id : Text) (r : Request) (s t u : Server V) : Type 0 where
    pub device : Text
    pub of_device : OfDevice g x.now r s device
    pub authorized : is_active device t.devices ≡ true
    pub marked : u.devices ≡ (revoke x.fault id t.devices).0

  committed-devices :
      (s : Server V) (o : DeviceStore × Outcome Device) → (committed g s o).0.devices ≡ o.0
  unfolding clear_pairings
  committed-devices s (store, failed e) = refl
  committed-devices s (store, done v) = refl

  enroll_judged-devices :
      (x : Draws) (k : Ticket) (o : Option Bool) (t : Server V)
      → let u = (enroll_judged g x.fault x.last k o t).0 in
        (u.devices ≡ t.devices)
        ⊎ ((o ≡ some true)
            × (u.devices ≡ (add g x.fault x.last k.pending.name k.pending.public_key t.devices).0))
  unfolding commit_locked
  enroll_judged-devices x k none t = inl refl
  enroll_judged-devices x k (some false) t = inl refl
  enroll_judged-devices x k (some true) t = ground (
    arith,
    committed-devices t (add g x.fault x.last k.pending.name k.pending.public_key t.devices),
  )

  pub enroll_finish-Enrolled :
      (x : Draws) (r : Request) (s t : Server V) (k : Ticket)
      → (enroll_begin g d.enrollment x.now x.later r s).1 ≡ inl k
      → let u = (enroll_finish g x.fault x.last k t).0 in
        (u.devices ≡ t.devices) ⊎ Enrolled x r s t u
  unfolding enroll_finish
  enroll_finish-Enrolled x r s t k p =
      elim (enroll_judged-devices x k (password_matches g t.state k.input.credentials) t) [
        | inl same_records ↦ inl same_records
        | inr (ok, changed) ↦
            inr (record { ticket = k; reserved = p; password = ok; added = changed })
      ]

  forget_code-devices :
      (id : Text) (c : Option PairingCode) (s : Server V)
      → (forget_code g id c s).devices ≡ s.devices
  unfolding clear_pairings
  forget_code-devices id none s = refl
  forget_code-devices id (some c) s = ground arith

  remove_from-devices :
      (id : Text) (v : Option V) (s : Server V)
      → (remove_from g control id v s).0.devices ≡ s.devices
  remove_from-devices id none s = refl
  remove_from-devices id (some v) s = refl

  revoke_marked-devices :
      (id : Text) (o : DeviceStore × Option Error) (s : Server V)
      → (revoke_marked g control id o s).0.devices ≡ o.0
  unfolding forget_device
  revoke_marked-devices id (store, some e) s = refl
  revoke_marked-devices id (store, none) s =
      let t = record s { devices = store } in
      remove_from-devices id (forget_device g id t).vpn (forget_device g id t)
      ∙ forget_code-devices id s.code _

  revocation_reply-keeps :
      (id : Text) (t : Server V × Option Error) → (revocation_reply g id t).0 ≡ t.0
  revocation_reply-keeps id (t, none) = refl
  revocation_reply-keeps id (t, some e) = ground arith

  admin_revoke-devices :
      (fault : Option Error) (id : Text) (s : Server V)
      → (admin_revoke g control fault id s).0.devices ≡ (revoke fault id s.devices).0
  unfolding admin_revoke revoke_locked
  admin_revoke-devices fault id s =
      ap (λ t. t.devices) (revocation_reply-keeps id (revoke_locked g control fault id s))
      ∙ revoke_marked-devices id (revoke fault id s.devices) s

  begun-OfDevice :
      (x : Draws) (r : Request) (s : Server V) (device : Text)
      → (revoke_begin g x.now r s).1 ≡ inl device
      → OfDevice g x.now r s device
  unfolding revoke_begin
  begun-OfDevice x r s device b = elim (Option-cases (authenticate_device g x.now r s).1) [
    | inl n ↦ absurd (ground arith)
    | inr (v, p) ↦
        let same_device : v.device_id ≡ device = ground arith in
        subst (OfDevice g x.now r s) same_device (device-OfDevice g x.now r s v p)
  ]

  pub revoke_finish-Revoked :
      (x : Draws) (id : Text) (r : Request) (s t : Server V) (device : Text)
      → (revoke_begin g x.now r s).1 ≡ inl device
      → let u = (revoke_finish g control x.fault device id t).0 in
        (u.devices ≡ t.devices) ⊎ Revoked x id r s t u
  unfolding revoke_finish
  revoke_finish-Revoked x id r s t device b = elim (Bool-cases (is_active device t.devices)) [
    | inr f ↦ rw f (inl refl)
    | inl y ↦ rw y (
        inr (record {
          device = device;
          of_device = begun-OfDevice x r s device b;
          authorized = y;
          marked = admin_revoke-devices x.fault id t;
        }))
  ]
