-- ===== src/Node/VpnApi/Access.antt =====
-- core/internal/node/vpn.go: who gets a VPN profile.
use easyprivacy.Platform.{Platform, Decoder}
use easyprivacy.Vpn.Types.{Control, Profile}
use easyprivacy.Vpn.Config
use easyprivacy.Base.{
  subst, ap, some, ◌∙◌, refl, ◌≡◌, ℕ, Text, true, false, arith, Option-cases, Sum-cases, inl, inr,
  ◌⊎◌, is_empty,
}
use easyprivacy.Node.Server.{Request, Server, Session, read_request, reply, vpn_profile}
use easyprivacy.Node.Sessions.{authenticate, authenticate_device}
use easyprivacy.Node.Sessions.Access.{LetsIn, authenticate_sound}
use easyprivacy.Node.Devices.{is_active}
use easyprivacy.Node.VpnApi.{PeerInput, peer_begin, peer_finish, failed_key, vps, home}

module _ {V : Type 0} (g : Platform) where
  -- A session of the device lets the request in, where the server was at the time.
  abbrev pub OfDevice : (now : ℕ) → Request → Server V → (device : Text) → Type 0
  OfDevice now r s device =
      (v : Session) × LetsIn g now r s v × (v.device_id ≡ device) × (is_empty v.device_id ≡ false)

  pub device-OfDevice :
      (now : ℕ) (r : Request) (s : Server V) (v : Session)
      → (authenticate_device g now r s).1 ≡ some v
      → OfDevice now r s v.device_id
  unfolding authenticate_device
  device-OfDevice now r s v h = elim (Option-cases (authenticate g now r s).1) [
    | inl e ↦ absurd (ground arith)
    | inr (u, e) ↦
        let same_session : u ≡ v = ground arith in
        let of_device : is_empty v.device_id ≡ false = ground arith in
        (v, (authenticate_sound g now r s v (e ∙ ap (λ x. some x) same_session)).0, refl, of_device)
  ]

  module _ (control : Control V) where
    -- A profile is answered only where a session of the device lets the request in, at the first section, its input
    -- names a known exit and holds a key, and where the device is authorized at the second section, whatever
    -- other requests did in between.
    pub vpn_peer_sound :
        (d : Decoder PeerInput) (now : ℕ) (r : Request) (s t : Server V) (device : Text)
        (i : PeerInput) (p : Profile)
        → (peer_begin control g d now r s).1 ≡ inl (device, i)
        → (peer_finish control g device i t).1 ≡ reply (vpn_profile p)
        → OfDevice now r s device
          × ((i.exit_id ≡ vps) ⊎ (i.exit_id ≡ home))
          × (failed_key (Config.key g i.public_key) ≡ false)
          × (is_active device t.devices ≡ true)
    unfolding peer_begin peer_finish
    vpn_peer_sound d now r s t device i p b f =
        elim (Option-cases (authenticate_device g now r s).1) [
          | inl e ↦ absurd (ground arith)
          | inr (v, e) ↦ elim (Sum-cases (read_request g d r)) [
            | inr (a, q) ↦ absurd (ground arith)
            | inl (j, q) ↦
                let same_device : v.device_id ≡ device = ground arith in
                let same_input : j ≡ i = ground arith in
                (
                  subst (OfDevice now r s) same_device (device-OfDevice now r s v e),
                  ground arith,
                  ground arith,
                  ground arith,
                )
          ]
        ]
