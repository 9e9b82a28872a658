-- ===== src/Node/VpnApi.antt =====
-- core/internal/node/vpn.go: the handlers of the exit, over the control interface.
pub mod Access
use easyprivacy.Platform.{Platform, Decoder}
use easyprivacy.Vpn.Config
use easyprivacy.Vpn.Types.{Control, Exit, Status}
use easyprivacy.Node.Server.{
  read_request, vpn_status, disconnected, vpn_service, vpn_profile, Request, exit_list, Server,
  Reply, refuse, reply,
}
use easyprivacy.Base.{
  same, Error, not, List, Bool, ℕ, Option, lit, Outcome, Text, ◌∷◌, [], some, none, ◌&&◌, false,
  true, inr, inl, ◌⊎◌, if◌then◌else◌, failed, done,
}
use easyprivacy.Node.Devices.{is_active}
use easyprivacy.Node.Sessions.{authenticate_device}

-- The inputs of vpnPeer and vpnService.
pub record PeerInput : Type 0 where
  pub exit_id : Text
  pub public_key : Text

pub record ServiceInput : Type 0 where
  pub public_key : Text
  pub name : Text
  pub management : Text

abbrev pub vps : Text
vps = lit "vps"

abbrev pub home : Text
home = lit "home"

abbrev not_paired : Reply
not_paired = refuse 403 "A paired device connection is required."

abbrev pub failed_key : Outcome Text → Bool
failed_key (done b) = false
failed_key (failed e) = true

module _ {V : Type 0} (control : Control V) (g : Platform) where
  abbrev at_vpn {ℓ} : {A : Type ℓ} → Server V → (A → Reply) → V × Outcome A → Server V × Reply
  at_vpn s f (v, done a) = (record s { vpn = some v }, f a)
  at_vpn s f (v, failed e) = (record s { vpn = some v }, refuse 503 e)

  abbrev default_exit : Exit
  default_exit = record {
    id = vps;
    name = lit "VPS exit";
    ready = false;
    message = "Run sudo easyprivacy-node vpn-setup on the VPS to enable its VPN exit.";
  }

  abbrev one_exit : Server V → V × Outcome Exit → Server V × Reply
  one_exit s (v, done e) = (record s { vpn = some v }, reply (exit_list (e ∷ [])))
  one_exit s (v, failed e) = (record s { vpn = some v }, reply (exit_list (default_exit ∷ [])))

  abbrev all_exits : Server V → V × Outcome (List Exit) → Server V × Reply
  all_exits s (v, done es) = (record s { vpn = some v }, reply (exit_list es))
  all_exits s (v, failed e) = one_exit s (control.info v)

  abbrev exits_of : Option V → Server V → Server V × Reply
  exits_of none s = (s, reply (exit_list (default_exit ∷ [])))
  exits_of (some v) s =
      if control.serves then all_exits s (control.exits v) else one_exit s (control.info v)

  -- vpnExits
  unfoldable pub vpn_exits : (now : ℕ) → Request → Server V → Server V × Reply
  vpn_exits now r s =
      let (t, found) = authenticate_device g now r s in
      elim found [ none ↦ (t, not_paired) | some c ↦ exits_of t.vpn t ]

  abbrev peer_at : Text → PeerInput → Option V → Server V → Server V × Reply
  peer_at device i none s =
      (s, refuse 503 "Configure the VPS exit with sudo easyprivacy-node vpn-setup first.")
  peer_at device i (some v) s =
      if control.serves
      then at_vpn s (λ p. reply (vpn_profile p))
          (control.register_exit device i.public_key i.exit_id v)
      else if same i.exit_id vps
      then at_vpn s (λ p. reply (vpn_profile p)) (control.register device i.public_key v)
      else (s, refuse 503 "Update the core package for home exits.")

  abbrev peer_checked : Text → PeerInput ⊎ Reply → (Text × PeerInput) ⊎ Reply
  peer_checked device (inr r) = inr r
  peer_checked device (inl i) =
      if not (same i.exit_id vps) && not (same i.exit_id home)
      then inr (refuse 400 "Unknown VPN exit.")
      else if failed_key (Config.key g i.public_key)
      then inr (refuse 400 "Invalid VPN public key.")
      else inl (device, i)

  -- vpnPeer in its two critical sections: authenticateDevice, with the checks of the request behind it, and the
  -- registration, behind a second look at the device.
  unfoldable pub peer_begin :
      Decoder PeerInput → (now : ℕ) → Request → Server V → Server V × ((Text × PeerInput) ⊎ Reply)
  unfolding Config.key
  peer_begin d now r s =
      let (t, found) = authenticate_device g now r s in
      elim found [
        | none ↦ (t, inr not_paired)
        | some c ↦ (t, peer_checked c.device_id (read_request g d r))
      ]

  unfoldable pub peer_finish : (device : Text) → PeerInput → Server V → Server V × Reply
  peer_finish device i s =
      if is_active device s.devices
      then peer_at device i s.vpn s
      else (s, refuse 401 "Device authorization was revoked.")

  abbrev no_service : Server V → Server V × Reply
  no_service s = (s, refuse 503 "Update the core package and configure its VPN exit first.")

  abbrev service_at : Text → ServiceInput → Option V → Server V → Server V × Reply
  service_at device i none s = no_service s
  service_at device i (some v) s =
      if control.serves
      then at_vpn s (λ p. reply (vpn_service p))
          (control.register_service device i.public_key i.name i.management v)
      else no_service s

  abbrev service_checked : Text → ServiceInput ⊎ Reply → (Text × ServiceInput) ⊎ Reply
  service_checked device (inr r) = inr r
  service_checked device (inl i) =
      if failed_key (Config.key g i.public_key)
      then inr (refuse 400 "Invalid VPN public key.")
      else inl (device, i)

  -- vpnService, likewise
  unfoldable pub service_begin :
      Decoder ServiceInput
      → (now : ℕ) → Request
      → Server V
      → Server V × ((Text × ServiceInput) ⊎ Reply)
  unfolding Config.key
  service_begin d now r s =
      let (t, found) = authenticate_device g now r s in
      elim found [
        | none ↦ (t, inr not_paired)
        | some c ↦ (t, service_checked c.device_id (read_request g d r))
      ]

  unfoldable pub service_finish : (device : Text) → ServiceInput → Server V → Server V × Reply
  service_finish device i s =
      if is_active device s.devices
      then service_at device i s.vpn s
      else (s, refuse 401 "Device authorization was revoked.")

  abbrev disconnect_result : Server V → V × Option Error → Server V × Reply
  disconnect_result s (v, none) = (record s { vpn = some v }, reply disconnected)
  disconnect_result s (v, some e) = (record s { vpn = some v }, refuse 503 e)

  abbrev disconnect_at : Text → Option V → Server V → Server V × Reply
  disconnect_at device none s = (s, reply disconnected)
  disconnect_at device (some v) s = disconnect_result s (control.remove device v)

  -- vpnDisconnect
  unfoldable pub vpn_disconnect : (now : ℕ) → Request → Server V → Server V × Reply
  vpn_disconnect now r s =
      let (t, found) = authenticate_device g now r s in
      elim found [ none ↦ (t, not_paired) | some c ↦ disconnect_at c.device_id t.vpn t ]

  abbrev no_status : Status
  no_status = record { active = false; last_handshake = 0; received = 0; sent = 0 }

  abbrev status_at : Text → Option V → Server V → Server V × Reply
  status_at device none s = (s, reply (vpn_status no_status))
  status_at device (some v) s = at_vpn s (λ p. reply (vpn_status p)) (control.status device v)

  -- vpnStatus
  unfoldable pub vpn_status_api : (now : ℕ) → Request → Server V → Server V × Reply
  vpn_status_api now r s =
      let (t, found) = authenticate_device g now r s in
      elim found [ none ↦ (t, not_paired) | some c ↦ status_at c.device_id t.vpn t ]
