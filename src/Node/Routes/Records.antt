-- ===== src/Node/Routes/Records.antt =====
-- core/internal/node: the handlers that leave the device records as they are.
use easyprivacy.Hex
use easyprivacy.Platform.{Decoder, Platform}
use easyprivacy.Node.Server.{
  read_request, session_lifetime, Server, Request, allow_login, purge_attempts,
}
use easyprivacy.Node.Sessions.{
  authenticate_device, logout, status, Credentials, login_finish, login_begin, open_session,
  authenticate,
}
use easyprivacy.Node.Pairing.{
  create_pairing_code, pairing_start, StartInput, new_pairing_code, start_locked, begin_exchange,
  purge_pairings, clear_pairings,
}
use easyprivacy.Node.Enrollment.{
  enroll_begin, pairing_finish, FinishInput, EnrollInput, finish_locked, enroll_locked,
}
use easyprivacy.Node.DeviceAuth.{
  revoke_begin, devices_page, device_login, device_challenge, LoginInput, challenge_locked,
  login_locked,
}
use easyprivacy.Base.{
  Option-cases, Sum-cases, [], some, none, inr, inl, delete, Option, arith, Text, ℕ, ◌≡◌, ◌+◌,
}
use easyprivacy.Vpn.Types.{Control}
use easyprivacy.Node.VpnApi.{
  ServiceInput, PeerInput, vpn_status_api, vpn_disconnect, peer_begin, peer_finish, service_begin,
  service_finish, vpn_exits,
}

module _ {V : Type 0} (g : Platform) where
  pub allow_login-devices :
      (now : ℕ) (remote : Text) (s : Server V) → (allow_login g now remote s).0.devices ≡ s.devices
  unfolding allow_login purge_attempts
  allow_login-devices now remote s = ground arith

  pub authenticate-devices :
      (now : ℕ) (r : Request) (s : Server V) → (authenticate g now r s).0.devices ≡ s.devices
  unfolding authenticate
  authenticate-devices now r s = ground arith

  pub open_session-devices :
      (now expires : ℕ) (device token : Text) (s : Server V)
      → (open_session g now expires device token s).0.devices ≡ s.devices
  unfolding open_session
  open_session-devices now expires device token s = ground arith

  pub new_pairing_code-devices :
      (now : ℕ) (drawn : Option ℕ) (generation creator : Text) (s : Server V)
      → (new_pairing_code g now drawn generation creator s).0.devices ≡ s.devices
  unfolding new_pairing_code clear_pairings
  new_pairing_code-devices now drawn generation creator s = ground arith

  pub start_locked-devices :
      (now : ℕ) (id seed : Text) (i : StartInput) (s : Server V)
      → (start_locked g now id seed i s).0.devices ≡ s.devices
  unfolding start_locked begin_exchange purge_pairings
  start_locked-devices now id seed i s = ground arith

  pub finish_locked-devices :
      (now : ℕ) (i : FinishInput) (s : Server V) → (finish_locked g now i s).0.devices ≡ s.devices
  unfolding finish_locked
  finish_locked-devices now i s = ground arith

  pub enroll_locked-devices :
      (now : ℕ) (i : EnrollInput) (s : Server V) → (enroll_locked g now i s).0.devices ≡ s.devices
  unfolding enroll_locked
  enroll_locked-devices now i s = ground arith

  pub challenge_locked-devices :
      (now : ℕ) (fresh device : Text) (s : Server V)
      → (challenge_locked g now fresh device s).0.devices ≡ s.devices
  unfolding challenge_locked
  challenge_locked-devices now fresh device s = ground arith

  pub login_locked-devices :
      (now later : ℕ) (token : Text) (i : LoginInput) (s : Server V)
      → (login_locked g now later token i s).0.devices ≡ s.devices
  unfolding login_locked
  login_locked-devices now later token i s = ground (
    arith,
    open_session-devices later (later + session_lifetime) i.id token
        (record s { challenges = delete i.challenge_id s.challenges }),
  )

  pub login_begin-devices :
      (d : Decoder Credentials) (now : ℕ) (r : Request) (s : Server V)
      → (login_begin g d now r s).0.devices ≡ s.devices
  unfolding login_begin
  login_begin-devices d now r s = ground (arith, allow_login-devices now r.remote s)

  pub login_finish-devices :
      (now later : ℕ) (raw : Option Text) (c : Credentials) (s : Server V)
      → (login_finish g now later raw c s).0.devices ≡ s.devices
  unfolding login_finish
  login_finish-devices now later none c s = ground arith
  login_finish-devices now later (some raw) c s =
      ground (arith, open_session-devices later (now + session_lifetime) [] (Hex.encode raw) s)

  pub pairing_start-devices :
      (d : Decoder StartInput) (now later : ℕ) (id seed : Text) (r : Request) (s : Server V)
      → (pairing_start g d now later id seed r s).0.devices ≡ s.devices
  unfolding pairing_start
  pairing_start-devices d now later id seed r s =
      let t = (allow_login g now r.remote s).0 in
      elim (Sum-cases (read_request g d r)) [
        | inl (i, p) ↦
            ground
              (arith, p, allow_login-devices now r.remote s, start_locked-devices later id seed i t)
        | inr (a, p) ↦ ground (arith, p, allow_login-devices now r.remote s)
      ]

  pub pairing_finish-devices :
      (d : Decoder FinishInput) (now : ℕ) (r : Request) (s : Server V)
      → (pairing_finish g d now r s).0.devices ≡ s.devices
  unfolding pairing_finish
  pairing_finish-devices d now r s = elim (Sum-cases (read_request g d r)) [
    | inl (i, p) ↦ ground (arith, p, finish_locked-devices now i s)
    | inr (a, p) ↦ ground (arith, p)
  ]

  pub enroll_begin-devices :
      (d : Decoder EnrollInput) (now later : ℕ) (r : Request) (s : Server V)
      → (enroll_begin g d now later r s).0.devices ≡ s.devices
  unfolding enroll_begin
  enroll_begin-devices d now later r s =
      let t = (allow_login g now r.remote s).0 in
      let kept = allow_login-devices now r.remote s in
      elim (Sum-cases (read_request g d r)) [
        | inl (i, p) ↦ ground (arith, p, enroll_locked-devices later i t)
        | inr (a, p) ↦ ground (arith, p)
      ]

  pub device_challenge-devices :
      (d : Decoder Text) (now later : ℕ) (fresh : Text) (r : Request) (s : Server V)
      → (device_challenge g d now later fresh r s).0.devices ≡ s.devices
  unfolding device_challenge
  device_challenge-devices d now later fresh r s =
      let t = (allow_login g now r.remote s).0 in
      let kept = allow_login-devices now r.remote s in
      elim (Sum-cases (read_request g d r)) [
        | inl (i, p) ↦ ground (arith, p, challenge_locked-devices later fresh i t)
        | inr (a, p) ↦ ground (arith, p)
      ]

  pub device_login-devices :
      (d : Decoder LoginInput) (now later last : ℕ) (token : Text) (r : Request) (s : Server V)
      → (device_login g d now later last token r s).0.devices ≡ s.devices
  unfolding device_login
  device_login-devices d now later last token r s =
      let t = (allow_login g now r.remote s).0 in
      let kept = allow_login-devices now r.remote s in
      elim (Sum-cases (read_request g d r)) [
        | inl (i, p) ↦ ground (arith, p, login_locked-devices later last token i t)
        | inr (a, p) ↦ ground (arith, p)
      ]

  pub create_pairing_code-devices :
      (now later : ℕ) (drawn : Option ℕ) (generation : Text) (r : Request) (s : Server V)
      → (create_pairing_code g now later drawn generation r s).0.devices ≡ s.devices
  unfolding create_pairing_code authenticate_device
  create_pairing_code-devices now later drawn generation r s =
      let t = (authenticate g now r s).0 in
      let kept = authenticate-devices now r s in
      elim (Option-cases (authenticate_device g now r s).1) [
        | inl n ↦ ground (arith, n)
        | inr (v, p) ↦
            ground (arith, p, new_pairing_code-devices later drawn generation v.device_id t)
      ]

  pub status-devices :
      (now later : ℕ) (r : Request) (s : Server V) → (status g now later r s).0.devices ≡ s.devices
  unfolding status
  status-devices now later r s = ground (arith, authenticate-devices now r s)

  pub logout-devices :
      (now : ℕ) (r : Request) (s : Server V) → (logout g now r s).0.devices ≡ s.devices
  unfolding logout
  logout-devices now r s = ground (arith, authenticate-devices now r s)

  pub revoke_begin-devices :
      (now : ℕ) (r : Request) (s : Server V) → (revoke_begin g now r s).0.devices ≡ s.devices
  unfolding revoke_begin authenticate_device
  revoke_begin-devices now r s = ground (arith, authenticate-devices now r s)

  pub devices_page-devices :
      (now : ℕ) (r : Request) (s : Server V) → (devices_page g now r s).0.devices ≡ s.devices
  unfolding devices_page authenticate_device
  devices_page-devices now r s = ground (arith, authenticate-devices now r s)

  module _ (control : Control V) where
    pub vpn_exits-devices :
        (now : ℕ) (r : Request) (s : Server V) → (vpn_exits control g now r s).0.devices ≡ s.devices
    unfolding vpn_exits authenticate_device
    vpn_exits-devices now r s = ground (arith, authenticate-devices now r s)

    pub peer_begin-devices :
        (d : Decoder PeerInput) (now : ℕ) (r : Request) (s : Server V)
        → (peer_begin control g d now r s).0.devices ≡ s.devices
    unfolding peer_begin authenticate_device
    peer_begin-devices d now r s = ground (arith, authenticate-devices now r s)

    pub peer_finish-devices :
        (device : Text) (i : PeerInput) (s : Server V)
        → (peer_finish control g device i s).0.devices ≡ s.devices
    unfolding peer_finish
    peer_finish-devices device i s = ground arith

    pub service_begin-devices :
        (d : Decoder ServiceInput) (now : ℕ) (r : Request) (s : Server V)
        → (service_begin control g d now r s).0.devices ≡ s.devices
    unfolding service_begin authenticate_device
    service_begin-devices d now r s = ground (arith, authenticate-devices now r s)

    pub service_finish-devices :
        (device : Text) (i : ServiceInput) (s : Server V)
        → (service_finish control g device i s).0.devices ≡ s.devices
    unfolding service_finish
    service_finish-devices device i s = ground arith

    pub vpn_disconnect-devices :
        (now : ℕ) (r : Request) (s : Server V)
        → (vpn_disconnect control g now r s).0.devices ≡ s.devices
    unfolding vpn_disconnect authenticate_device
    vpn_disconnect-devices now r s = ground (arith, authenticate-devices now r s)

    pub vpn_status_api-devices :
        (now : ℕ) (r : Request) (s : Server V)
        → (vpn_status_api control g now r s).0.devices ≡ s.devices
    unfolding vpn_status_api authenticate_device
    vpn_status_api-devices now r s = ground (arith, authenticate-devices now r s)
