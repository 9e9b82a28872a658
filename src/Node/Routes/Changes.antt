-- ===== src/Node/Routes/Changes.antt =====
-- core/internal/node/server.go: which requests change the device records, and what stands behind them.
use easyprivacy.Platform.{Platform}
use easyprivacy.Vpn.Types.{Control}
use easyprivacy.Node.Server.{Server, Request, Reply}
use easyprivacy.Node.Sessions.{status, logout, logout, status, login_begin}
use easyprivacy.Node.Enrollment.{pairing_finish, enroll_begin}
use easyprivacy.Node.DeviceAuth.{devices_page, device_login, device_challenge, revoke_begin}
use easyprivacy.Node.Pairing.{create_pairing_code, pairing_start}
use easyprivacy.Node.Routes.{
  Decoders, Draws, Route, Pending, checks_password, enrolls, revokes, registers, registers_service,
  answered, handed_on, begin, finish, handle_begin, handle, health, login, core_status, sign_out,
  start_pairing, finish_pairing, enroll, new_code, device_challenges, device_logins, devices, exits,
  peer, service, disconnect, vpn_status,
}
use easyprivacy.Node.Routes
use easyprivacy.Node.Routes.Records.{
  service_finish-devices, peer_finish-devices, login_finish-devices, login_begin-devices,
  pairing_start-devices, pairing_finish-devices, enroll_begin-devices, device_challenge-devices,
  device_login-devices, create_pairing_code-devices, status-devices, logout-devices,
  devices_page-devices, revoke_begin-devices, vpn_exits-devices, peer_begin-devices,
  service_begin-devices, vpn_disconnect-devices, vpn_status_api-devices,
}
use easyprivacy.Node.Routes.{begin, finish, handle_begin}
use easyprivacy.Node.Routes.Effects.{
  Enrolled, Revoked, enroll_finish-Enrolled, revoke_finish-Revoked,
}
use easyprivacy.Base.{ap, inr, Bool, false, true, inl, ◌⊎◌, refl, ◌≡◌}
use easyprivacy.Node.VpnApi.{vpn_status_api, vpn_disconnect, service_begin, peer_begin, vpn_exits}

answered-devices :
    {V : Type 0} (t : Server V × Reply) (s : Server V)
    → t.0.devices ≡ s.devices
    → (answered t).0.devices ≡ s.devices
answered-devices (u, a) s p = p

handed-devices :
    {V : Type 0} {A : Type 0} (f : A → Pending) (t : Server V × (A ⊎ Reply)) (s : Server V)
    → t.0.devices ≡ s.devices
    → (handed_on f t).0.devices ≡ s.devices
handed-devices f (u, inl a) s p = p
handed-devices f (u, inr a) s p = p

module _ {V : Type 0} (g : Platform) (control : Control V) (d : Decoders) where
  abbrev pub Changed : Draws → Route → Request → (s t u : Server V) → Type 0
  Changed x enroll r s t u = Enrolled g control d x r s t u
  Changed x (Routes.revoke id) r s t u = Revoked g control d x id r s t u
  Changed x _ r s t u = ⊥

  begin-devices :
      (x : Draws) (route : Route) (r : Request) (s : Server V)
      → (begin g control d x route r s).0.devices ≡ s.devices
  unfolding begin
  begin-devices x health r s = refl
  begin-devices x login r s =
      handed-devices checks_password (login_begin g d.credentials x.now r s) s
        (login_begin-devices g d.credentials x.now r s)
  begin-devices x core_status r s =
      answered-devices (status g x.now x.later r s) s (status-devices g x.now x.later r s)
  begin-devices x sign_out r s =
      answered-devices (logout g x.now r s) s (logout-devices g x.now r s)
  begin-devices x start_pairing r s =
      answered-devices (pairing_start g d.start x.now x.later x.fresh x.seed r s) s
        (pairing_start-devices g d.start x.now x.later x.fresh x.seed r s)
  begin-devices x finish_pairing r s =
      answered-devices (pairing_finish g d.finish x.now r s) s
        (pairing_finish-devices g d.finish x.now r s)
  begin-devices x enroll r s =
      handed-devices enrolls (enroll_begin g d.enrollment x.now x.later r s) s
        (enroll_begin-devices g d.enrollment x.now x.later r s)
  begin-devices x new_code r s =
      answered-devices (create_pairing_code g x.now x.later x.drawn x.fresh r s) s
        (create_pairing_code-devices g x.now x.later x.drawn x.fresh r s)
  begin-devices x device_challenges r s =
      answered-devices (device_challenge g d.challenge x.now x.later x.fresh r s) s
        (device_challenge-devices g d.challenge x.now x.later x.fresh r s)
  begin-devices x device_logins r s =
      answered-devices (device_login g d.device_login x.now x.later x.last x.fresh r s) s
        (device_login-devices g d.device_login x.now x.later x.last x.fresh r s)
  begin-devices x devices r s =
      answered-devices (devices_page g x.now r s) s (devices_page-devices g x.now r s)
  begin-devices x (Routes.revoke id) r s =
      handed-devices (λ device. revokes device id) (revoke_begin g x.now r s) s
        (revoke_begin-devices g x.now r s)
  begin-devices x exits r s =
      answered-devices (vpn_exits control g x.now r s) s (vpn_exits-devices g control x.now r s)
  begin-devices x peer r s =
      handed-devices (λ p. registers p.0 p.1) (peer_begin control g d.peer x.now r s) s
        (peer_begin-devices g control d.peer x.now r s)
  begin-devices x service r s =
      handed-devices (λ p. registers_service p.0 p.1) (service_begin control g d.service x.now r s)
        s (service_begin-devices g control d.service x.now r s)
  begin-devices x disconnect r s =
      answered-devices (vpn_disconnect control g x.now r s) s
        (vpn_disconnect-devices g control x.now r s)
  begin-devices x vpn_status r s =
      answered-devices (vpn_status_api control g x.now r s) s
        (vpn_status_api-devices g control x.now r s)

  finish-answered :
      (x : Draws) (t : Server V × Reply) (m : Server V)
      → (finish g control d x (answered t).1 m).0 ≡ m
  unfolding finish
  finish-answered x (s, a) m = refl

  -- What holds of the server between the sections, and behind the second section of what was handed on.
  finish-handed :
      {A : Type 0} (G : Server V → Type 0) (x : Draws) (f : A → Pending)
      (t : Server V × (A ⊎ Reply)) (m : Server V)
      → G m
      → ((a : A) → t.1 ≡ inl a → G (finish g control d x (inl (f a)) m).0)
      → G (finish g control d x (handed_on f t).1 m).0
  unfolding finish
  finish-handed G x f (s, inl a) m k n = n a refl
  finish-handed G x f (s, inr a) m k n = k

  kept :
      (x : Draws) (t : Server V × Reply) (m : Server V)
      → (finish g control d x (answered t).1 m).0.devices ≡ m.devices
  kept x t m = ap (λ u. u.devices) (finish-answered x t m)

  finish-Changed :
      (x : Draws) (route : Route) (r : Request) (s m : Server V)
      → let u = (finish g control d x (begin g control d x route r s).1 m).0 in
        (u.devices ≡ m.devices) ⊎ Changed x route r s m u
  unfolding begin finish
  finish-Changed x health r s m = inl refl
  finish-Changed x login r s m =
      finish-handed (λ u. (u.devices ≡ m.devices) ⊎ ⊥) x checks_password
        (login_begin g d.credentials x.now r s) m (inl refl)
        (λ c b. inl (login_finish-devices g x.later x.last x.raw c m))
  finish-Changed x core_status r s m = inl (kept x (status g x.now x.later r s) m)
  finish-Changed x sign_out r s m = inl (kept x (logout g x.now r s) m)
  finish-Changed x start_pairing r s m =
      inl (kept x (pairing_start g d.start x.now x.later x.fresh x.seed r s) m)
  finish-Changed x finish_pairing r s m = inl (kept x (pairing_finish g d.finish x.now r s) m)
  finish-Changed x enroll r s m =
      finish-handed (λ u. (u.devices ≡ m.devices) ⊎ Enrolled g control d x r s m u) x enrolls
        (enroll_begin g d.enrollment x.now x.later r s) m (inl refl)
        (λ k b. enroll_finish-Enrolled g control d x r s m k b)
  finish-Changed x new_code r s m =
      inl (kept x (create_pairing_code g x.now x.later x.drawn x.fresh r s) m)
  finish-Changed x device_challenges r s m =
      inl (kept x (device_challenge g d.challenge x.now x.later x.fresh r s) m)
  finish-Changed x device_logins r s m =
      inl (kept x (device_login g d.device_login x.now x.later x.last x.fresh r s) m)
  finish-Changed x devices r s m = inl (kept x (devices_page g x.now r s) m)
  finish-Changed x (Routes.revoke id) r s m =
      finish-handed (λ u. (u.devices ≡ m.devices) ⊎ Revoked g control d x id r s m u) x
        (λ device. revokes device id) (revoke_begin g x.now r s) m (inl refl)
        (λ device b. revoke_finish-Revoked g control d x id r s m device b)
  finish-Changed x exits r s m = inl (kept x (vpn_exits control g x.now r s) m)
  finish-Changed x peer r s m =
      finish-handed (λ u. (u.devices ≡ m.devices) ⊎ ⊥) x (λ p. registers p.0 p.1)
        (peer_begin control g d.peer x.now r s) m (inl refl)
        (λ p b. inl (peer_finish-devices g control p.0 p.1 m))
  finish-Changed x service r s m =
      finish-handed (λ u. (u.devices ≡ m.devices) ⊎ ⊥) x (λ p. registers_service p.0 p.1)
        (service_begin control g d.service x.now r s) m (inl refl)
        (λ p b. inl (service_finish-devices g control p.0 p.1 m))
  finish-Changed x disconnect r s m = inl (kept x (vpn_disconnect control g x.now r s) m)
  finish-Changed x vpn_status r s m = inl (kept x (vpn_status_api control g x.now r s) m)

  -- The first section of a request leaves the device records as they are, and so does its second, on the server as
  -- other requests have left it by then, but for two. One to enroll adds what Add adds, for an enrollment that it
  -- reserved and with the password of the account. One to revoke marks what Revoke marks, where a session of a
  -- device let it in at the first section, and the device is authorized at the second.
  pub handle-Changed :
      (x : Draws) (tls : Bool) (route : Route) (r : Request) (s m : Server V)
      → let (t, p) = handle_begin g control d x tls route r s in
        let u = (finish g control d x p m).0 in
        (t.devices ≡ s.devices) × ((u.devices ≡ m.devices) ⊎ Changed x route r s m u)
  unfolding handle_begin finish
  handle-Changed x false route r s m = (refl, inl refl)
  handle-Changed x true route r s m = (begin-devices x route r s, finish-Changed x route r s m)
