-- ===== src/Node/DeviceAuth/Revocation.antt =====
-- core/internal/node/device_auth.go: what is left to a device that is revoked.
use easyprivacy.Platform.{Platform}
use easyprivacy.Vpn.Types.{Control}
use easyprivacy.Base.{
  ap, same, Bool-cases, arith, All-retain_of, refl, Option-cases, All, Error, Option, Text, some,
  none, false, inr, inl, ◌⊎◌, ◌≡◌,
}
use easyprivacy.Node.DeviceAuth.{remove_from, forget_code, forget_device, revoke_locked}
use easyprivacy.Node.Server.{PairingCode, Server}
use easyprivacy.Node.Devices.{revoke, is_active, DeviceStore}
use easyprivacy.Node.Devices.Invariant.{revoke-done, revoke-failed}
use easyprivacy.Node.Pairing.{clear_pairings}

abbrev pub NotCreator : Text → Option PairingCode → Type 0
NotCreator id none = Unit
NotCreator id (some c) = ¬ (c.creator ≡ id)

-- A record that could be written is inactive.
revoked-inactive :
    (fault : Option Error) (id : Text) (store : DeviceStore)
    → (revoke fault id store).1 ≡ none
    → is_active id (revoke fault id store).0 ≡ false
revoked-inactive fault id store ok =
    let (d, r) = revoke-done fault id store ok in ground (arith, r.marked)

module _ {V : Type 0} (g : Platform) where
  -- Nothing on the server acts for the device.
  pub record Forgotten (id : Text) (s : Server V) : Type 0 where
    pub inactive : is_active id s.devices ≡ false
    pub no_sessions : All (λ k v. ¬ (v.device_id ≡ id)) s.sessions
    pub no_challenges : All (λ k c. ¬ (c.device_id ≡ id)) s.challenges
    pub no_code : NotCreator id s.code

  forget_code-Forgotten :
      (id : Text) (c : Option PairingCode) (t : Server V)
      → t.code ≡ c
      → is_active id t.devices ≡ false
      → All (λ k v. ¬ (v.device_id ≡ id)) t.sessions
      → All (λ k x. ¬ (x.device_id ≡ id)) t.challenges
      → Forgotten id (forget_code g id c t)
  unfolding clear_pairings
  forget_code-Forgotten id none t e a b c = record {
    inactive = a;
    no_sessions = b;
    no_challenges = c;
    no_code = rw e tt;
  }
  forget_code-Forgotten id (some x) t e a b c = elim (Bool-cases (same x.creator id)) [
    | inl y ↦ rw y (record { inactive = a; no_sessions = b; no_challenges = c; no_code = tt })
    | inr n ↦ rw n (record {
      inactive = a;
      no_sessions = b;
      no_challenges = c;
      no_code = rw e (λ p. ground (arith, n, p));
    })
  ]

  forget_device-Forgotten :
      (id : Text) (s : Server V)
      → is_active id s.devices ≡ false
      → Forgotten id (forget_device g id s)
  unfolding forget_device
  forget_device-Forgotten id s gone =
      forget_code-Forgotten id s.code _ refl gone
        (All-retain_of _ _ s.sessions (λ k v h. ground arith))
        (All-retain_of _ _ s.challenges (λ k c h. ground arith))

  remove_from-Forgotten :
      (control : Control V) (id : Text) (v : Option V) (s : Server V)
      → Forgotten id s
      → Forgotten id (remove_from g control id v s).0
  remove_from-Forgotten control id none s f = f
  remove_from-Forgotten control id (some v) s f = record {
    inactive = f.inactive;
    no_sessions = f.no_sessions;
    no_challenges = f.no_challenges;
    no_code = f.no_code;
  }

  -- When the record can be written, nothing on the server acts for the device afterwards, whatever
  -- the exit answers; when it cannot, an error is returned and the server is as it was.
  pub revoke_locked_cases :
      (control : Control V) (fault : Option Error) (id : Text) (s : Server V)
      → let t = (revoke_locked g control fault id s).0 in
        (((revoke fault id s.devices).1 ≡ none) × Forgotten id t)
        ⊎ (¬ ((revoke_locked g control fault id s).1 ≡ none) × (t ≡ s))
  unfolding revoke_locked
  revoke_locked_cases control fault id s =
      let r = revoke fault id s.devices in
      elim (Option-cases r.1) [
        | inl ok ↦ inl (
          ok,
          rw (ok, revoke_locked)
              (remove_from-Forgotten control id _ _
                (forget_device-Forgotten id _ (revoked-inactive fault id s.devices ok))),
        )
        | inr (e, x) ↦ inr (
            rw (x, revoke_locked)
              (
                λ p. ground arith,
                ap (λ d. record s { devices = d }) (revoke-failed fault id s.devices e x),
              ))
      ]
