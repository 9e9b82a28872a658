-- ===== src/Node/DeviceAuth.antt =====
-- core/internal/node/device_auth.go and admin.go: the sign-in of a paired device by a signed
-- challenge, and the revocation of a device. `Control` is the exit that the server talks to.
pub mod Challenges
pub mod Revocation
use easyprivacy.Vpn.Types.{Control}
use easyprivacy.Platform.{Platform, Decoder}
use easyprivacy.Node.Devices.{Device, DeviceStore, find_active, is_active, list_devices, revoke}
use easyprivacy.Node.Server.{
  revoked, challenge, second, revoked_with_warning, session_lifetime, read_request, device_list,
  allow_login, before, PairingCode, Request, Reply, Server, refuse, reply, Challenge,
}
use easyprivacy.Node.Sessions.{open_session, authenticate_device}
use easyprivacy.Node.Pairing.{clear_pairings}
use easyprivacy.Hex
use easyprivacy.Base.{
  List, ◌∷◌, [], insert, length, lookup, not, delete, leb, same, Error, retain, Bool, Dict, lit,
  Option, ℕ, Text, ◌++◌, some, none, ◌&&◌, false, inr, inl, ◌⊎◌, ◌*◌, ◌+◌, if◌then◌else◌, ◌==◌,
}
use easyprivacy.Node.State.{fingerprint}

-- The input of deviceLogin.
pub record LoginInput : Type 0 where
  pub id : Text
  pub challenge_id : Text
  pub signature : Text

unfoldable pub login_message : (pin id nonce : Text) → Text
login_message pin id nonce =
    lit "easyprivacy.device-login.v1\n" ++ pin ++ lit "\n" ++ id ++ lit "\n" ++ nonce

abbrev pub max_challenges : ℕ
max_challenges = 64

abbrev pub live_challenges : ℕ → Dict Challenge → Dict Challenge
live_challenges now = retain (λ k c. before now c.expires)

-- Without the signature.
abbrev in_time : (now : ℕ) → LoginInput → Challenge → Bool
in_time now i c = same c.device_id i.id && before now c.expires && length i.signature == 64

unfoldable pub revoked_in : Text → List Device → Bool
revoked_in id [] = false
revoked_in id (d ∷ ds) = if same d.id id then d.revoked else revoked_in id ds

abbrev pub removal_result : Option Error → Option Error
removal_result none = none
removal_result (some e) = some "device revoked; VPN removal could not be confirmed"

module _ {V : Type 0} (g : Platform) where
  abbrev issue_challenge : (now : ℕ) (fresh device : Text) → Server V → Server V × Reply
  issue_challenge now fresh device s =
      let live = live_challenges now s.challenges in
      if leb max_challenges (length live)
      then (record s { challenges = live }, refuse 429 "Device sign-in is busy. Try again shortly.")
      else (
        record s {
          challenges =
              insert fresh (record { device_id = device; expires = now + 30 * second }) live;
        },
        reply (challenge fresh (now + 30 * second)),
      )

  -- deviceChallenge under the lock
  unfoldable pub challenge_locked : (now : ℕ) (fresh device : Text) → Server V → Server V × Reply
  challenge_locked now fresh device s =
      if is_active device s.devices then issue_challenge now fresh device s else (
        s,
        refuse 401 "This device is not authorized. Pair it again using a new device identity.",
      )

  abbrev challenge_checked : (now : ℕ) (fresh : Text) → Text ⊎ Reply → Server V → Server V × Reply
  challenge_checked now fresh (inr r) s = (s, r)
  challenge_checked now fresh (inl id) s =
      if Hex.valid_id id
      then challenge_locked now fresh id s
      else (s, refuse 400 "Invalid device identity.")

  -- deviceChallenge; `fresh` is a random identity.
  unfoldable pub device_challenge :
      Decoder Text → (now later : ℕ) (fresh : Text) → Request → Server V → Server V × Reply
  device_challenge d now later fresh r s =
      let (t, allowed) = allow_login g now r.remote s in
      if allowed
      then challenge_checked later fresh (read_request g d r) t
      else (t, refuse 429 "Too many connection attempts. Try again shortly.")

  abbrev signature_valid : LoginInput → Device → Server V → Bool
  signature_valid i d s =
      g.ed25519_verify d.public_key (login_message (fingerprint g s.state) i.id i.challenge_id)
        i.signature

  abbrev answers : (now : ℕ) → LoginInput → Option Challenge → Option Device → Server V → Bool
  answers now i none d s = false
  answers now i (some c) none s = false
  answers now i (some c) (some d) s = in_time now i c && signature_valid i d s

  -- deviceLogin under the lock: the challenge is spent, whatever comes of it.
  unfoldable pub login_locked :
      (now later : ℕ) (token : Text) → LoginInput → Server V → Server V × Reply
  login_locked now later token i s =
      let t = record s { challenges = delete i.challenge_id s.challenges } in
      if answers now i (lookup i.challenge_id s.challenges) (find_active i.id s.devices) s
      then open_session g later (later + session_lifetime) i.id token t
      else (
        t,
        refuse 401 "Device authentication failed. Try reconnecting or pair a new device identity.",
      )

  abbrev login_checked :
      (now later : ℕ) (token : Text) → LoginInput ⊎ Reply → Server V → Server V × Reply
  login_checked now later token (inr r) s = (s, r)
  login_checked now later token (inl i) s = login_locked now later token i s

  -- deviceLogin; `token` is a random identity.
  unfoldable pub device_login :
      Decoder LoginInput
      → (now later last : ℕ) (token : Text) → Request
      → Server V
      → Server V × Reply
  device_login d now later last token r s =
      let (t, allowed) = allow_login g now r.remote s in
      if allowed
      then login_checked later last token (read_request g d r) t
      else (t, refuse 429 "Too many connection attempts. Try again shortly.")

  -- listDevices
  unfoldable pub devices_page : (now : ℕ) → Request → Server V → Server V × Reply
  devices_page now r s =
      let (t, found) = authenticate_device g now r s in
      elim found [
        | none ↦ (t, refuse 403 "A paired device connection is required.")
        | some v ↦ (t, reply (device_list (list_devices t.devices) v.device_id))
      ]

  -- What revokeLocked takes from the server once the record is marked.
  abbrev pub forget_code : Text → Option PairingCode → Server V → Server V
  forget_code id none s = s
  forget_code id (some c) s =
      if same c.creator id then record (clear_pairings g s) { code = none } else s

  unfoldable pub forget_device : Text → Server V → Server V
  forget_device id s = forget_code id s.code (record s {
    sessions = retain (λ k v. not (same v.device_id id)) s.sessions;
    challenges = retain (λ k c. not (same c.device_id id)) s.challenges;
  })

  abbrev pub remove_from : Control V → Text → Option V → Server V → Server V × Option Error
  remove_from control id none s = (s, none)
  remove_from control id (some v) s =
      let (w, e) = control.remove id v in (record s { vpn = some w }, removal_result e)

  abbrev pub revoke_marked :
      Control V → Text → DeviceStore × Option Error → Server V → Server V × Option Error
  revoke_marked control id (store, some e) s = (record s { devices = store }, some e)
  revoke_marked control id (store, none) s =
      let t = forget_device id (record s { devices = store }) in remove_from control id t.vpn t

  -- revokeLocked; `fault` is what the write of the records meets.
  unfoldable pub revoke_locked :
      Control V → Option Error → Text → Server V → Server V × Option Error
  revoke_locked control fault id s = revoke_marked control id (revoke fault id s.devices) s

  -- revocationCommitted
  unfoldable pub revocation_committed : Text → Server V → Bool
  revocation_committed id s = revoked_in id (list_devices s.devices)

  abbrev pub revocation_reply : Text → Server V × Option Error → Server V × Reply
  revocation_reply id (s, none) = (s, reply revoked)
  revocation_reply id (s, some e) =
      if revocation_committed id s
      then (s, reply (revoked_with_warning e))
      else (s, refuse 400 "Could not revoke that device.")

  -- The revoke handler of admin.go
  unfoldable pub admin_revoke : Control V → Option Error → Text → Server V → Server V × Reply
  admin_revoke control fault id s = revocation_reply id (revoke_locked control fault id s)

  -- revokeDevice in its two critical sections: authenticateDevice, which gives the identity of the asking device, and
  -- the revocation, behind a second look at the device.
  unfoldable pub revoke_begin : (now : ℕ) → Request → Server V → Server V × (Text ⊎ Reply)
  revoke_begin now r s =
      let (t, found) = authenticate_device g now r s in
      elim found [
        | none ↦ (t, inr (refuse 403 "A paired device connection is required."))
        | some v ↦ (t, inl v.device_id)
      ]

  unfoldable pub revoke_finish :
      Control V → Option Error → (device id : Text) → Server V → Server V × Reply
  revoke_finish control fault device id s =
      if is_active device s.devices
      then admin_revoke control fault id s
      else (s, refuse 401 "Device authorization was revoked.")
