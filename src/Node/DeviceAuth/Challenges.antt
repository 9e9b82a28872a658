-- ===== src/Node/DeviceAuth/Challenges.antt =====
-- core/internal/node/device_auth.go: the sign-in of a device by a challenge.
use easyprivacy.Platform.{Platform}
use easyprivacy.Node.Server.{access, Challenge, Server, reply}
use easyprivacy.Base.{
  lookup-delete, arith, lookup, Option-cases, Text, ℕ, some, none, false, true, inr, inl, ◌≡◌, ◌<◌,
}
use easyprivacy.Node.Sessions.{open_session}
use easyprivacy.Node.DeviceAuth.{login_message, LoginInput, login_locked}
use easyprivacy.Node.Devices.{Device, find_active}
use easyprivacy.Node.State.{fingerprint}

module _ {V : Type 0} (g : Platform) where
  -- The evidence behind a sign-in.
  pub record Answered (now : ℕ) (i : LoginInput) (s : Server V) : Type 0 where
    pub asked : Challenge
    pub device : Device
    pub issued : lookup i.challenge_id s.challenges ≡ some asked
    pub same_device : asked.device_id ≡ i.id
    pub in_time : now < asked.expires
    pub known : lookup i.id s.devices.devices ≡ some device
    pub authorized : device.revoked ≡ false
    pub signed :
        g.ed25519_verify device.public_key
          (login_message (fingerprint g s.state) i.id i.challenge_id)
          i.signature
        ≡ true

  -- A token is given out only for a challenge that was issued to the device, has not expired, and is
  -- signed with the key of a device that is not revoked.
  pub login_locked_sound :
      (now later : ℕ) (token : Text) (i : LoginInput) (s : Server V) (answer : Text) (e : ℕ)
      → (login_locked g now later token i s).1 ≡ reply (access answer e)
      → Answered now i s
  unfolding login_locked find_active
  login_locked_sound now later token i s answer e h =
      elim (Option-cases (lookup i.challenge_id s.challenges)) [
        | inl n ↦ absurd (ground arith)
        | inr (c, p) ↦ elim (Option-cases (lookup i.id s.devices.devices)) [
          | inl n ↦ absurd (ground arith)
          | inr (d, q) ↦ record {
            asked = c;
            device = d;
            issued = p;
            same_device = ground arith;
            in_time = ground arith;
            known = q;
            authorized = ground arith;
            signed = ground arith;
          }
        ]
      ]

  -- After an answer to a challenge, right or wrong, the challenge is gone.
  pub login_locked_spends :
      (now later : ℕ) (token : Text) (i : LoginInput) (s : Server V)
      → lookup i.challenge_id (login_locked g now later token i s).0.challenges ≡ none
  unfolding login_locked open_session
  login_locked_spends now later token i s =
      ground (arith, lookup-delete i.challenge_id i.challenge_id s.challenges)
