-- ===== src/Link/Login/Accepted.antt =====
-- core/internal/link/client.go with core/internal/node/device_auth.go: the sign-in of a node at its core.
use easyprivacy.Platform.{Platform}
use easyprivacy.Node.DeviceAuth.{
  max_challenges, login_message, live_challenges, login_locked, challenge_locked, LoginInput,
}
use easyprivacy.Node.Server.{
  Challenge, challenge, access, session_lifetime, second, Request, Reply, Server, refuse, reply,
}
use easyprivacy.Base.{
  lookup-insert, insert, refl, arith, same_refl, delete, inr, length, lookup, Text, Option, ℕ, some,
  none, false, true, ◌≡◌, ◌<◌, ◌*◌, ◌+◌,
}
use easyprivacy.Link.{Identity, login_input, Web, Input}
use easyprivacy.Link.Login.{login_text, signed_login}
use easyprivacy.Node.Devices.{is_active, Device, find_active}
use easyprivacy.Node.State.{fingerprint}
use easyprivacy.Node.Sessions.{authenticate, open_session, max_sessions, live_sessions}
use easyprivacy.Node.Sessions.Access.{presented_token, Presents}
use easyprivacy.Node.Sessions.Bounds.{open_session-lookup}

-- The JSON object that the core decodes.
unfoldable pub login_fields : Input → Option LoginInput
login_fields (login_input device asked signature) =
    some (record { id = device; challenge_id = asked; signature = signature })
login_fields _ = none

-- deviceLogin under the lock, of what was decoded.
abbrev pub sign_in :
    {V : Type 0}
    → Platform
    → (later last : ℕ) (token : Text) → Option LoginInput
    → Server V
    → Server V × Reply
sign_in g later last token none s = (s, refuse 400 "Invalid request.")
sign_in g later last token (some i) s = login_locked g later last token i s

module _ {V : Type 0} (g : Platform) (w : Web) where
  -- Opening a session where there is room gives out the token, which lets in until it expires.
  session-accepted :
      (last t expires : ℕ) (device token : Text) (r : Request) (s : Server V)
      → length (live_sessions last s.sessions) < max_sessions
      → t < expires
      → length token ≡ 64
      → Presents r token
      → is_active device s.devices ≡ true
      → let (v, answer) = open_session g last expires device token s in
        (answer ≡ reply (access token expires))
        × (authenticate g t r v ≡ (v, some (record { expires = expires; device_id = device })))
  session-accepted last t expires device token r s seats in_time digits presents active =
      let opened : (open_session g last expires device token s).1 ≡ reply (access token expires) =
        unfold open_session in ground arith in
      let same_devices : (open_session g last expires device token s).0.devices ≡ s.devices =
        unfold open_session in ground arith in
      (
        opened,
        presented_token g t expires device token r _ digits presents in_time
            (inr (rw same_devices active))
            (open_session-lookup g last expires device token s opened),
      )

  -- A correct answer to a challenge opens a session.
  challenge-answered :
      (later last expires : ℕ) (fresh token seed : Text) (i : Identity) (d : Device) (u : Server V)
      → fingerprint g u.state ≡ i.fingerprint
      → lookup i.device_id u.devices.devices ≡ some d
      → d.revoked ≡ false
      → g.ed25519_verify d.public_key
          (login_text i.fingerprint i.device_id fresh)
          (w.ed25519_sign seed (login_text i.fingerprint i.device_id fresh))
        ≡ true
      → length (w.ed25519_sign seed (login_text i.fingerprint i.device_id fresh)) ≡ 64
      → lookup fresh u.challenges ≡ some (record { device_id = i.device_id; expires = expires })
      → later < expires
      → sign_in g later last token (login_fields (signed_login w seed i fresh)) u
        ≡ open_session g last
            (last + session_lifetime)
            i.device_id
            token
            (record u { challenges = delete fresh u.challenges })
  unfolding login_locked login_fields signed_login
  challenge-answered later last expires fresh token seed i d u pin known active verifies sized asked
        in_time =
      let text = login_text i.fingerprint i.device_id fresh in
      let found : find_active i.device_id u.devices ≡ some d = unfold find_active in ground arith in
      let agree : login_message i.fingerprint i.device_id fresh ≡ text =
        unfold login_message login_text in refl in
      let himself = same_refl i.device_id in rw asked (ground arith)

  -- A core under the node's pin, with the node's key registered and not revoked, and with room for a challenge
  -- and for a session, issues the challenge; it answers what the node signs for it, where a signature verifies,
  -- has 64 bytes and comes within the thirty seconds, with a token; and a request that presents the token of
  -- 64 bytes within the hour is let in as the node.
  pub login-accepted :
      (now later last t : ℕ) (fresh token seed : Text) (i : Identity) (d : Device) (r : Request)
      (s : Server V)
      → fingerprint g s.state ≡ i.fingerprint
      → lookup i.device_id s.devices.devices ≡ some d
      → d.revoked ≡ false
      → ((m : Text) → g.ed25519_verify d.public_key m (w.ed25519_sign seed m) ≡ true)
      → ((m : Text) → length (w.ed25519_sign seed m) ≡ 64)
      → length (live_challenges now s.challenges) < max_challenges
      → length (live_sessions last s.sessions) < max_sessions
      → later < now + 30 * second
      → t < last + session_lifetime
      → length token ≡ 64
      → Presents r token
      → let (u, asked) = challenge_locked g now fresh i.device_id s in
        let (v, answer) =
          sign_in g later last token (login_fields (signed_login w seed i fresh)) u in
        (asked ≡ reply (challenge fresh (now + 30 * second)))
        × (answer ≡ reply (access token (last + session_lifetime)))
        × (authenticate g t r v
            ≡ (v, some (record { expires = last + session_lifetime; device_id = i.device_id })))
  unfolding challenge_locked
  login-accepted now later last t fresh token seed i d r s pin known active verifies sized room
        seats in_time valid digits presents =
      let message = login_text i.fingerprint i.device_id fresh in
      let live = live_challenges now s.challenges in
      let asked : Challenge = record { device_id = i.device_id; expires = now + 30 * second } in
      let u : Server V = record s { challenges = insert fresh asked live } in
      let issued : challenge_locked g now fresh i.device_id s
          ≡ (u, reply (challenge fresh (now + 30 * second))) =
        ground (arith, known, active, room) in
      let stored : lookup fresh u.challenges ≡ some asked =
        ground (arith, lookup-insert fresh fresh asked live) in
      let answered =
        challenge-answered later last (now + 30 * second) fresh token seed i d u pin known active
          (verifies message) (sized message) stored in_time in
      let opened =
        session-accepted last t (last + session_lifetime) i.device_id token r
          (record u { challenges = delete fresh u.challenges }) seats valid digits presents
          (ground (arith, known, active)) in
      rw (issued, answered) (refl, opened.0, opened.1)
