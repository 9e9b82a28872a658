-- ===== src/Node/Sessions/Access.antt =====
-- core/internal/node/server.go: who is let in by a session, and for how long.
use easyprivacy.Platform.{Platform}
use easyprivacy.Hex
use easyprivacy.Hex.Digits.{length-encode}
use easyprivacy.Base.{
  ◌++◌, ◌+◌, length, lit, has_prefix, arith, Option-cases, drop, lookup, is_empty, Text, ℕ, ◌∷◌, [],
  some, true, inr, inl, ◌⊎◌, refl, ◌≡◌, ◌<◌,
}
use easyprivacy.Node.Server.{access, session_lifetime, reply, Session, Server, Request}
use easyprivacy.Node.Sessions.{
  open_session, max_sessions, live_sessions, password_matches, Credentials, login_finish,
  authenticate,
}
use easyprivacy.Node.Devices.{is_active}
use easyprivacy.Node.Sessions.Bounds.{open_session-lookup}

-- A session that lets in: it stands under the hash of the token, it has not expired, and a device
-- that it belongs to is authorized.
pub record LetsIn {V : Type 0} (g : Platform) (now : ℕ) (r : Request) (s : Server V) (v : Session)
    : Type 0 where
  pub stored : lookup (g.sha256 (drop 7 r.authorization)) s.sessions ≡ some v
  pub in_time : now < v.expires
  pub authorized : (v.device_id ≡ []) ⊎ (is_active v.device_id s.devices ≡ true)
  pub bearer : has_prefix (lit "Bearer ") r.authorization ≡ true
  pub sized : length r.authorization ≡ 71

empty_cases : (t : Text) → is_empty t ≡ true → t ≡ []
empty_cases [] h = refl
empty_cases (c ∷ t) h = cc

module _ {V : Type 0} (g : Platform) (now : ℕ) (r : Request) (s : Server V) (v : Session) where
  -- Where authenticate returns a session, it stands under the hash of the token of a well-formed header,
  -- has not expired and is of no revoked device; the server does not change then.
  pub authenticate_sound :
      (authenticate g now r s).1 ≡ some v → LetsIn g now r s v × ((authenticate g now r s).0 ≡ s)
  unfolding authenticate
  authenticate_sound h =
      elim (Option-cases (lookup (g.sha256 (drop 7 r.authorization)) s.sessions)) [
        | inl e ↦ absurd (ground arith)
        | inr (w, e) ↦ ground (arith, empty_cases w.device_id)
      ]

  -- Whatever a session lets in, authenticate lets in, and it changes nothing then.
  pub authenticate_complete : LetsIn g now r s v → authenticate g now r s ≡ (s, some v)
  unfolding authenticate
  authenticate_complete l = ground (arith, l.stored, l.in_time, l.authorized, l.bearer, l.sized)

-- The header with which a client presents a token.
abbrev pub Presents : Request → Text → Type 0
Presents r token = r.authorization ≡ lit "Bearer " ++ token

module _ {V : Type 0} (g : Platform) where
  -- A session that was opened for a token lets that token in until it expires.
  pub presented_token :
      (now expires : ℕ) (device token : Text) (r : Request) (s : Server V)
      → length token ≡ 64
      → Presents r token
      → now < expires
      → (device ≡ []) ⊎ (is_active device s.devices ≡ true)
      → lookup (g.sha256 token) s.sessions ≡ some (record { expires = expires; device_id = device })
      → authenticate g now r s ≡ (s, some (record { expires = expires; device_id = device }))
  presented_token now expires device token r s l p in_time a e =
      authenticate_complete g now r s _ (record {
        stored = rw p e;
        in_time = in_time;
        authorized = a;
        bearer = rw p refl;
        sized = rw p (omega arith);
      })

  -- After the right password, with 32 random bytes and room for a session, the answer is the token that
  -- encodes them, and a request that presents it within the hour is let in.
  pub login_finish-authenticate :
      (now later t : ℕ) (raw : Text) (c : Credentials) (r : Request) (s : Server V)
      → password_matches g s.state c ≡ some true
      → length raw ≡ 32
      → length (live_sessions later s.sessions) < max_sessions
      → t < now + session_lifetime
      → Presents r (Hex.encode raw)
      → let (u, answer) = login_finish g now later (some raw) c s in
        (answer ≡ reply (access (Hex.encode raw) (now + session_lifetime)))
        × (authenticate g t r u
            ≡ (u, some (record { expires = now + session_lifetime; device_id = [] })))
  unfolding login_finish
  login_finish-authenticate now later t raw c r s ok sized room in_time p =
      let token = Hex.encode raw in
      let expires = now + session_lifetime in
      let opened : (open_session g later expires [] token s).1 ≡ reply (access token expires) =
        unfold open_session in ground arith in
      rw (ok, login_finish)
        (
          opened,
          presented_token t expires [] token r _ (omega (arith, length-encode raw)) p in_time
              (inl refl) (open_session-lookup g later expires [] token s opened),
        )
