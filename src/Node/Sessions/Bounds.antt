-- ===== src/Node/Sessions/Bounds.antt =====
-- core/internal/node/server.go and device_auth.go: the limit on sessions, and the session that a
-- sign-in opens.
use easyprivacy.Platform.{Platform}
use easyprivacy.Node.Server.{before, Session, access, Server, reply}
use easyprivacy.Base.{
  size-insert_le, lookup-insert, lookup, size-retain, arith, Text, ℕ, length, some, ◌≡◌, ◌≤◌,
}
use easyprivacy.Node.Sessions.{live_sessions, open_session, max_sessions}

module _ {V : Type 0} where
  abbrev pub SessionsBounded : Server V → Type 0
  SessionsBounded s = length s.sessions ≤ max_sessions

  -- Opening a session keeps the limit of 64 sessions.
  pub open_session-SessionsBounded :
      (g : Platform) (now expires : ℕ) (device token : Text) (s : Server V)
      → SessionsBounded s
      → SessionsBounded (open_session g now expires device token s).0
  unfolding open_session
  open_session-SessionsBounded g now expires device token s b = ground (
    arith,
    size-retain {0} (λ k (v : Session). before now v.expires) s.sessions,
    size-insert_le {0} (g.sha256 token) (record { expires = expires; device_id = device })
        (live_sessions now s.sessions),
  )

  -- Where the token is given out, its session is stored.
  pub open_session-lookup :
      (g : Platform) (now expires : ℕ) (device token : Text) (s : Server V)
      → (open_session g now expires device token s).1 ≡ reply (access token expires)
      → lookup (g.sha256 token) (open_session g now expires device token s).0.sessions
        ≡ some (record { expires = expires; device_id = device })
  unfolding open_session
  open_session-lookup g now expires device token s h = ground (
    arith,
    lookup-insert (g.sha256 token) (g.sha256 token)
        (record { expires = expires; device_id = device }) (live_sessions now s.sessions),
  )
