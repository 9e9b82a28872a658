-- ===== src/Node/Sessions.antt =====
-- core/internal/node/server.go: sign-in by password, and the sessions. A handler that lets the lock
-- go while it works on the password is two steps, one for each critical section.
pub mod Access
pub mod Bounds
use easyprivacy.Platform.{Platform, Decoder}
use easyprivacy.Node.Devices.{is_active}
use easyprivacy.Node.Server.{
  signed_out, core_status, access, before, is_json, session_lifetime, decode_body, allow_login,
  Reply, Request, refuse, reply, Server, Session,
}
use easyprivacy.Node.State.{State}
use easyprivacy.Hex
use easyprivacy.Base.{
  lookup, drop, lit, insert, has_prefix, length, retain, same, is_empty, not, delete, leb, ltb,
  Dict, Bool, Option, ℕ, Text, [], some, none, ◌||◌, ◌&&◌, false, true, inr, inl, ◌⊎◌, ◌-◌, ◌+◌,
  if◌then◌else◌, ◌==◌,
}

pub record Credentials : Type 0 where
  pub username : Text
  pub password : Text

-- passwordMatches; `none` is the error of pbkdf2. Both comparisons are made, in constant time.
abbrev candidate_matches : Platform → State → Text → Option Text → Option Bool
candidate_matches g st username none = none
candidate_matches g st username (some candidate) =
    some (same candidate st.password_hash && same (g.sha256 username) (g.sha256 st.username))

unfoldable pub password_matches : Platform → State → Credentials → Option Bool
password_matches g st c = candidate_matches g st c.username (g.pbkdf2 c.password st.salt)

-- The purge loops of the handlers.
abbrev pub live_sessions : ℕ → Dict Session → Dict Session
live_sessions now = retain (λ k v. before now v.expires)

abbrev pub max_sessions : ℕ
max_sessions = 64

abbrev pub password_slots : ℕ
password_slots = 2

abbrev decoded_login : Decoder Credentials → Request → Option Credentials
decoded_login d r = elim (decode_body d 4096 r.body) [
  | none ↦ none
  | some c ↦ if ltb 64 (length c.username) || ltb 1024 (length c.password) then none else some c
]

module _ {V : Type 0} where
  abbrev take_slot : Credentials → Server V → Server V × (Credentials ⊎ Reply)
  take_slot c s =
      if ltb s.busy_slots password_slots
      then (record s { busy_slots = s.busy_slots + 1 }, inl c)
      else (s, inr (refuse 429 "Sign-in is busy. Try again shortly."))

  abbrev check_login : Option Credentials → Server V → Server V × (Credentials ⊎ Reply)
  check_login none s = (s, inr (refuse 400 "Invalid sign-in request."))
  check_login (some c) s = take_slot c s

  abbrev admitted_login :
      Platform → Decoder Credentials → Request → Server V × Bool → Server V × (Credentials ⊎ Reply)
  admitted_login g d r (s, false) =
      (s, inr (refuse 429 "Too many sign-in attempts. Try again shortly."))
  admitted_login g d r (s, true) =
      if is_json (g.media_type r.content_type)
      then check_login (decoded_login d r) s
      else (s, inr (refuse 415 "Send a JSON sign-in request."))

  -- login up to the password work: the credentials that are to be checked, or the reply.
  unfoldable pub login_begin :
      Platform → Decoder Credentials → ℕ → Request → Server V → Server V × (Credentials ⊎ Reply)
  login_begin g d now r s = admitted_login g d r (allow_login g now r.remote s)

  abbrev pub release_slot : Server V → Server V
  release_slot s = record s { busy_slots = s.busy_slots - 1 }

  -- The end of login and of deviceLogin, under the lock: the purge, the limit and the new session.
  unfoldable pub open_session :
      Platform → (now expires : ℕ) (device token : Text) → Server V → Server V × Reply
  open_session g now expires device token s =
      let live = live_sessions now s.sessions in
      if leb max_sessions (length live)
      then (
        record s { sessions = live },
        refuse 429 "Too many active sessions. Disconnect an existing client or wait for expiry.",
      )
      else (
        record s {
          sessions =
              insert (g.sha256 token) (record { expires = expires; device_id = device }) live;
        },
        reply (access token expires),
      )

  abbrev with_token : Platform → (now later : ℕ) → Option Text → Server V → Server V × Reply
  with_token g now later none s = (s, refuse 500 "Sign-in is temporarily unavailable.")
  with_token g now later (some raw) s =
      open_session g later (now + session_lifetime) [] (Hex.encode raw) s

  abbrev checked_login :
      Platform → (now later : ℕ) → Option Text → Option Bool → Server V → Server V × Reply
  checked_login g now later raw none s = (s, refuse 500 "Sign-in is temporarily unavailable.")
  checked_login g now later raw (some false) s = (s, refuse 401 "Incorrect username or password.")
  checked_login g now later raw (some true) s = with_token g now later raw s

  -- login from the password work on; `now` is read for the expiry, `later` under the lock. The slot
  -- is given back when the handler returns.
  unfoldable pub login_finish :
      Platform → (now later : ℕ) → Option Text → Credentials → Server V → Server V × Reply
  login_finish g now later raw c s =
      let (t, answer) = checked_login g now later raw (password_matches g s.state c) s in
      (release_slot t, answer)

  abbrev drop_session : Text → Server V → Server V
  drop_session key s = record s { sessions = delete key s.sessions }

  abbrev authorized_session : ℕ → Text → Option Session → Server V → Server V × Option Session
  authorized_session now key none s = (s, none)
  authorized_session now key (some v) s =
      if not (before now v.expires)
      then (drop_session key s, none)
      else if not (is_empty v.device_id) && not (is_active v.device_id s.devices)
      then (drop_session key s, none)
      else (s, some v)

  -- authenticate
  unfoldable pub authenticate : Platform → ℕ → Request → Server V → Server V × Option Session
  authenticate g now r s =
      if not (has_prefix (lit "Bearer ") r.authorization) || not (length r.authorization == 7 + 64)
      then (s, none)
      else let key = g.sha256 (drop 7 r.authorization) in
        authorized_session now key (lookup key s.sessions) s

  abbrev pub of_device : Server V × Option Session → Server V × Option Session
  of_device (s, none) = (s, none)
  of_device (s, some v) = (s, if is_empty v.device_id then none else some v)

  -- authenticateDevice
  unfoldable pub authenticate_device : Platform → ℕ → Request → Server V → Server V × Option Session
  authenticate_device g now r s = of_device (authenticate g now r s)

  -- status; the version and the time since the start are not modelled
  unfoldable pub status : Platform → (now later : ℕ) → Request → Server V → Server V × Reply
  status g now later r s =
      let (t, found) = authenticate g now r s in
      elim found [
        | none ↦ (t, refuse 401 "Sign in to the core again.")
        | some v ↦ (t, reply (core_status t.state.name later v.expires v.device_id))
      ]

  -- logout
  unfoldable pub logout : Platform → ℕ → Request → Server V → Server V × Reply
  logout g now r s =
      let (t, found) = authenticate g now r s in
      elim found [
        | none ↦ (t, refuse 401 "Sign in to the core again.")
        | some v ↦ (drop_session (g.sha256 (drop 7 r.authorization)) t, reply signed_out)
      ]
