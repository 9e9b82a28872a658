-- ===== src/Node/Pairing.antt =====
-- core/internal/node/pairing.go: pairing codes, exchanges and enrollments. Each critical section is
-- one step; pairingEnroll, which lets the lock go while it works on the password, is two.
pub mod Budget
use easyprivacy.Platform.{Platform, Decoder}
use easyprivacy.Node.Devices.{is_active, valid_device_name}
use easyprivacy.Node.Server.{
  Exchange, pairing_started, second, read_request, before, pairing_lifetime, allow_login,
  pairing_code, Native, Request, Reply, PairingExchange, PairingCode, refuse, reply, Server,
}
use easyprivacy.Node.Sessions.{authenticate_device}
use easyprivacy.Node.Pake
use easyprivacy.Base.{
  exists, leb, length, insert, not, Outcome, is_empty, ltb, retain, Option, Bool, lit, ℕ, Dict,
  Text, ◌++◌, ◌∷◌, [], some, none, ◌||◌, ◌&&◌, true, inr, inl, ◌⊎◌, ◌%◌, ◌/◌, ◌*◌, ◌-◌, ◌+◌, suc,
  zero, if◌then◌else◌, ◌==◌, failed, done,
}
use easyprivacy.Node.State.{fingerprint}

-- The contexts and proofs of the protocol.
unfoldable pub pairing_context : Platform → (id target name public_key pin : Text) → Text
pairing_context g id target name key pin = g.sha256 (
    lit "easyprivacy.pairing.v2\n"
    ++ id
    ++ lit "\n"
    ++ target
    ++ lit "\n"
    ++ name
    ++ lit "\n"
    ++ g.base64 key
    ++ lit "\n"
    ++ pin)

unfoldable pub pairing_mac : Platform → (key role context device : Text) → Text
pairing_mac g key role context device =
    g.hmac key (lit "easyprivacy.pairing.v2." ++ role ++ lit "\n" ++ context ++ lit "\n" ++ device)

-- Closing the exchanges of the map, one by one.
unfoldable pub close_all : Platform → Dict PairingExchange → Native → Native
close_all g [] n = n
close_all g ((k, p) ∷ ps) n = close_all g ps (Pake.close g p.pake n)

-- The decimal digits of n, `width` of them: fmt.Sprintf("%08d").
unfoldable pub digits : ℕ → ℕ → Text
digits zero n = []
digits (suc w) n = digits w (n / 10) ++ (48 + n % 10) ∷ []

-- The input of pairingStart.
pub record StartInput : Type 0 where
  pub target : Text
  pub name : Text
  pub public_key : Text

-- strings.ContainsAny(target, "\r\n\x00")
abbrev breaks_line : ℕ → Bool
breaks_line c = c == 13 || c == 10 || c == 0

abbrev pub max_attempts : ℕ
max_attempts = 5

abbrev usable_code : ℕ → Option PairingCode → Option PairingCode
usable_code now none = none
usable_code now (some c) =
    if not (before now c.expires_at) || leb max_attempts c.attempts then none else some c

abbrev sooner : ℕ → ℕ → ℕ
sooner a b = if ltb b a then b else a

-- The exchange that pairingStart opens: it expires with its code, or sooner.
unfoldable pub new_exchange :
    (now : ℕ) (context : Text) → StartInput → PairingCode → Exchange → PairingExchange
new_exchange now context input c x = record {
  pake = x;
  context = context;
  public_key = input.public_key;
  name = input.name;
  generation = c.generation;
  expires_at = sooner (now + 30 * second) c.expires_at;
}

module _ {V : Type 0} (g : Platform) where
  -- clearPairingsLocked
  unfoldable pub clear_pairings : Server V → Server V
  clear_pairings s = record s {
    native = close_all g s.pairings s.native;
    pairings = [];
    enrollments = [];
  }

  -- A code without a creator was made on the core's terminal.
  unfoldable pub creator_active : PairingCode → Server V → Bool
  creator_active c s = if is_empty c.creator then true else is_active c.creator s.devices

  -- newPairingCodeLocked; `drawn` is the random number below 10^8, `generation` a random identity.
  unfoldable pub new_pairing_code :
      (now : ℕ) → Option ℕ → (generation creator : Text) → Server V → Server V × Outcome PairingCode
  new_pairing_code now drawn generation creator s =
      if not (s.last_code == 0) && ltb (now - s.last_code) (10 * second)
      then (s, failed "wait ten seconds before creating another pairing code")
      else if not (is_empty creator) && not (is_active creator s.devices)
      then (s, failed "device authorization was revoked")
      else elim drawn [
        | none ↦ (s, failed "no randomness")
        | some n ↦
            let c = fresh_code n in
            (record (clear_pairings s) { code = some c; last_code = now }, done c)
      ]
    where
      fresh_code : ℕ → PairingCode
      fresh_code n = record {
        code = digits 8 n;
        expires_at = now + pairing_lifetime;
        attempts = 0;
        generation = generation;
        creator = creator;
      }

  -- createPairingCode
  unfoldable pub create_pairing_code :
      (now later : ℕ) → Option ℕ → (generation : Text) → Request → Server V → Server V × Reply
  create_pairing_code now later drawn generation r s =
      let (t, found) = authenticate_device g now r s in
      elim found [
        | none ↦ (t, refuse 403 "A paired device connection is required.")
        | some v ↦
            let (u, made) = new_pairing_code later drawn generation v.device_id t in
            elim made [
              | done c ↦ (u, reply (pairing_code c.code c.expires_at))
              | failed e ↦ (u, refuse 429 e)
            ]
      ]

  -- The two purge loops of pairingStart.
  unfoldable pub purge_pairings : ℕ → Server V → Server V
  purge_pairings now s = record s {
    native = close_all g (retain (λ k p. not (before now p.expires_at)) s.pairings) s.native;
    pairings = retain (λ k p. before now p.expires_at) s.pairings;
    enrollments = retain (λ k p. before now p.expires_at) s.enrollments;
  }

  -- pairingStart from the use of the code on; `id` is a random identity.
  unfoldable pub begin_exchange :
      (now : ℕ) (id seed : Text) → StartInput → PairingCode → Server V → Server V × Reply
  begin_exchange now id seed input c s =
      if not (creator_active c s)
      then (s, refuse 401 "Create a new pairing code.")
      else let pin = fingerprint g s.state in
        let context = pairing_context g id input.target input.name input.public_key pin in
        let used = record c { attempts = c.attempts + 1 } in
        let (n, begun) = Pake.start g 1 c.code context seed s.native in
        let t = record s { code = some used; native = n } in
        elim begun [
          | failed e ↦ (t, refuse 500 "Pairing is temporarily unavailable.")
          | done x ↦ (
            record t { pairings = insert id (new_exchange now context input c x) s.pairings },
            reply (pairing_started id x.message pin),
          )
        ]

  abbrev start_with :
      (now : ℕ) (id seed : Text) → StartInput → Option PairingCode → Server V → Server V × Reply
  start_with now id seed input none s =
      (s, refuse 401 "Pairing is unavailable. Create a new code on the core or a paired device.")
  start_with now id seed input (some c) s = begin_exchange now id seed input c s

  -- pairingStart under the lock
  unfoldable pub start_locked :
      (now : ℕ) (id seed : Text) → StartInput → Server V → Server V × Reply
  start_locked now id seed input s =
      let t = purge_pairings now s in start_with now id seed input (usable_code now t.code) t

  abbrev start_checked :
      (now : ℕ) (id seed : Text) → StartInput ⊎ Reply → Server V → Server V × Reply
  start_checked now id seed (inr r) s = (s, r)
  start_checked now id seed (inl i) s =
      if not (length i.public_key == 32)
        || not (valid_device_name g i.name)
        || is_empty i.target
        || ltb 255 (length i.target)
        || exists breaks_line i.target
      then (s, refuse 400 "Invalid device pairing request.")
      else start_locked now id seed i s

  -- pairingStart
  unfoldable pub pairing_start :
      Decoder StartInput → (now later : ℕ) (id seed : Text) → Request → Server V → Server V × Reply
  pairing_start d now later id seed r s =
      let (t, allowed) = allow_login g now r.remote s in
      if allowed
      then start_checked later id seed (read_request g d r) t
      else (t, refuse 429 "Too many pairing attempts. Try again shortly.")
