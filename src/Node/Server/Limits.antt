-- ===== src/Node/Server/Limits.antt =====
-- core/internal/node/server.go: the limits of allowLogin, and sequences of its calls.
use easyprivacy.Platform.{Platform}
use easyprivacy.Base.{
  sym, subst, ◌∙◌, refl, Bool-cases, inr, inl, size-insert, All-insert, leb, lookup, not,
  size-retain, length, AllOf, arith, All-retain, All, ℕ, List, Bool, Text, ◌∷◌, [], false, true,
  ◌≡◌, ◌<◌, ◌≤◌, ◌-◌, ◌+◌, suc,
}
use easyprivacy.Node.Server.{
  over_limit, Attempts, entry_of, minute, count_attempt, allow_login, purge_attempts, Server,
}

pub record Limits {V : Type 0} (s : Server V) : Type 0 where
  pub of_hosts : All (λ k a. a.count ≤ 10) s.attempts
  pub in_all : s.global.count ≤ 60
  pub hosts : length s.attempts ≤ 1024

module _ {V : Type 0} where
  purge_attempts-Limits : (now : ℕ) (s : Server V) → Limits s → Limits (purge_attempts now s)
  unfolding purge_attempts
  purge_attempts-Limits now s v = record {
    of_hosts = All-retain (λ k a. a.count ≤ 10) _ s.attempts v.of_hosts;
    in_all = ground arith;
    hosts = omega (arith, size-retain {0} (λ k a. not (leb minute (now - a.since))) s.attempts);
  }

  count_attempt-Limits :
      (host : Text) (now : ℕ) (s : Server V) → Limits s → Limits (count_attempt host now s).0
  count_attempt-Limits host now s v =
      elim (Bool-cases (over_limit (lookup host s.attempts) entry s)) [
        | inl t ↦ rw (t, count_attempt) v
        | inr f ↦
            rw (f, count_attempt)
              (record {
                of_hosts =
                    All-insert (λ k a. a.count ≤ 10) host counted s.attempts (ground arith)
                      v.of_hosts;
                in_all = ground arith;
                hosts = ground (arith, size-insert host counted s.attempts, v.hosts);
              })
      ]
    where
      entry : Attempts
      entry = entry_of (lookup host s.attempts) now

      counted : Attempts
      counted = record entry { count = entry.count + 1 }

  -- Every call of allowLogin keeps the limits: at most ten attempts counted for a host, sixty in all, and
  -- 1024 hosts.
  pub allow_login-Limits :
      (g : Platform) (now : ℕ) (remote : Text) (s : Server V)
      → Limits s
      → Limits (allow_login g now remote s).0
  unfolding allow_login
  allow_login-Limits g now remote s v =
      count_attempt-Limits _ now (purge_attempts now s) (purge_attempts-Limits now s v)

  -- Nothing else of the server changes.
  pub allow_login-rest :
      (g : Platform) (now : ℕ) (remote : Text) (s : Server V)
      → let t = (allow_login g now remote s).0 in
        t ≡ record s { attempts = t.attempts; global = t.global }
  unfolding allow_login purge_attempts
  allow_login-rest g now remote s = ground arith

-- A sequence of attempts, each a time and a remote address, and how many of them are admitted.
abbrev counted_if : Bool → ℕ → ℕ
counted_if true n = suc n
counted_if false n = n

-- Whether a time lies in the minute that began with `since`.
abbrev pub InWindow : ℕ → ℕ × Text → Type 0
InWindow since call = call.0 < since + minute

module _ {V : Type 0} (g : Platform) where
  unfoldable pub admitted : List (ℕ × Text) → Server V → ℕ
  admitted [] s = 0
  admitted ((now, remote) ∷ calls) s =
      let (t, allowed) = allow_login g now remote s in counted_if allowed (admitted calls t)

  -- Where the minute of the limit has not passed, an admitted attempt is counted once.
  allow_login-count :
      (now : ℕ) (remote : Text) (s : Server V)
      → now < s.global.since + minute
      → let (t, allowed) = allow_login g now remote s in
        (t.global.since ≡ s.global.since)
        × (t.global.count ≡ counted_if allowed s.global.count)
        × (allowed ≡ true → s.global.count < 60)
  unfolding allow_login purge_attempts
  allow_login-count now remote s h = ground arith

  -- In one minute of the global window no sequence of attempts, from whatever hosts, has more than
  -- sixty admitted, those that were admitted before it counted.
  pub admitted-le :
      (calls : List (ℕ × Text)) (s : Server V)
      → s.global.count ≤ 60
      → AllOf (InWindow s.global.since) calls
      → admitted calls s + s.global.count ≤ 60
  unfolding admitted
  admitted-le [] s b h = omega arith
  admitted-le ((now, remote) ∷ calls) s b h =
      let c = allow_login-count now remote s h.0 in
      let t = (allow_login g now remote s).0 in
      let later = subst (λ since. AllOf (InWindow since) calls) (sym c.0) h.1 in
      elim (Bool-cases (allow_login g now remote s).1) [
        | inl y ↦
            let room = c.2 y in
            let count : t.global.count ≡ suc s.global.count = c.1 ∙ rw y refl in
            rw y (omega (arith, admitted-le calls t (omega arith) later))
        | inr n ↦
            let count : t.global.count ≡ s.global.count = c.1 ∙ rw n refl in
            rw n (omega (arith, admitted-le calls t (omega arith) later))
      ]
