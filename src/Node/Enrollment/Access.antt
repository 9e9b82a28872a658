-- ===== src/Node/Enrollment/Access.antt =====
-- core/internal/node/pairing.go: what a device has shown when it is recorded.
use easyprivacy.Platform.{Platform}
use easyprivacy.Base.{
  Option-cases, Error, Option, lookup, ℕ, [], Text, ◌≡◌, ◌<◌, inl, inr, some, none, true, false,
  arith,
}
use easyprivacy.Node.Server.{enrolled, PairingCode, Enrollment, Server, reply}
use easyprivacy.Node.Enrollment.{enrollment_valid, commit_locked, Ticket, enroll_finish}
use easyprivacy.Node.Sessions.{password_matches}
use easyprivacy.Node.Pairing.{creator_active, clear_pairings}

module _ {V : Type 0} (g : Platform) where
  -- The state of the pairing in which a device is recorded: the account's password, the enrollment
  -- that was verified, still in its place, and the code that it came from.
  pub record MayEnroll (now : ℕ) (k : Ticket) (s : Server V) : Type 0 where
    pub password : password_matches g s.state k.input.credentials ≡ some true
    pub pending : Enrollment
    pub stored : lookup k.input.id s.enrollments ≡ some pending
    pub unchanged : pending.ref ≡ k.pending.ref
    pub code : PairingCode
    pub current : s.code ≡ some code
    pub of_code : k.pending.generation ≡ code.generation
    pub in_time : (now < k.pending.expires_at) × (now < code.expires_at)
    pub creator : creator_active g code s ≡ true

  -- The pairing is over: no code, exchange or enrollment is left.
  pub record Closed (s : Server V) : Type 0 where
    pub no_code : s.code ≡ none
    pub no_pairings : s.pairings ≡ []
    pub no_enrollments : s.enrollments ≡ []

  commit_locked_sound :
      (fault : Option Error) (now : ℕ) (k : Ticket) (id : Text) (s : Server V)
      → password_matches g s.state k.input.credentials ≡ some true
      → (commit_locked g fault now k s).1 ≡ reply (enrolled id)
      → MayEnroll now k s × Closed (commit_locked g fault now k s).0
  unfolding commit_locked clear_pairings enrollment_valid
  commit_locked_sound fault now k id s ok h =
      elim (Option-cases (lookup k.input.id s.enrollments)) [
        | inl e ↦ absurd (ground arith)
        | inr (p, e) ↦ elim (Option-cases s.code) [
          | inl n ↦ absurd (ground arith)
          | inr (c, q) ↦ (
            record {
              password = ok;
              pending = p;
              stored = e;
              unchanged = ground arith;
              code = c;
              current = q;
              of_code = ground arith;
              in_time = ground arith;
              creator = ground arith;
            },
            record {
              no_code = ground arith;
              no_pairings = ground arith;
              no_enrollments = ground arith;
            },
          )
        ]
      ]

  -- A device is answered as enrolled only with the password of the account, for an enrollment that is
  -- the one that was reserved, under the code that is still there, before both expire and with its
  -- creator authorized; the pairing is over then.
  pub enroll_finish_sound :
      (fault : Option Error) (now : ℕ) (k : Ticket) (id : Text) (s : Server V)
      → (enroll_finish g fault now k s).1 ≡ reply (enrolled id)
      → MayEnroll now k s × Closed (enroll_finish g fault now k s).0
  unfolding enroll_finish
  enroll_finish_sound fault now k id s h =
      elim (Option-cases (password_matches g s.state k.input.credentials)) [
        | inl e ↦ absurd (ground arith)
        | inr (false, e) ↦ absurd (ground arith)
        | inr (true, e) ↦
            let (m, c) = commit_locked_sound fault now k id s e (ground arith) in
            (
              m,
              rw (e, enroll_finish)
                  (record {
                    no_code = c.no_code;
                    no_pairings = c.no_pairings;
                    no_enrollments = c.no_enrollments;
                  }),
            )
      ]
