-- ===== src/Node/Enrollment/Budget.antt =====
-- core/internal/node/pairing.go: what the end of an exchange and an enrollment do to the guesses of the
-- code.
use easyprivacy.Platform.{Platform}
use easyprivacy.Node.Pake
use easyprivacy.Base.{
  size-insert_le, insert, length, size-delete_lt, size-insert-some, delete, arith, lookup, Text,
  Error, Option-cases, Outcome, Option, ℕ, some, none, inr, inl, ◌+◌, suc, failed, done,
}
use easyprivacy.Node.Enrollment.{
  new_enrollment, take_exchange, finish_exchange, prove_exchange, Ticket, EnrollInput,
  commit_locked, enroll_locked, finish_locked, FinishInput,
}
use easyprivacy.Node.Server.{PairingCode, Server, PairingExchange}
use easyprivacy.Node.Pairing.{clear_pairings}
use easyprivacy.Node.Pairing.Budget.{Paid-mono, open_count, Paid, Budget}

module _ {V : Type 0} (g : Platform) where
  prove_exchange-Budget :
      (i : FinishInput) (p : PairingExchange) (c : PairingCode) (key : Outcome Text) (s : Server V)
      → Paid s.code (suc (open_count s))
      → Budget (prove_exchange g i p c key s).0
  prove_exchange-Budget i p c (failed e) s b =
      Paid-mono s.code _ (suc (open_count s)) (omega arith) b
  prove_exchange-Budget i p c (done key) s b =
      let fresh = new_enrollment g s.next_ref p c key in
      ground (
        arith,
        Paid-mono s.code (open_count s) (suc (open_count s)),
        Paid-mono s.code (length s.pairings + length (insert i.id fresh s.enrollments))
            (suc (open_count s)),
        size-insert_le {0} i.id fresh s.enrollments,
      )

  finish_exchange-Budget :
      (now : ℕ) (i : FinishInput) (p : PairingExchange) (o : Option PairingCode) (s : Server V)
      → Paid s.code (suc (open_count s))
      → Budget (finish_exchange g now i p o s).0
  finish_exchange-Budget now i p none s b = Paid-mono s.code _ (suc (open_count s)) (omega arith) b
  finish_exchange-Budget now i p (some c) s b = ground (
    arith,
    Paid-mono s.code (open_count s) (suc (open_count s)),
    prove_exchange-Budget i p c (Pake.finish g p.pake i.message s.native).1
        (record s { native = (Pake.finish g p.pake i.message s.native).0 }) b,
  )

  pub finish_locked-Budget :
      (now : ℕ) (i : FinishInput) (s : Server V) → Budget s → Budget (finish_locked g now i s).0
  unfolding finish_locked
  finish_locked-Budget now i s b = elim (Option-cases (lookup i.id s.pairings)) [
    | inl e ↦ rw (e, take_exchange) b
    | inr (p, e) ↦
        rw (e, take_exchange)
          (finish_exchange-Budget now i p s.code (record s { pairings = delete i.id s.pairings })
            (Paid-mono s.code _ (open_count s)
              (omega (arith, size-delete_lt {0} i.id p s.pairings e)) b))
  ]

  pub enroll_locked-Budget :
      (now : ℕ) (i : EnrollInput) (s : Server V) → Budget s → Budget (enroll_locked g now i s).0
  unfolding enroll_locked
  enroll_locked-Budget now i s b = elim (Option-cases (lookup i.id s.enrollments)) [
    | inl e ↦ rw (e, enroll_locked) b
    | inr (p, e) ↦ ground (
      arith,
      size-insert-some {0} i.id (record p { attempts = p.attempts + 1 }) p s.enrollments e,
    )
  ]

  pub commit_locked-Budget :
      (fault : Option Error) (now : ℕ) (k : Ticket) (s : Server V)
      → Budget s
      → Budget (commit_locked g fault now k s).0
  unfolding commit_locked clear_pairings
  commit_locked-Budget fault now k s b = ground arith
