-- ===== src/Node/Histories.antt =====
-- core/internal/node/pairing.go and device_auth.go: histories of the critical sections that touch the
-- pairing, in any order and from any number of handlers.
use easyprivacy.Platform.{Platform}
use easyprivacy.Vpn.Types.{Control}
use easyprivacy.Base.{
  Option-cases, Bool, false, true, Text, List, [], ◌∷◌, Option, Error, ℕ, none, some, inl, inr,
  arith,
}
use easyprivacy.Node.Pairing.{start_locked, new_pairing_code, clear_pairings, StartInput}
use easyprivacy.Node.Server.{PairingCode, Server}
use easyprivacy.Node.Enrollment.{
  enroll_judged, enroll_locked, finish_locked, EnrollInput, Ticket, FinishInput, enroll_finish,
}
use easyprivacy.Node.DeviceAuth.{remove_from, forget_code, forget_device, revoke_locked}
use easyprivacy.Node.Pairing.Budget.{start_locked-Budget, new_pairing_code-Budget, Budget}
use easyprivacy.Node.Enrollment.Budget.{
  commit_locked-Budget, enroll_locked-Budget, finish_locked-Budget,
}
use easyprivacy.Node.Sessions.{password_matches}
use easyprivacy.Node.Devices.{revoke}

-- One critical section, with the clock, the randomness and the write error that it meets.
pub data Event (V : Type 0) : Type 0 where
  makes_code : (now : ℕ) → Option ℕ → (generation creator : Text) → Event V
  starts : (now : ℕ) (id seed : Text) → StartInput → Event V
  finishes : (now : ℕ) → FinishInput → Event V
  enrolls : (now : ℕ) → EnrollInput → Event V
  completes : Option Error → (now : ℕ) → Ticket → Event V
  revokes : Control V → Option Error → (id : Text) → Event V

module _ {V : Type 0} (g : Platform) where
  unfoldable pub after : Server V → Event V → Server V
  after s (makes_code now drawn generation creator) =
      (new_pairing_code g now drawn generation creator s).0
  after s (starts now id seed i) = (start_locked g now id seed i s).0
  after s (finishes now i) = (finish_locked g now i s).0
  after s (enrolls now i) = (enroll_locked g now i s).0
  after s (completes fault now k) = (enroll_finish g fault now k s).0
  after s (revokes control fault id) = (revoke_locked g control fault id s).0

  unfoldable pub history : Server V → List (Event V) → Server V
  unfolding after
  history s [] = s
  history s (e ∷ es) = history (after s e) es

  enroll_judged-Budget :
      (fault : Option Error) (now : ℕ) (k : Ticket) (o : Option Bool) (s : Server V)
      → Budget s
      → Budget (enroll_judged g fault now k o s).0
  enroll_judged-Budget fault now k none s b = b
  enroll_judged-Budget fault now k (some false) s b = b
  enroll_judged-Budget fault now k (some true) s b = commit_locked-Budget g fault now k s b

  enroll_finish-Budget :
      (fault : Option Error) (now : ℕ) (k : Ticket) (s : Server V)
      → Budget s
      → Budget (enroll_finish g fault now k s).0
  unfolding enroll_finish
  enroll_finish-Budget fault now k s b =
      enroll_judged-Budget fault now k (password_matches g s.state k.input.credentials) s b

  forget_code-Budget :
      (id : Text) (c : Option PairingCode) (s : Server V) → Budget s → Budget (forget_code g id c s)
  unfolding clear_pairings
  forget_code-Budget id none s b = b
  forget_code-Budget id (some c) s b = ground arith

  remove_from-Budget :
      (control : Control V) (id : Text) (v : Option V) (s : Server V)
      → Budget s
      → Budget (remove_from g control id v s).0
  remove_from-Budget control id none s b = b
  remove_from-Budget control id (some v) s b = b

  revoke_locked-Budget :
      (control : Control V) (fault : Option Error) (id : Text) (s : Server V)
      → Budget s
      → Budget (revoke_locked g control fault id s).0
  unfolding revoke_locked forget_device
  revoke_locked-Budget control fault id s b = elim (Option-cases (revoke fault id s.devices).1) [
    | inl e ↦
        rw (e, revoke_locked) (remove_from-Budget control id _ _ (forget_code-Budget id s.code _ b))
    | inr (x, e) ↦ rw (e, revoke_locked) b
  ]

  -- Where the open exchanges and enrollments are no more than the attempts of the code, which are
  -- at most five, and there are none without a code, that is so after every history of critical
  -- sections.
  pub history-Budget : (es : List (Event V)) (s : Server V) → Budget s → Budget (history s es)
  unfolding history
  history-Budget [] s b = b
  history-Budget (makes_code now drawn generation creator ∷ es) s b =
      history-Budget es _ (new_pairing_code-Budget g now drawn generation creator s b)
  history-Budget (starts now id seed i ∷ es) s b =
      history-Budget es _ (start_locked-Budget g now id seed i s b)
  history-Budget (finishes now i ∷ es) s b = history-Budget es _ (finish_locked-Budget g now i s b)
  history-Budget (enrolls now i ∷ es) s b = history-Budget es _ (enroll_locked-Budget g now i s b)
  history-Budget (completes fault now k ∷ es) s b =
      history-Budget es _ (enroll_finish-Budget fault now k s b)
  history-Budget (revokes control fault id ∷ es) s b =
      history-Budget es _ (revoke_locked-Budget control fault id s b)
