-- ===== src/Node/Pairing/Budget.antt =====
-- core/internal/node/pairing.go: the guesses that a pairing code allows. Open exchanges and verified
-- enrollments are paid for with the attempts of the code.
use easyprivacy.Platform.{Platform}
use easyprivacy.Node.Pake
use easyprivacy.Base.{
  size-insert_le, Outcome-cases, Option-cases, size-retain, Text, arith, length, ℕ, Option, some,
  none, inr, inl, ◌≡◌, ◌<◌, ◌≤◌, ◌+◌,
}
use easyprivacy.Node.Server.{before, PairingCode, Server}
use easyprivacy.Node.Pairing.{
  clear_pairings, new_pairing_code, new_exchange, start_with, pairing_context, usable_code,
  StartInput, max_attempts, start_locked, begin_exchange, purge_pairings,
}
use easyprivacy.Node.State.{fingerprint}

-- `n` open exchanges and enrollments, under the code that there is.
abbrev pub Paid : Option PairingCode → ℕ → Type 0
Paid none n = n ≡ 0
Paid (some c) n = (n ≤ c.attempts) × (c.attempts ≤ max_attempts)

module _ {V : Type 0} where
  abbrev pub open_count : Server V → ℕ
  open_count s = length s.pairings + length s.enrollments

  abbrev pub Budget : Server V → Type 0
  Budget s = Paid s.code (open_count s)

pub Paid-mono : (c : Option PairingCode) (m n : ℕ) → m ≤ n → Paid c n → Paid c m
Paid-mono none m n h p = omega arith
Paid-mono (some c) m n h p = omega arith

usable_code_lem :
    (now : ℕ) (o : Option PairingCode) (c : PairingCode)
    → usable_code now o ≡ some c
    → (o ≡ some c) × (c.attempts < max_attempts) × (now < c.expires_at)
usable_code_lem now none c e = cc
usable_code_lem now (some d) c e = ground arith

module _ {V : Type 0} (g : Platform) where
  purge_pairings-Budget : (now : ℕ) (s : Server V) → Budget s → Budget (purge_pairings g now s)
  unfolding purge_pairings
  purge_pairings-Budget now s b =
      Paid-mono s.code _ (open_count s)
        (omega (
          arith,
          size-retain {0} (λ k p. before now p.expires_at) s.pairings,
          size-retain {0} (λ k p. before now p.expires_at) s.enrollments,
        ))
        b

  begin_exchange-Budget :
      (now : ℕ) (id seed : Text) (i : StartInput) (c : PairingCode) (s : Server V)
      → c.attempts < max_attempts
      → s.code ≡ some c
      → Budget s
      → Budget (begin_exchange g now id seed i c s).0
  unfolding begin_exchange
  begin_exchange-Budget now id seed i c s room e b =
      let context = pairing_context g id i.target i.name i.public_key (fingerprint g s.state) in
      elim (Outcome-cases (Pake.start g 1 c.code context seed s.native).1) [
        | inl (x, p) ↦
            ground (arith, size-insert_le {0} id (new_exchange now context i c x) s.pairings)
        | inr (x, p) ↦ ground arith
      ]

  pub start_locked-Budget :
      (now : ℕ) (id seed : Text) (i : StartInput) (s : Server V)
      → Budget s
      → Budget (start_locked g now id seed i s).0
  unfolding start_locked
  start_locked-Budget now id seed i s b = elim (Option-cases (usable_code now t.code)) [
    | inl e ↦ rw (e, start_with) kept
    | inr (c, e) ↦
        let (h, room, fresh) = usable_code_lem now t.code c e in
        rw (e, start_with) (begin_exchange-Budget now id seed i c t room h kept)
  ]
    where
      t : Server V
      t = purge_pairings g now s

      kept : Budget t
      kept = purge_pairings-Budget now s b

  pub new_pairing_code-Budget :
      (now : ℕ) (drawn : Option ℕ) (generation creator : Text) (s : Server V)
      → Budget s
      → Budget (new_pairing_code g now drawn generation creator s).0
  unfolding new_pairing_code clear_pairings
  new_pairing_code-Budget now drawn generation creator s b = ground arith
