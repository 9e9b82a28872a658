-- ===== src/Setup/Core/Order.antt =====
-- core/cmd/easyprivacy-node/main.go: what setup saves, and what it does behind that.
use easyprivacy.Platform.{Platform}
use easyprivacy.Node.State.{State, check_certificate}
use easyprivacy.Setup.Answers.{asked_state, Asked, asked_state-Asked}
use easyprivacy.Setup.Core.{
  Step, saves, enables, asks_active, polls, waits, configures_firewall, Machine, save, enable,
  ask_active, await_health, wait_ready, host_firewall, start, open_firewall, set_up_core,
  install_state, save_error,
}
use easyprivacy.Vpn.Shell.{
  ◌>>=◌, of_outcome, and_then-Ensures, Ensures, of_outcome-Ensures, weaken-Ensures,
}
use easyprivacy.Base.{
  arith, Bool, Option, Outcome, List, ℕ, ◌∷◌, [], some, none, true, false, not, ◌&&◌, failed, done,
  zero, suc, refl, ◌≡◌, ◌⊎◌, inl, inr, Bool-cases, Option-cases, Outcome-cases,
}

-- What the last save without an error has saved.
abbrev pub saved : List Step → Option State
saved [] = none
saved (saves s none ∷ h) = some s
saved (_ ∷ h) = saved h

-- The service answered a poll.
abbrev pub was_healthy : List Step → Bool
was_healthy [] = false
was_healthy (polls true ∷ h) = true
was_healthy (_ ∷ h) = was_healthy h

module _ (g : Platform) (m : Machine) where
  -- A state that setup may have made is saved.
  abbrev pub Standing : List Step → Type 0
  Standing h = (s : State) × (saved h ≡ some s) × Asked g m.inputs s

  abbrev pub Justified : Step → List Step → Type 0
  Justified (saves s e) h = Asked g m.inputs s
  Justified (enables e) h = Standing h
  Justified (asks_active e) h = Standing h
  Justified (polls b) h = Standing h
  Justified waits h = Unit
  Justified (configures_firewall r) h = Standing h × (was_healthy h ≡ true)

  abbrev pub Ordered : List Step → Type 0
  Ordered [] = Unit
  Ordered (e ∷ h) = Justified e h × Ordered h

  -- A core that is installed has answered.
  abbrev pub Ready : List Step → Type 0
  Ready h = (m.inputs.is_installed ≡ false) ⊎ (was_healthy h ≡ true)

  module _ (s : State) (a : Asked g m.inputs s) where
    abbrev Saved : Unit {0} → List Step → Type 0
    Saved u h = saved h ≡ some s

    save-Ensures : (h : List Step) → Ordered h → Ensures Ordered Saved (save g m s h)
    save-Ensures h o = elim (Option-cases (save_error g m s)) [
      | inl n ↦ rw n ((a, o), refl)
      | inr (e, p) ↦ rw p ((a, o), tt)
    ]

    enable-Ensures : (h : List Step) → Ordered h → Saved tt h → Ensures Ordered Saved (enable g m h)
    enable-Ensures h o q = elim (Option-cases (m.error_of h)) [
      | inl n ↦ rw n (((s, q, a), o), q)
      | inr (e, p) ↦ rw p (((s, q, a), o), tt)
    ]

    ask_active-Ensures :
        (h : List Step) → Ordered h → Saved tt h → Ensures Ordered Saved (ask_active g m h)
    ask_active-Ensures h o q = elim (Option-cases (m.error_of h)) [
      | inl n ↦ rw n (((s, q, a), o), q)
      | inr (e, p) ↦ rw p (((s, q, a), o), tt)
    ]

    abbrev Answered : Unit {0} → List Step → Type 0
    Answered u h = Saved u h × (was_healthy h ≡ true)

    await_health-Ensures :
        (n : ℕ) (h : List Step)
        → Ordered h
        → Saved tt h
        → Ensures Ordered Answered (await_health g m n h)
    unfolding await_health
    await_health-Ensures zero h o q = (o, tt)
    await_health-Ensures (suc n) h o q = elim (Bool-cases (m.is_healthy h)) [
      | inl y ↦ rw y (((s, q, a), o), (q, refl))
      | inr f ↦ rw f (await_health-Ensures n (waits ∷ polls false ∷ h) (tt, ((s, q, a), o)) q)
    ]

    wait_ready-Ensures :
        (n : ℕ) (h : List Step)
        → Ordered h
        → Saved tt h
        → Ensures Ordered Answered (wait_ready g m n s h)
    wait_ready-Ensures n h o q =
        and_then-Ensures Ordered Saved Answered (h, check_certificate g m.now s) _
          (of_outcome-Ensures Ordered Saved (check_certificate g m.now s) h o (λ u e. q))
          (λ u t p r. await_health-Ensures n t p r)

    -- The service is started where the core is installed.
    abbrev Started : (is_installed : Bool) → Unit {0} → List Step → Type 0
    Started b u h = Saved u h × ((b ≡ false) ⊎ (was_healthy h ≡ true))

    start-Ensures :
        (n : ℕ) (b : Bool) (h : List Step)
        → Ordered h
        → Saved tt h
        → Ensures Ordered (Started b) (start g m n b s h)
    start-Ensures n false h o q = (o, (q, inl refl))
    start-Ensures n true h o q =
        and_then-Ensures Ordered Saved (Started true) (enable g m h) _ (enable-Ensures h o q)
          (λ u t p r.
            and_then-Ensures Ordered Saved (Started true) (ask_active g m t) _
              (ask_active-Ensures t p r)
              (λ u k i j.
                weaken-Ensures Ordered Answered (Started true) (wait_ready g m n s k)
                  (wait_ready-Ensures n k i j) (λ u l y. (y.0, inr y.1))))

    open_firewall-Ensures :
        (b skip : Bool) (h : List Step)
        → Ordered h
        → Started b tt h
        → Ensures Ordered (Started b) (open_firewall g m (b && not skip) s h)
    open_firewall-Ensures false skip h o q = (o, q)
    open_firewall-Ensures true true h o q = (o, q)
    open_firewall-Ensures true false h o (q, inl r) = absurd (ground arith)
    open_firewall-Ensures true false h o (q, inr r) = elim (Outcome-cases (host_firewall g m s)) [
      | inl (v, p) ↦ rw p ((((s, q, a), r), o), (q, inr r))
      | inr (e, p) ↦ rw p ((((s, q, a), r), o), tt)
    ]

    install_state-Ensures :
        (n : ℕ) (skip : Bool)
        → Ensures Ordered (λ t h. (saved h ≡ some t) × Ready h) (install_state g m n skip s [])
    install_state-Ensures n skip =
        let b = m.inputs.is_installed in
        let R : State → List Step → Type 0 = λ t h. (saved h ≡ some t) × Ready h in
        and_then-Ensures Ordered Saved R (save g m s []) _ (save-Ensures [] tt) (λ u h o q.
          and_then-Ensures Ordered (Started b) R (start g m n b s h) _ (start-Ensures n b h o q)
            (λ u k p r.
              and_then-Ensures Ordered (Started b) R (open_firewall g m (b && not skip) s k) _
                (open_firewall-Ensures b skip k p r) (λ u l i j. (i, j))))

  asked-Ensures :
      (n : ℕ) (skip : Bool) (o : Outcome State)
      → asked_state g m.inputs ≡ o
      → Ensures Ordered
          (λ t h. (saved h ≡ some t) × Ready h)
          ((of_outcome o >>= install_state g m n skip) [])
  asked-Ensures n skip (failed e) p = (tt, tt)
  asked-Ensures n skip (done s) p =
      install_state-Ensures s (asked_state-Asked g m.inputs s p) n skip

  -- In the steps of the setup of a core, a state is saved only where no core was configured, and only one that NewState
  -- makes of a port that is free and a password that was typed twice; the service is enabled and polled only once it is
  -- saved, and the firewall is configured only once the service has answered; and where the setup succeeds, its state
  -- is the one saved, and the service has answered unless the core is not an installed one.
  pub set_up_core-Ordered :
      (rounds : ℕ) (skip_firewall : Bool)
      → Ensures Ordered
          (λ t h. (saved h ≡ some t) × Ready h)
          (set_up_core g m rounds skip_firewall [])
  unfolding set_up_core
  set_up_core-Ordered rounds skip_firewall =
      asked-Ensures rounds skip_firewall (asked_state g m.inputs) refl
