-- ===== src/Setup/Exit/Order.antt =====
-- core/cmd/easyprivacy-node/vpn.go: which configuration of the exit is saved, and when the exit is enabled.
use easyprivacy.Platform.{Platform}
use easyprivacy.Setup.Exit.{
  after_core, ready_or, poll, by_state, not_ready, open_port, save_checked, enable_vpn, ready, Step,
  makes_directory, saves_config, writes_marker, writes_sysctl, sets_forwarding, allows_port,
  enables, polls, waits, Host, act, await_exit,
}
use easyprivacy.Vpn.Files.{generate_key, loaded, nothing_there}
use easyprivacy.Vpn.Types
use easyprivacy.Vpn.Shell.{ret, fields, Run, and_then-Ensures, ◌>>=◌, Ensures, of_outcome}
use easyprivacy.Vpn.Validate.{Config}
use easyprivacy.Base.{
  lit, not, fail_if, ap, Outcome, Option-cases, Error, Outcome-cases, Bool, Option, ℕ, Text, List,
  ◌∷◌, [], some, none, false, true, inr, inl, ◌⊎◌, refl, ◌≡◌, suc, zero, failed, done,
}
use easyprivacy.Setup.Checks.{exit_checks-Accepted, exit_checks, Accepted}
use easyprivacy.Setup.Exit
use easyprivacy.Setup.Exit.{
  asked_config, set_up, vpn_setup, ask, number, text_or_empty, asks_host, asks_port, asks_subnet,
  asks_uplink, asks_dns,
}
use easyprivacy.Vpn.Files.{Loaded, unusable}
use easyprivacy.Node.State.{State}
use easyprivacy.Home.{device_after}
use easyprivacy.Setup.{detect_host}
use easyprivacy.Strconv.{port_number}

-- What the last save without an error has saved.
abbrev pub saved_exit : List Step → Option Config
saved_exit [] = none
saved_exit (saves_config c none ∷ h) = some c
saved_exit (_ ∷ h) = saved_exit h

-- The last step is an answer of the exit.
abbrev pub is_answer : Outcome Types.Exit → Bool
is_answer (done v) = true
is_answer (failed e) = false

abbrev pub is_answered : List Step → Bool
is_answered (polls r ∷ h) = is_answer r
is_answered _ = false

module _ (m : Host) (g : Platform) where
  -- The configuration is the one that was there, or was just saved.
  abbrev pub InPlace : Config → List Step → Type 0
  InPlace c h = (m.config ≡ loaded c) ⊎ (saved_exit h ≡ some c)

  -- What may be saved.
  abbrev pub Checked : Config → Type 0
  Checked c = (m.config ≡ nothing_there) × Accepted g (m.udp_error c.port) m.all_routes c

  abbrev pub Justified : Step → List Step → Type 0
  Justified (saves_config c e) h = Checked c
  Justified (makes_directory e) h = m.config ≡ nothing_there
  Justified (writes_marker e) h = (c : Config) × InPlace c h
  Justified (writes_sysctl e) h = (c : Config) × InPlace c h
  Justified (sets_forwarding e) h = (c : Config) × InPlace c h
  Justified (allows_port port e) h = (c : Config) × InPlace c h × (c.port ≡ port)
  Justified (enables e) h = (c : Config) × InPlace c h
  Justified (polls r) h = Unit
  Justified waits h = Unit

  abbrev pub Ordered : List Step → Type 0
  Ordered [] = Unit
  Ordered (e ∷ h) = Justified e h × Ordered h

  act-Ensures :
      (Q : List Step → Type 0) (step : Option Error → Step) (h : List Step)
      → Ordered h
      → ((e : Option Error) → Justified (step e) h)
      → (m.error_of h ≡ none → Q (step none ∷ h))
      → Ensures Ordered (λ u t. Q t) (act m step h)
  act-Ensures Q step h o j k = elim (Option-cases (m.error_of h)) [
    | inl n ↦ rw n ((j none, o), k n)
    | inr (e, p) ↦ rw p ((j (some e), o), tt)
  ]

  poll-Ensures :
      (h : List Step) → Ordered h → Ensures Ordered (λ v t. is_answered t ≡ true) (poll m h)
  poll-Ensures h o = elim (Outcome-cases (m.exit_info h)) [
    | inl (v, p) ↦ rw p ((tt, o), ap is_answer p)
    | inr (e, p) ↦ rw p ((tt, o), tt)
  ]

  ready_or-Ensures :
      (rest : Run (List Step) Types.Exit) (r : List Step × Outcome Types.Exit)
      → Ensures Ordered (λ v t. is_answered t ≡ true) r
      → ((h : List Step) → Ordered h → Ensures Ordered (λ v t. is_answered t ≡ true) (rest h))
      → Ensures Ordered (λ v t. is_answered t ≡ true) (ready_or m rest r)
  ready_or-Ensures rest (h, done v) q k = q
  ready_or-Ensures rest (h, failed e) q k = k (waits ∷ h) (tt, q.0)

  await_exit-Ensures :
      (n : ℕ) (h : List Step)
      → Ordered h
      → Ensures Ordered (λ u t. is_answered t ≡ true) (await_exit m n h)
  unfolding await_exit
  await_exit-Ensures zero h o = poll-Ensures h o
  await_exit-Ensures (suc n) h o =
      ready_or-Ensures (await_exit m n) (poll m h) (poll-Ensures h o) (await_exit-Ensures n)

  not_ready-Ensures :
      (r : List Step × Outcome Types.Exit)
      → Ensures Ordered (λ v t. is_answered t ≡ true) r
      → Ensures Ordered (λ u t. is_answered t ≡ true) (not_ready m r)
  not_ready-Ensures (h, done v) q = q
  not_ready-Ensures (h, failed e) q = q

  ready-Ensures :
      (n : ℕ) (h : List Step)
      → Ordered h
      → Ensures Ordered (λ u t. is_answered t ≡ true) (ready m n h)
  ready-Ensures n h o = not_ready-Ensures (await_exit m n h) (await_exit-Ensures n h o)

  by_state-Ensures :
      (c : Config) (active inactive : Bool) (h : List Step)
      → Ordered h
      → InPlace c h
      → Ensures Ordered (λ u t. InPlace c t) (by_state m c.port active inactive h)
  by_state-Ensures c true inactive h o p =
      act-Ensures (InPlace c) (allows_port c.port) h o (λ e. (c, p, refl)) (λ n. p)
  by_state-Ensures c false true h o p = (o, p)
  by_state-Ensures c false false h o p = (o, tt)

  open_port-Ensures :
      (c : Config) (o : Option (Outcome Text)) (h : List Step)
      → Ordered h
      → InPlace c h
      → Ensures Ordered (λ u t. InPlace c t) (open_port m c.port o h)
  open_port-Ensures c none h o p = (o, p)
  open_port-Ensures c (some (failed e)) h o p = (o, tt)
  open_port-Ensures c (some (done status)) h o p = by_state-Ensures c _ _ h o p

  enable_vpn-Ensures :
      (rounds : ℕ) (c : Config) (h : List Step)
      → Ordered h
      → InPlace c h
      → Ensures Ordered (λ u t. is_answered t ≡ true) (enable_vpn m rounds c h)
  unfolding enable_vpn
  enable_vpn-Ensures rounds c h o p =
      let I : Unit {0} → List Step → Type 0 = λ u t. InPlace c t in
      let R : Unit {0} → List Step → Type 0 = λ u t. is_answered t ≡ true in
      and_then-Ensures Ordered I R (act m writes_marker h) _
        (act-Ensures (InPlace c) writes_marker h o (λ e. (c, p)) (λ n. p))
        (λ u t q r.
          and_then-Ensures Ordered I R (act m writes_sysctl t) _
            (act-Ensures (InPlace c) writes_sysctl t q (λ e. (c, r)) (λ n. r))
            (λ u a i j.
              and_then-Ensures Ordered I R (act m sets_forwarding a) _
                (act-Ensures (InPlace c) sets_forwarding a i (λ e. (c, j)) (λ n. j))
                (λ u b k l.
                  and_then-Ensures Ordered I R (open_port m c.port m.ufw_status b) _
                    (open_port-Ensures c m.ufw_status b k l)
                    (λ u d v w.
                      and_then-Ensures Ordered I R (act m enables d) _
                        (act-Ensures (InPlace c) enables d v (λ e. (c, w)) (λ n. w))
                        (λ u f y z. ready-Ensures rounds f y)))))

  saving :
      (c : Config) (h : List Step)
      → Ordered h
      → Checked c
      → Ensures Ordered
          (λ u t. InPlace c t)
          ((act m makes_directory >>= λ u. act m (saves_config c)) h)
  saving c h o k =
      and_then-Ensures Ordered (λ u t. Unit {0}) (λ u t. InPlace c t) (act m makes_directory h) _
        (act-Ensures (λ t. Unit {0}) makes_directory h o (λ e. k.0) (λ n. tt))
        (λ u t p q. act-Ensures (InPlace c) (saves_config c) t p (λ e. k) (λ n. inr refl))

  checked-Ensures :
      (c : Config) (r : Outcome (Unit {0})) (h : List Step)
      → exit_checks g (m.udp_error c.port) m.all_routes m.directory c ≡ r
      → Ordered h
      → m.config ≡ nothing_there
      → Ensures Ordered
          (λ u t. InPlace c t)
          ((of_outcome r >>= λ u. act m makes_directory >>= λ v. act m (saves_config c)) h)
  checked-Ensures c (failed e) h p o n = (o, tt)
  checked-Ensures c (done u) h p o n =
      saving c h o (n, exit_checks-Accepted g (m.udp_error c.port) m.all_routes m.directory c p)

  save_checked-Ensures :
      (c : Config) (h : List Step)
      → Ordered h
      → m.config ≡ nothing_there
      → Ensures Ordered (λ u t. InPlace c t) (save_checked m g c h)
  unfolding save_checked
  save_checked-Ensures c h o n =
      checked-Ensures c (exit_checks g (m.udp_error c.port) m.all_routes m.directory c) h refl o n

  -- A value that is taken without a step.
  taken-Ensures :
      {A : Type 0} {B : Type 0} (Q : B → List Step → Type 0) (o : Outcome A)
      (k : A → Run (List Step) B) (h : List Step)
      → Ordered h
      → ((a : A) → Ensures Ordered Q (k a h))
      → Ensures Ordered Q ((of_outcome o >>= k) h)
  taken-Ensures Q (failed e) k h o f = (o, tt)
  taken-Ensures Q (done a) k h o f = f a

  asked_config-Ensures :
      (name : Text) (h : List Step)
      → Ordered h
      → Ensures Ordered (λ c t. Unit {0}) (asked_config m g name h)
  unfolding asked_config
  asked_config-Ensures name h o =
      let Q : Config → List Step → Type 0 = λ c t. Unit {0} in
      taken-Ensures Q m.default_route _ h o (λ printed.
        let detected = text_or_empty (device_after (fields printed)) in
        taken-Ensures Q (ask m g asks_host (detect_host g (m.interface_texts detected) detected)) _
          h o
          (λ host. taken-Ensures Q (ask m g asks_port (lit "51821")) _ h o (λ port_text.
            taken-Ensures Q (number m g (port_number port_text)) _ h o (λ port.
              taken-Ensures Q (ask m g asks_subnet (lit "10.87.0.0/24")) _ h o (λ subnet.
                taken-Ensures Q (ask m g asks_uplink detected) _ h o (λ uplink.
                  taken-Ensures Q (ask m g asks_dns (lit "1.1.1.1,9.9.9.9")) _ h o (λ dns.
                    taken-Ensures Q (generate_key g m.fresh_key)
                      (λ key. ret (Exit.answered m g name host port subnet uplink dns key)) h o
                      (λ key. (o, tt)))))))))

  set_up-Ensures :
      (rounds : ℕ) (state : State) (l : Loaded Config) (h : List Step)
      → m.config ≡ l
      → Ordered h
      → Ensures Ordered (λ u t. is_answered t ≡ true) (set_up m g rounds state l h)
  set_up-Ensures rounds state (loaded c) h p o = enable_vpn-Ensures rounds c h o (inl p)
  set_up-Ensures rounds state (unusable e) h p o = (o, tt)
  set_up-Ensures rounds state nothing_there h p o =
      let R : Unit {0} → List Step → Type 0 = λ u t. is_answered t ≡ true in
      taken-Ensures R (fail_if (not m.is_terminal) "VPN setup needs an interactive terminal") _ h o
        (λ u.
          and_then-Ensures Ordered (λ c t. Unit {0}) R (asked_config m g state.name h) _
            (asked_config-Ensures state.name h o)
            (λ c t q r.
              and_then-Ensures Ordered (λ u t. InPlace c t) R (save_checked m g c t) _
                (save_checked-Ensures c t q p) (λ u a i j. enable_vpn-Ensures rounds c a i j)))

  after_core-Ensures :
      (rounds : ℕ) (o : Outcome State)
      → Ensures Ordered (λ u t. is_answered t ≡ true) (after_core m g rounds o [])
  after_core-Ensures rounds (failed e) = (tt, tt)
  after_core-Ensures rounds (done state) = set_up-Ensures rounds state m.config [] refl tt

  -- In the steps of the setup of the exit, a configuration is saved only where none was there, and only one that
  -- is valid, whose port is free and whose network no listed route has; the marker, the settings of the kernel, the
  -- port of ufw and the service come only once a configuration is in place, the port being its own; and where the
  -- setup succeeds, its last step is an answer of the exit.
  pub vpn_setup-Ordered :
      (rounds : ℕ) → Ensures Ordered (λ u t. is_answered t ≡ true) (vpn_setup m g rounds [])
  unfolding vpn_setup
  vpn_setup-Ordered rounds = after_core-Ensures rounds m.core
