-- ===== src/Windows/Install/Order.antt =====
-- native/windows-vpn/main_windows.go: what install writes, and when it starts the supervisor.
use easyprivacy.Windows.Approval.{approved-Approved, approved, Machine, Approved}
use easyprivacy.Windows.Install.{
  place, stop_old, retry, or_create, install, await_old, begun_or_running, program_of, driver_of,
  owner_of, write_files,
}
use easyprivacy.Windows.Services.{
  refused, waits, opened, missing, is_stopped, opens, stops, start_service, query, ServiceState,
  Opening, open_service, connect_manager, stop_service, create_service, Event, tunnel, supervisor,
  writes, starts, creates, Starting, begun, already_running, not_begun, write_private,
}
use easyprivacy.Vpn.Shell.{Run, and_then-Ensures, Ensures, of_outcome, ◌>>=◌}
use easyprivacy.Base.{
  lit, Outcome, failed, done, List, Text, ℕ, Bool, Bool-cases, Option-cases, ◌∷◌, [], none, true,
  false, refl, ◌≡◌, zero, suc, inl, inr,
}

-- The files that were written without an error, the last first.
abbrev pub files : List Event → List (Text × Text)
files [] = []
files (writes p t none ∷ h) = (p, t) ∷ files h
files (_ ∷ h) = files h

-- The supervisor was started, or was found to be running, by the last event.
abbrev pub is_started : Starting → Bool
is_started begun = true
is_started already_running = true
is_started (not_begun e) = false

abbrev pub started_last : List Event → Bool
started_last (starts supervisor r ∷ h) = is_started r
started_last _ = false

module _ (m : Machine) (owner : Text) where
  module _ (paths : Text × Text) (raw : Text) where
    -- The files of the helper, as many as the number says.
    abbrev pub placed : ℕ → List (Text × Text)
    placed zero = []
    placed (suc zero) = (program_of paths, raw) ∷ []
    placed (suc (suc zero)) = (driver_of paths, m.driver) ∷ (program_of paths, raw) ∷ []
    placed _ = (owner_of paths, owner) ∷ (driver_of paths, m.driver) ∷ (program_of paths, raw) ∷ []

  -- The files are the first so many of those of an approved installation.
  pub record Placed (n : ℕ) (h : List (Text × Text)) : Type 0 where
    pub paths : Text × Text
    pub raw : Text
    pub approved : Approved m owner paths raw
    pub written : h ≡ placed paths raw n

  -- What stands behind each event.
  abbrev pub Justified : Event → List Event → Type 0
  Justified (writes p t r) h = (n : ℕ) × Placed n (files h) × Placed (suc n) ((p, t) ∷ files h)
  Justified (creates supervisor program args r) h = Placed 3 (files h)
  Justified (creates tunnel program args r) h = ⊥
  Justified (starts supervisor r) h = Placed 3 (files h)
  Justified (starts tunnel r) h = ⊥
  Justified _ h = Unit

  abbrev pub Ordered : List Event → Type 0
  Ordered [] = Unit
  Ordered (e ∷ h) = Justified e h × Ordered h

  module _ (paths : Text × Text) (raw : Text) (a : Approved m owner paths raw) where
    -- So many files are in place.
    abbrev At : ℕ → List Event → Type 0
    At n h = files h ≡ placed paths raw n

    at_placed : (n : ℕ) (h : List (Text × Text)) → h ≡ placed paths raw n → Placed n h
    at_placed n h p = record { paths = paths; raw = raw; approved = a; written = p }

    write-Ensures :
        (n : ℕ) (p t : Text) (h : List Event)
        → ((p, t) ∷ placed paths raw n) ≡ placed paths raw (suc n)
        → Ordered h
        → At n h
        → Ensures Ordered (λ u k. At (suc n) k) (write_private m.host p t h)
    unfolding write_private
    write-Ensures n p t h next o q =
        let now : ((p, t) ∷ files h) ≡ placed paths raw (suc n) = rw q next in
        let why : (k : ℕ) × Placed k (files h) × Placed (suc k) ((p, t) ∷ files h) =
          (n, at_placed n (files h) q, at_placed (suc n) ((p, t) ∷ files h) now) in
        elim (Bool-cases (m.host.is_unsafe h p)) [
          | inl y ↦ rw y (o, tt)
          | inr f ↦ elim (Option-cases (m.host.write_error h p t)) [
            | inl s ↦ rw (f, s) ((why, o), now)
            | inr (e, s) ↦ rw (f, s) ((why, o), tt)
          ]
        ]

    files-Ensures :
        (h : List Event)
        → Ordered h
        → At 0 h
        → Ensures Ordered (λ u k. At 3 k) (write_files m owner paths raw h)
    files-Ensures h o q =
        and_then-Ensures Ordered (λ u k. At 1 k) (λ u k. At 3 k)
          (write_private m.host (program_of paths) raw h) _
          (write-Ensures 0 (program_of paths) raw h refl o q)
          (λ u k p r.
            and_then-Ensures Ordered (λ u k. At 2 k) (λ u k. At 3 k)
              (write_private m.host (driver_of paths) m.driver k) _
              (write-Ensures 1 (driver_of paths) m.driver k refl p r)
              (λ u l s t. write-Ensures 2 (owner_of paths) owner l refl s t))

    created-Ensures :
        (h : List Event)
        → Ordered h
        → At 3 h
        → Ensures Ordered
            (λ u k. At 3 k)
            (create_service m.host supervisor (program_of paths) (lit "--service" ∷ []) h)
    unfolding create_service
    created-Ensures h o q =
        let e = m.host.creation_error h supervisor (program_of paths) (lit "--service" ∷ []) in
        let why = at_placed 3 (files h) q in
        elim (Option-cases e) [ inl n ↦ rw n ((why, o), q) | inr (x, p) ↦ rw p ((why, o), tt) ]

    create-Ensures :
        (b : Opening) (h : List Event)
        → Ordered h
        → At 3 h
        → Ensures Ordered (λ u k. At 3 k) (or_create m (program_of paths) b h)
    unfolding create_service
    create-Ensures opened h o q = (o, q)
    create-Ensures missing h o q = created-Ensures h o q
    create-Ensures (refused e) h o q = created-Ensures h o q

    start-Ensures :
        (b : Starting) (h : List Event)
        → Ordered (starts supervisor b ∷ h)
        → Ensures Ordered
            (λ u k. started_last k ≡ true)
            (begun_or_running m b (starts supervisor b ∷ h))
    start-Ensures begun h o = (o, refl)
    start-Ensures already_running h o = (o, refl)
    start-Ensures (not_begun e) h o = (o, tt)

    retry-Ensures :
        (n : ℕ) (rest : Run (List Event) (Unit {0})) (r : List Event × Outcome ServiceState)
        → Ordered r.0
        → At n r.0
        → ((h : List Event) → Ordered h → At n h → Ensures Ordered (λ u k. At n k) (rest h))
        → Ensures Ordered (λ u k. At n k) (retry m rest r)
    retry-Ensures n rest (h, failed e) o q k = k (waits ∷ h) (tt, o) q
    retry-Ensures n rest (h, done v) o q k = elim (Bool-cases (is_stopped v)) [
      | inl y ↦ rw y (o, q)
      | inr f ↦ rw f (k (waits ∷ h) (tt, o) q)
    ]

    await_old-Ensures :
        (n : ℕ) (h : List Event)
        → Ordered h
        → At 0 h
        → Ensures Ordered (λ u k. At 0 k) (await_old m n h)
    unfolding await_old query
    await_old-Ensures zero h o q = (o, q)
    await_old-Ensures (suc n) h o q =
        retry-Ensures 0 (await_old m n) (query m.host supervisor h) (tt, o) q (await_old-Ensures n)

    stop_old-Ensures :
        (b : Opening) (h : List Event)
        → Ordered h
        → At 0 h
        → Ensures Ordered (λ u k. At 0 k) (stop_old m b h)
    unfolding stop_service
    stop_old-Ensures opened h o q =
        await_old-Ensures 30 (stops supervisor (m.host.stopping h supervisor) ∷ h) (tt, o) q
    stop_old-Ensures missing h o q = (o, q)
    stop_old-Ensures (refused e) h o q = (o, q)

    connect-Ensures : Ensures Ordered (λ u k. At 0 k) (connect_manager m.host [])
    unfolding connect_manager
    connect-Ensures = elim (Option-cases (m.host.connect_error [])) [
      | inl n ↦ rw n ((tt, tt), refl)
      | inr (e, p) ↦ rw p ((tt, tt), tt)
    ]

    place-Ensures : Ensures Ordered (λ u k. started_last k ≡ true) (place m owner paths raw [])
    unfolding open_service start_service
    place-Ensures =
        let R : Unit {0} → List Event → Type 0 = λ u k. started_last k ≡ true in
        let I : ℕ → Unit {0} → List Event → Type 0 = λ n u k. At n k in
        and_then-Ensures Ordered (I 0) R (connect_manager m.host []) _ connect-Ensures (λ u h o q.
          let b = m.host.opening h supervisor in
          and_then-Ensures Ordered (I 0) R (stop_old m b (opens supervisor b ∷ h)) _
            (stop_old-Ensures b (opens supervisor b ∷ h) (tt, o) q)
            (λ u k p r.
              and_then-Ensures Ordered (I 3) R (write_files m owner paths raw k) _
                (files-Ensures k p r)
                (λ u l s t.
                  let c = m.host.opening l supervisor in
                  and_then-Ensures Ordered (I 3) R
                    (or_create m (program_of paths) c (opens supervisor c ∷ l)) _
                    (create-Ensures c (opens supervisor c ∷ l) (tt, s) t)
                    (λ u j y z.
                      start-Ensures (m.host.starting j supervisor) j
                        (at_placed 3 (files j) z, y)))))

  approved-Ensures :
      (o : Outcome ((Text × Text) × Text))
      → approved m owner ≡ o
      → Ensures Ordered
          (λ u k. started_last k ≡ true)
          ((of_outcome o >>= λ a. place m owner a.0 a.1) [])
  approved-Ensures (failed e) p = (tt, tt)
  approved-Ensures (done (paths, raw)) p =
      place-Ensures paths raw (approved-Approved m owner paths raw p)

  -- In the events of an installation, files are written only behind its checks (an administrator runs it, the owner is
  -- a SID in its own text, both directories are private), and only the program, the driver and the owner, in this
  -- order; the supervisor is created and started only where all three were written, and the tunnel never; and where
  -- the installation succeeds, its last event is a start of the supervisor, or finds it running.
  pub install-Ordered : Ensures Ordered (λ u k. started_last k ≡ true) (install m owner [])
  unfolding install
  install-Ordered = approved-Ensures (approved m owner) refl
