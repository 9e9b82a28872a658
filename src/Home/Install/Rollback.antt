-- ===== src/Home/Install/Rollback.antt =====
-- core/cmd/easyprivacy-node/service.go: how installService ends.
use easyprivacy.Home.Install.{
  prepare, Host, Step, makes_directory, saves, opens_info, enables, service_file, site_file,
  info_file, succeeds,
}
use easyprivacy.Home.Install.Steps.{
  persisted, started, registered, install_service, Place, persist, start, save, make_directory,
  open_info, enable, overlaps, usable,
}
use easyprivacy.Platform.{Platform}
use easyprivacy.Home.{disconnect_site, register_site, SiteOutputs, ServiceConfig}
use easyprivacy.Vpn.SiteConfig.{SiteConfig}
use easyprivacy.Vpn.Routes.{check_routes}
use easyprivacy.Vpn.Shell.{Ends, and_then-Ends, of_outcome-Ends}
use easyprivacy.Base.{
  sym, arith, ap, Outcome-cases, Text, ℕ, Outcome, inr, inl, ◌⊎◌, failed, done, Error, Bool, Option,
  List, ◌∷◌, [], some, none, false, true, refl, ◌≡◌,
}
use easyprivacy.Link.{rejected, stopped, Result, got, Identity, Event, Web}

-- What the last save of service.json without an error has saved.
abbrev pub saved_config : List Step → Option ServiceConfig
saved_config [] = none
saved_config (saves (service_file c) none ∷ h) = some c
saved_config (_ ∷ h) = saved_config h

-- The service was enabled and started by the last step.
abbrev pub enabled : List Step → Bool
enabled (enables none ∷ h) = true
enabled _ = false

module _ (m : Host) where
  abbrev Holds : Option ServiceConfig → List Step → Type 0
  Holds o h = saved_config h ≡ o

  -- A step that saves no configuration.
  step-Ends :
      (P : List Step → Type 0) (Q : List Step → Type 0) (e : Option Error) (t : List Step)
      → ((x : Error) → e ≡ some x → P t)
      → (e ≡ none → Q t)
      → Ends {A = Unit {0}} P (λ u h. Q h) (t, succeeds e)
  step-Ends P Q none t f k = k refl
  step-Ends P Q (some x) t f k = f x refl

  make_directory-Ends :
      (o : Option ServiceConfig) (h : List Step)
      → Holds o h
      → Ends (Holds o) (λ u t. Holds o t) (make_directory m h)
  unfolding make_directory
  make_directory-Ends o h p =
      step-Ends (Holds o) (Holds o) (m.make_error h) (makes_directory (m.make_error h) ∷ h)
        (λ x e. p) (λ e. p)

  service_file-Ends :
      (c : ServiceConfig) (o : Option ServiceConfig) (h : List Step)
      → Holds o h
      → Ends (Holds o) (λ u t. Holds (some c) t) (save m (service_file c) h)
  unfolding save
  service_file-Ends c o h p =
      let e = m.save_error h (service_file c) in
      step-Ends (Holds o) (Holds (some c)) e (saves (service_file c) e ∷ h) (λ x f. rw f p)
        (λ n. rw n refl)

  persist-Ends :
      (g : Platform) (c : ServiceConfig) (site : SiteConfig) (h : List Step)
      → Ends (Holds (saved_config h)) (λ u t. Holds (some c) t) (persist m g c site h)
  unfolding persist
  persist-Ends g c site h =
      let P = Holds (saved_config h) in
      let R : Unit {0} → List Step → Type 0 = λ u t. Holds (some c) t in
      and_then-Ends P (λ routes t. P t) R (h, m.all_routes) _
        (of_outcome-Ends P (λ routes t. P t) m.all_routes h refl (λ a e. refl))
        (λ routes t q.
          and_then-Ends P (λ u t. P t) R (t, overlaps (check_routes g site.service.subnet routes)) _
            (of_outcome-Ends P (λ u t. P t) (overlaps (check_routes g site.service.subnet routes)) t
              q (λ a e. q))
            (λ u b y.
              and_then-Ends P (λ v t. P t) R (b, usable m.directory) _
                (of_outcome-Ends P (λ v t. P t) (usable m.directory) b y (λ a e. y))
                (λ v d z.
                  and_then-Ends P (λ v t. P t) R (make_directory m d) _
                    (make_directory-Ends (saved_config h) d z)
                    (λ i j k. service_file-Ends c (saved_config h) j k))))

  -- A step of start.
  abbrev Kept : ServiceConfig → List Step → Type 0
  Kept c h = Holds (some c) h

  start-Ends :
      (c : ServiceConfig) (site : SiteConfig) (h : List Step)
      → Holds (some c) h
      → Ends (Kept c) (λ u t. Holds (some c) t × (enabled t ≡ true)) (start m c site h)
  unfolding start save open_info enable
  start-Ends c site h p =
      let R : Unit {0} → List Step → Type 0 = λ u t. Holds (some c) t × (enabled t ≡ true) in
      let K : Unit {0} → List Step → Type 0 = λ u t. Kept c t in
      let e = m.save_error h (site_file site) in
      and_then-Ends (Kept c) K R (save m (site_file site) h) _
        (step-Ends (Kept c) (Kept c) e (saves (site_file site) e ∷ h) (λ x f. p) (λ n. p))
        (λ u t q.
          let v = info_file c.name c.identity.address in
          let e = m.save_error t v in
          and_then-Ends (Kept c) K R (save m v t) _
            (step-Ends (Kept c) (Kept c) e (saves v e ∷ t) (λ x f. q) (λ n. q))
            (λ u b y.
              and_then-Ends (Kept c) K R (open_info m b) _
                (step-Ends (Kept c) (Kept c) (m.open_error b) (opens_info (m.open_error b) ∷ b)
                  (λ x f. y) (λ n. y))
                (λ u d z.
                  step-Ends (Kept c) (R tt) (m.enable_error d) (enables (m.enable_error d) ∷ d)
                    (λ x f. z) (λ n. (z, rw n refl)))))

module _ (g : Platform) (w : Web) (d : SiteOutputs) (m : Host) (now later : ℕ) where
  -- Nothing was done.
  abbrev pub Untouched : Place → Place × Outcome (Unit {0}) → Type 0
  Untouched s r = (r.0 ≡ s) × ¬ (r.1 ≡ done tt)

  -- The registration gave no site, and the machine is as it was.
  pub record Unregistered (c : ServiceConfig) (s : Place) (r : Place × Outcome (Unit {0}))
      : Type 0 where
    pub network : r.0.network ≡ (register_site g w d now c s.network).0
    pub no_site : (site : SiteConfig) → ¬ ((register_site g w d now c s.network).1 ≡ got site)
    pub machine : r.0.machine ≡ s.machine
    pub error : ¬ (r.1 ≡ done tt)

  -- The configuration was not saved, and the core was asked to disconnect the home again.
  pub record Undone (c : ServiceConfig) (s : Place) (r : Place × Outcome (Unit {0})) : Type 0 where
    pub site : SiteConfig
    pub registered : (register_site g w d now c s.network).1 ≡ got site
    pub network :
        r.0.network
        ≡ (disconnect_site g w d later c.identity (register_site g w d now c s.network).0).0
    pub unsaved : saved_config r.0.machine ≡ saved_config s.machine
    pub error : ¬ (r.1 ≡ done tt)

  -- The configuration was saved, the registration stands, and where no error is given the service was enabled
  -- and started last.
  pub record Installed (c : ServiceConfig) (s : Place) (r : Place × Outcome (Unit {0}))
      : Type 0 where
    pub site : SiteConfig
    pub registered : (register_site g w d now c s.network).1 ≡ got site
    pub network : r.0.network ≡ (register_site g w d now c s.network).0
    pub saved : saved_config r.0.machine ≡ some c
    pub runs : ¬ (r.1 ≡ done tt) ⊎ (enabled r.0.machine ≡ true)

  abbrev pub Ended : ServiceConfig → Place → Place × Outcome (Unit {0}) → Type 0
  Ended c s r = Unregistered c s r ⊎ Undone c s r ⊎ Installed c s r

  started-Installed :
      (c : ServiceConfig) (site : SiteConfig) (s : Place) (h : List Event)
      (r : List Step × Outcome (Unit {0}))
      → register_site g w d now c s.network ≡ (h, got site)
      → Ends (Holds m (some c)) (λ u t. Holds m (some c) t × (enabled t ≡ true)) r
      → Installed c s (started g w d m now later h r)
  started-Installed c site s h (k, failed e) p q = record {
    site = site;
    registered = ap (λ x. x.1) p;
    network = ap (λ x. x.0) (sym p);
    saved = q;
    runs = inl (λ f. absurd (ground arith));
  }
  started-Installed c site s h (k, done u) p q = record {
    site = site;
    registered = ap (λ x. x.1) p;
    network = ap (λ x. x.0) (sym p);
    saved = q.0;
    runs = inr q.1;
  }

  persisted-Ended :
      (c : ServiceConfig) (site : SiteConfig) (s : Place) (h : List Event)
      → register_site g w d now c s.network ≡ (h, got site)
      → (r : List Step × Outcome (Unit {0}))
      → Ends (Holds m (saved_config s.machine)) (λ u t. Holds m (some c) t) r
      → Undone c s (persisted g w d m now later c site h r)
        ⊎ Installed c s (persisted g w d m now later c site h r)
  persisted-Ended c site s h p (k, failed e) q = inl (record {
    site = site;
    registered = ap (λ x. x.1) p;
    network = ap (λ x. (disconnect_site g w d later c.identity x.0).0) (sym p);
    unsaved = q;
    error = λ f. absurd (ground arith);
  })
  persisted-Ended c site s h p (k, done u) q =
      inr (started-Installed c site s h (start m c site k) p (start-Ends m c site k q))

  registered-Ended :
      (c : ServiceConfig) (s : Place) (t : List Event × Result SiteConfig)
      → register_site g w d now c s.network ≡ t
      → Ended c s (registered g w d m now later c s.machine t)
  registered-Ended c s (h, stopped e) p = inl (record {
    network = ap (λ x. x.0) (sym p);
    no_site = λ site q. absurd (ground (arith, p, q));
    machine = refl;
    error = λ q. absurd (ground arith);
  })
  registered-Ended c s (h, rejected code text) p = inl (record {
    network = ap (λ x. x.0) (sym p);
    no_site = λ site q. absurd (ground (arith, p, q));
    machine = refl;
    error = λ q. absurd (ground arith);
  })
  registered-Ended c s (h, got site) p = inr (
      persisted-Ended c site s h p (persist m g c site s.machine)
        (persist-Ends m g c site s.machine))

  -- installService ends in one of four ways. An error before the registration leaves everything as it was. Where
  -- the registration gives no site, the machine is as it was. Where it gives one, and an error comes before
  -- service.json is saved, the core is asked to disconnect the home again. Else the configuration that passed
  -- every check is saved and the registration stands; and where no error is given, the service was enabled and
  -- started as the last step.
  pub install_service-cases :
      (i : Identity) (name uplink management : Text) (s : Place)
      → let r = install_service g w d m now later i name uplink management s in
        Untouched s r
        ⊎ ((c : ServiceConfig) × (prepare g w m i name uplink management ≡ done c) × Ended c s r)
  unfolding install_service
  install_service-cases i name uplink management s =
      elim (Outcome-cases (prepare g w m i name uplink management)) [
        | inr (e, p) ↦ inl (rw p (refl, λ q. absurd (ground arith)))
        | inl (c, p) ↦ inr (c, p, rw p (registered-Ended c s _ refl))
      ]
