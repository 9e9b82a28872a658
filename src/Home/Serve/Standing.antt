-- ===== src/Home/Serve/Standing.antt =====
-- core/cmd/easyprivacy-node/service.go: whether the tunnel of the site stands while serveService runs, and
-- after it. The machine is any; it is only noted which site was last brought up and not taken down.
use easyprivacy.Platform.{Platform}
use easyprivacy.Link.{got, rejected, stopped, Result, Web}
use easyprivacy.Home.{register_site, SiteOutputs, ServiceConfig}
use easyprivacy.Home.Serve.{
  quotes, status_of, is_refusal, silent, current_enough, says, refused, try_later, settled, returns,
  serve, end, round, on_result, with_status, save_result, Turn, again, replace_site, take_down,
  report, Machine, Daemon, Message,
}
use easyprivacy.Base.{
  ltb, Error, Bool-cases, if◌then◌else◌, List, ℕ, Option-cases, ◌∷◌, [], refl, Outcome-cases, arith,
  Bool, Outcome, Option, some, none, false, true, inr, inl, ◌⊎◌, ◌≡◌, failed, done,
}
use easyprivacy.Vpn.SiteConfig.{SiteConfig}
use easyprivacy.Vpn.Types.{Status}

-- A machine with the notes: the site that stands, and whether a call of SiteDown has failed.
pub record Noted (M : Type 0) : Type 0 where
  pub machine : M
  pub standing : Option SiteConfig
  pub trouble : Bool

abbrev note_up :
    {M : Type 0} → SiteConfig → Noted M → M × Outcome (Unit {0}) → Noted M × Outcome (Unit {0})
note_up site t (x, done u) = (record t { machine = x; standing = some site }, done u)
note_up site t (x, failed e) = (record t { machine = x }, failed e)

abbrev note_down : {M : Type 0} → Noted M → M × Outcome (Unit {0}) → Noted M × Outcome (Unit {0})
note_down t (x, done u) = (record t { machine = x; standing = none }, done u)
note_down t (x, failed e) = (record t { machine = x; trouble = true }, failed e)

abbrev keep_notes {ℓ} : {M : Type 0} {A : Type ℓ} → Noted M → M × A → Noted M × A
keep_notes t (x, a) = (record t { machine = x }, a)

abbrev pub noted : {M : Type 0} → Machine M → Machine (Noted M)
noted m = record {
  site_up = λ site t. note_up site t (m.site_up site t.machine);
  site_down = λ t. note_down t (m.site_down t.machine);
  site_status = λ key t. keep_notes t (m.site_status key t.machine);
  save_site = λ site t. keep_notes t (m.save_site site t.machine);
  same_json = m.same_json;
  publish = λ text st t. record t { machine = m.publish text st t.machine };
  unpublish = λ t. record t { machine = m.unpublish t.machine };
}

abbrev pub expected : Bool → SiteConfig → Option SiteConfig
expected false c = none
expected true c = some c

-- The variables tell what stands, unless a call of SiteDown has failed.
unfoldable pub Tracked : {M : Type 0} → Daemon (Noted M) → Type 0
Tracked s = (s.machine.trouble ≡ true) ⊎ (s.machine.standing ≡ expected s.active s.current)

Turn-cases : (t : Turn) → (t ≡ again) ⊎ (t ≡ returns)
Turn-cases again = inl refl
Turn-cases returns = inr refl

module _ {M : Type 0} (m : Machine M) where
  report-Tracked :
      (text : Message) (s : Daemon (Noted M)) → Tracked s → Tracked (report (noted m) text s)
  unfolding report Tracked
  report-Tracked text s t = ground arith

  take_down-Tracked :
      (s : Daemon (Noted M))
      → Tracked s
      → Tracked (take_down (noted m) s).0
        × (((take_down (noted m) s).1 ≡ again) → (take_down (noted m) s).0.active ≡ false)
  unfolding take_down Tracked
  take_down-Tracked s t = elim (Outcome-cases (m.site_down s.machine.machine).1) [
    | inl (u, p) ↦ ground arith
    | inr (e, p) ↦ ground arith
  ]

  up-Tracked :
      (site : SiteConfig) (u : Daemon (Noted M))
      → Tracked u
      → u.active ≡ false
      → Tracked (save_result (noted m) site u ((noted m).save_site site u.machine)).0
  unfolding Tracked report
  up-Tracked site u t off = elim (Option-cases (m.save_site site u.machine.machine).1) [
    | inr (e, p) ↦ ground arith
    | inl p ↦ elim (Outcome-cases (m.site_up site (m.save_site site u.machine.machine).0).1) [
      | inl (v, q) ↦ ground arith
      | inr (e, q) ↦ ground arith
    ]
  ]

  replace_site-Tracked :
      (site : SiteConfig) (s : Daemon (Noted M))
      → Tracked s
      → Tracked (replace_site (noted m) site s).0
  unfolding replace_site
  replace_site-Tracked site s t =
      let (kept, off) = take_down-Tracked s t in
      elim (Turn-cases (take_down (noted m) s).1) [
        | inl p ↦ rw p (up-Tracked site (take_down (noted m) s).0 kept (off p))
        | inr p ↦ rw p kept
      ]

  status-Tracked :
      (site : SiteConfig) (s : Daemon (Noted M))
      → Tracked s
      → Tracked
          (with_status (noted m) site s ((noted m).site_status site.service.public_key s.machine)).0
  status-Tracked site s t = elim (Bool-cases (current_enough (noted m) site (status_of answer) u)) [
    | inl p ↦ rw p kept
    | inr p ↦ rw p (replace_site-Tracked site u kept)
  ]
    where
      answer : Outcome Status
      answer = (m.site_status site.service.public_key s.machine.machine).1

      u : Daemon (Noted M)
      u = record s {
        machine = record s.machine {
          machine = (m.site_status site.service.public_key s.machine.machine).0;
        };
      }

      kept : Tracked u
      kept = unfold Tracked in t

  settled-Tracked :
      (later : ℕ) (r : Daemon (Noted M) × Turn)
      → Tracked r.0
      → Tracked (settled (noted m) later r).0
  settled-Tracked later (s, returns) t = t
  settled-Tracked later (s, again) t =
      let kept = report-Tracked silent (record s { last_message = silent }) (unfold Tracked in t) in
      unfold Tracked in kept

  later-Tracked :
      (later : ℕ) (text : Message) (s : Daemon (Noted M))
      → Tracked s
      → Tracked (try_later (noted m) later text s)
  later-Tracked later text s t =
      let kept = report-Tracked text (record s { last_message = text }) (unfold Tracked in t) in
      unfold Tracked in kept

  refused-Tracked : (s : Daemon (Noted M)) → Tracked s → Tracked (refused (noted m) s)
  refused-Tracked s t = report-Tracked _ _ (down (Outcome-cases (m.site_down s.machine.machine).1))
    where
      down :
          ((u : Unit {0}) × ((m.site_down s.machine.machine).1 ≡ done u))
            ⊎ ((e : Error) × ((m.site_down s.machine.machine).1 ≡ failed e))
          → Tracked (
              if s.active
              then record s { machine = ((noted m).site_down s.machine).0; active = false }
              else s)
      down (inl (u, p)) =
          unfold Tracked in
          let k : (s.machine.trouble ≡ true) ⊎ (s.machine.standing ≡ expected s.active s.current) =
            t in
          ground arith
      down (inr (e, p)) =
          unfold Tracked in
          let k : (s.machine.trouble ≡ true) ⊎ (s.machine.standing ≡ expected s.active s.current) =
            t in
          ground arith

  on_result-Tracked :
      (later : ℕ) (r : Result SiteConfig) (s : Daemon (Noted M))
      → Tracked s
      → Tracked (on_result (noted m) later r s).0
  unfolding on_result
  on_result-Tracked later (stopped e) s t = later-Tracked later (says e) s t
  on_result-Tracked later (rejected code text) s t = elim (Bool-cases (is_refusal code)) [
    | inl p ↦ rw p (refused-Tracked s t)
    | inr p ↦ rw p (later-Tracked later (quotes text) s t)
  ]
  on_result-Tracked later (got site) s t = settled-Tracked later _ (status-Tracked site s t)

  module _ (g : Platform) (w : Web) (d : SiteOutputs) (c : ServiceConfig) where
    round-Tracked :
        (now later : ℕ) (s : Daemon (Noted M))
        → Tracked s
        → Tracked (round (noted m) g w d c now later s).0
    unfolding round
    round-Tracked now later s t = elim (Bool-cases (ltb now s.next)) [
      | inl p ↦ rw p (report-Tracked s.last_message s t)
      | inr p ↦
          rw p (
            on_result-Tracked later (register_site g w d now c s.network).1 _ (unfold Tracked in t))
    ]

    end-down :
        (s : Daemon (Noted M))
        → Tracked s
        → let x = (end (noted m) g w d c s).machine in (x.trouble ≡ true) ⊎ (x.standing ≡ none)
    unfolding end Tracked
    end-down s t = elim (Outcome-cases (m.site_down s.machine.machine).1) [
      | inl (u, p) ↦ ground arith
      | inr (e, p) ↦ ground arith
    ]

    -- Whenever serveService ends, after any rounds with any machine, network and clock, the last site that it
    -- brought up is taken down again, unless a call of SiteDown has failed.
    pub serve-down :
        (ticks : List (ℕ × ℕ)) (s : Daemon (Noted M))
        → Tracked s
        → let x = (serve (noted m) g w d c ticks s).machine in
          (x.trouble ≡ true) ⊎ (x.standing ≡ none)
    unfolding serve
    serve-down [] s t = end-down s t
    serve-down ((now, later) ∷ ticks) s t =
        let kept = round-Tracked now later s t in
        elim (Turn-cases (round (noted m) g w d c now later s).1) [
          | inl p ↦ rw (p, serve) (serve-down ticks _ kept)
          | inr p ↦ rw (p, serve) (end-down _ kept)
        ]
