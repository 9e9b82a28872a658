-- ===== src/Home/Serve.antt =====
-- core/cmd/easyprivacy-node/service.go: serveService, the loop that keeps the tunnel of the site up, over
-- any machine and any network.

pub mod Standing
use easyprivacy.Platform.{Platform}
use easyprivacy.Link.{rejected, stopped, got, Event, Result, Web}
use easyprivacy.Home.{register_site, SiteOutputs, ServiceConfig}
use easyprivacy.Vpn.SiteConfig.{SiteConfig}
use easyprivacy.Vpn.Types.{Status}
use easyprivacy.Base.{
  ltb, Text, Bool, Option, ℕ, List, Outcome, Error, ◌∷◌, [], some, none, ◌||◌, ◌&&◌, false, true,
  ◌*◌, ◌+◌, if◌then◌else◌, ◌==◌, failed, done,
}
use easyprivacy.Node.Server.{second}

-- What report says.
pub data Message : Type 0 where
  silent : Message
  says : Error → Message
  quotes : Text → Message

-- The calls of serveService on its machine: SiteUp, SiteDown and SiteStatus, the saving of site.json, the
-- comparison of the JSON of two sites, and the file that report writes and the end removes.
pub record Machine (M : Type 0) : Type 0 where
  pub site_up : SiteConfig → M → M × Outcome (Unit {0})
  pub site_down : M → M × Outcome (Unit {0})
  pub site_status : Text → M → M × Outcome Status
  pub save_site : SiteConfig → M → M × Option Error
  pub same_json : SiteConfig → SiteConfig → Bool
  pub publish : Message → Option Status → M → M
  pub unpublish : M → M

-- The variables of serveService, with the machine and the history of the network.
pub record Daemon (M : Type 0) : Type 0 where
  pub machine : M
  pub network : List Event
  pub current : SiteConfig
  pub active : Bool
  pub next : ℕ
  pub last_message : Message

abbrev pub renewal : ℕ
renewal = 30 * second

-- Whether the loop goes on.
pub data Turn : Type 0 where
  again : Turn
  returns : Turn

abbrev pub status_of : Outcome Status → Status
status_of (done s) = s
status_of (failed e) = record { active = false; last_handshake = 0; received = 0; sent = 0 }

abbrev pub is_refusal : ℕ → Bool
is_refusal code = code == 401 || code == 403

module _ {M : Type 0} (m : Machine M) where
  -- report: the status is asked for where the site is active.
  abbrev published : Message → M × Outcome Status → M
  published text (x, r) = m.publish text (some (status_of r)) x

  unfoldable pub report : Message → Daemon M → Daemon M
  report text s =
      if s.active
      then record s {
        machine = published text (m.site_status s.current.service.public_key s.machine);
      }
      else record s { machine = m.publish text none s.machine }

  -- `if active { err = SiteDown(current) … active = false }`, where an error leaves the site active.
  abbrev down_result : Daemon M → M × Outcome (Unit {0}) → Daemon M × Turn
  down_result s (x, done u) = (record s { machine = x; active = false }, again)
  down_result s (x, failed e) = (record s { machine = x }, returns)

  unfoldable pub take_down : Daemon M → Daemon M × Turn
  take_down s = if s.active then down_result s (m.site_down s.machine) else (s, again)

  abbrev up_result : SiteConfig → Daemon M → M × Outcome (Unit {0}) → Daemon M × Turn
  up_result site s (x, done u) = (record s { machine = x; current = site; active = true }, again)
  up_result site s (x, failed e) = (report (says e) (record s { machine = x }), returns)

  abbrev pub save_result : SiteConfig → Daemon M → M × Option Error → Daemon M × Turn
  save_result site s (x, some e) = (record s { machine = x }, returns)
  save_result site s (x, none) = up_result site (record s { machine = x }) (m.site_up site x)

  abbrev replaced : SiteConfig → Daemon M × Turn → Daemon M × Turn
  replaced site (s, returns) = (s, returns)
  replaced site (s, again) = save_result site s (m.save_site site s.machine)

  -- The old site is taken down and the new one is brought up.
  unfoldable pub replace_site : SiteConfig → Daemon M → Daemon M × Turn
  replace_site site s = replaced site (take_down s)

  abbrev pub current_enough : SiteConfig → Status → Daemon M → Bool
  current_enough site st s = s.active && m.same_json s.current site && st.active

  abbrev pub with_status : SiteConfig → Daemon M → M × Outcome Status → Daemon M × Turn
  with_status site s (x, r) =
      let t = record s { machine = x } in
      if current_enough site (status_of r) t then (t, again) else replace_site site t

  abbrev pub settled : (later : ℕ) → Daemon M × Turn → Daemon M × Turn
  settled later (s, returns) = (s, returns)
  settled later (s, again) = (
    record (report silent (record s { last_message = silent })) { next = later + renewal },
    again,
  )

  -- A refused authorization: the site is taken down, whatever SiteDown returns.
  abbrev pub refused : Daemon M → Daemon M
  refused s =
      report (says "Device authorization was rejected. Re-enroll this service node.")
        (if s.active then record s { machine = (m.site_down s.machine).0; active = false } else s)

  abbrev pub try_later : (later : ℕ) → Message → Daemon M → Daemon M
  try_later later text s = record (report text (record s { last_message = text })) {
    next = later + renewal;
  }

  -- What follows registerSite.
  unfoldable pub on_result : (later : ℕ) → Result SiteConfig → Daemon M → Daemon M × Turn
  on_result later (got site) s =
      settled later (with_status site s (m.site_status site.service.public_key s.machine))
  on_result later (stopped e) s = (try_later later (says e) s, again)
  on_result later (rejected code text) s =
      if is_refusal code then (refused s, returns) else (try_later later (quotes text) s, again)

  abbrev pub registered : (later : ℕ) → Daemon M → List Event × Result SiteConfig → Daemon M × Turn
  registered later s (h, r) = on_result later r (record s { network = h })

  module _ (g : Platform) (w : Web) (d : SiteOutputs) (c : ServiceConfig) where
    -- One round of the loop, up to the wait; `later` is the time after the registration.
    unfoldable pub round : (now later : ℕ) → Daemon M → Daemon M × Turn
    round now later s =
        if ltb now s.next
        then (report s.last_message s, again)
        else registered later s (register_site g w d now c s.network)

    -- The deferred end.
    unfoldable pub end : Daemon M → Daemon M
    end s =
        let x = if s.active then (m.site_down s.machine).0 else s.machine in
        record s { machine = m.unpublish x }

    -- serveService once its configuration is loaded, until the context is done after the given rounds.
    unfoldable pub serve : List (ℕ × ℕ) → Daemon M → Daemon M
    serve [] s = end s
    serve ((now, later) ∷ ticks) s =
        let (t, turn) = round now later s in
        let rest = serve ticks t in elim turn [ again ↦ rest | returns ↦ end t ]
