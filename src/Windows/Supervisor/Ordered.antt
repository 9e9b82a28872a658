-- ===== src/Windows/Supervisor/Ordered.antt =====
-- native/windows-vpn/main_windows.go: when the configuration of the tunnel is written, and when the tunnel is
-- started.
pub mod Connecting
pub mod Serving
use easyprivacy.Windows.Services.{
  begun, already_running, not_begun, start_service, Starting, create_service, write_private,
  in_directory, is_running, asked, not_active, kept, Opening, Stopping, tunnel, supervisor, opens,
  queries, starts, writes, removes, waits, connects, Event, is_stopped, missing, opened, refused,
  ServiceState, open_service, query, stop_service, connect_manager, wait,
}
use easyprivacy.Windows.{TunnelConfig, config_text}
use easyprivacy.Windows.Supervisor.{
  started, await_start, or_create, Setting, stop_tunnel, await_stop, halt, halt_from, stop_opened,
}
use easyprivacy.Vpn.Shell.{◌>>=◌, reject_if, Ensures, and_then-Ensures}
use easyprivacy.Base.{
  lit, ap, Option-cases, arith, Error, not, Option, Bool-cases, Outcome-cases, inl, ◌∙◌, Bool, ℕ,
  Text, List, Outcome, inr, refl, suc, zero, ◌∷◌, [], some, none, false, true, ◌≡◌, failed, done,
}

abbrev pub says_stopped : Outcome ServiceState → Bool
says_stopped (failed e) = false
says_stopped (done v) = is_stopped v

-- What was last heard of the tunnel is that it is stopped or not there, and it was not started since.
abbrev pub halted : List Event → Bool
halted [] = false
halted (queries tunnel r ∷ h) = says_stopped r
halted (opens tunnel missing ∷ h) = true
halted (starts tunnel r ∷ h) = false
halted (_ ∷ h) = halted h

-- What the last write without an error left, unless the file was written to or removed since.
abbrev pub content : List Event → Option Text
content [] = none
content (writes p t none ∷ h) = some t
content (writes p t (some e) ∷ h) = none
content (removes p none ∷ h) = none
content (_ ∷ h) = content h

-- The path that the last event asks to remove, with the error of that.
abbrev pub last_removal : List Event → Option (Text × Option Error)
last_removal (removes p e ∷ h) = some (p, e)
last_removal _ = none

-- The last answer says that the tunnel is running.
abbrev pub says_running : Outcome ServiceState → Bool
says_running (failed e) = false
says_running (done v) = is_running v

abbrev pub heard_running : List Event → Bool
heard_running (queries tunnel r ∷ h) = says_running r
heard_running _ = false

module _ (x : Setting) (directory : Text) where
  -- The text of a configuration that passed every check.
  pub record Checked (text : Text) : Type 0 where
    pub config : TunnelConfig
    pub printed : config_text x.platform x.lookup_port x.private_v6 config ≡ done text

  -- What is asked for in each event that touches the file or starts the tunnel.
  abbrev pub Allowed : Event → List Event → Type 0
  Allowed (writes p t r) h =
      (p ≡ in_directory directory (lit "EasyPrivacy.conf")) × (halted h ≡ true) × Checked t
  Allowed (starts tunnel r) h = (halted h ≡ true) × ((t : Text) × (content h ≡ some t) × Checked t)
  Allowed (starts supervisor r) h = ⊥
  Allowed _ h = Unit

  abbrev pub Ordered : List Event → Type 0
  Ordered [] = Unit
  Ordered (e ∷ h) = Allowed e h × Ordered h

  -- Behind a call, the history is in order, and Q holds of it where the call succeeds.
  abbrev pub Leaves {ℓ} : {A : Type ℓ} → (A → List Event → Type 0) → List Event × Outcome A → Type 0
  Leaves Q r = Ensures Ordered Q r

  abbrev pub Halted : {A : Type 0} → A → List Event → Type 0
  Halted a h = halted h ≡ true

  query-Leaves :
      (h : List Event) → Ordered h → Leaves (λ u t. halted t ≡ is_stopped u) (query x.host tunnel h)
  unfolding query
  query-Leaves h o = elim (Outcome-cases (x.host.state_of h tunnel)) [
    | inl (u, p) ↦ rw p ((tt, o), ap says_stopped p)
    | inr (e, p) ↦ rw p ((tt, o), tt)
  ]

  await_stop-Leaves :
      (n : ℕ) (v : ServiceState) (h : List Event)
      → Ordered h
      → (is_stopped v ≡ true → halted h ≡ true)
      → Leaves (λ u t. is_stopped u ≡ true → halted t ≡ true) (await_stop x.host n v h)
  unfolding await_stop wait
  await_stop-Leaves zero v h o k = (o, k)
  await_stop-Leaves (suc n) v h o k =
      and_then-Ensures Ordered (λ u t. halted t ≡ is_stopped u)
        (λ u t. is_stopped u ≡ true → halted t ≡ true) (query x.host tunnel h) _ (query-Leaves h o)
        (λ u t p q. elim (Bool-cases (is_stopped u)) [
          | inl y ↦ rw y (p, λ z. q ∙ y)
          | inr f ↦ rw f (await_stop-Leaves n u (waits ∷ t) (tt, p) (λ z. q ∙ z))
        ])

  stopped-Leaves :
      (n : ℕ) (v : ServiceState) (h : List Event)
      → Ordered h
      → is_stopped v ≡ false
      → Leaves Halted (
          (await_stop x.host n v >>= λ u. reject_if (not (is_stopped u)) "VPN service did not stop")
            h)
  stopped-Leaves n v h o f =
      and_then-Ensures Ordered (λ u t. is_stopped u ≡ true → halted t ≡ true) Halted
        (await_stop x.host n v h) _ (await_stop-Leaves n v h o (λ y. absurd (ground (arith, y, f))))
        (λ u t p q. elim (Bool-cases (is_stopped u)) [
          | inl y ↦ rw y (p, q y)
          | inr g ↦ rw g (p, tt)
        ])

  halt-Leaves :
      (v : ServiceState) (a : Stopping) (h : List Event)
      → Ordered h
      → is_stopped v ≡ false
      → Leaves Halted (halt x.host v a h)
  halt-Leaves v (kept e) h o f = (o, tt)
  halt-Leaves v asked h o f = stopped-Leaves 80 v h o f
  halt-Leaves v not_active h o f = stopped-Leaves 80 v h o f

  halt_from-Leaves :
      (v : ServiceState) (h : List Event)
      → Ordered h
      → halted h ≡ is_stopped v
      → Leaves Halted (halt_from x.host v h)
  unfolding stop_service
  halt_from-Leaves v h o q = elim (Bool-cases (is_stopped v)) [
    | inl y ↦ rw y (o, q ∙ y)
    | inr f ↦ rw f (halt-Leaves v (x.host.stopping h tunnel) _ (tt, o) f)
  ]

  stop_opened-Leaves :
      (a : Opening) (h : List Event)
      → Ordered h
      → Leaves Halted (stop_opened x.host a (opens tunnel a ∷ h))
  stop_opened-Leaves missing h o = ((tt, o), refl)
  stop_opened-Leaves (refused e) h o = ((tt, o), tt)
  stop_opened-Leaves opened h o =
      and_then-Ensures Ordered (λ u t. halted t ≡ is_stopped u) Halted
        (query x.host tunnel (opens tunnel opened ∷ h)) _ (query-Leaves _ (tt, o))
        (λ v t p q. halt_from-Leaves v t p q)

  pub connect_manager-Leaves :
      (Q : List Event → Type 0) (h : List Event)
      → Ordered h
      → ((e : Option Error) → Q (connects e ∷ h))
      → Leaves (λ u t. Q t) (connect_manager x.host h)
  unfolding connect_manager
  connect_manager-Leaves Q h o k = elim (Option-cases (x.host.connect_error h)) [
    | inl n ↦ rw n ((tt, o), k none)
    | inr (e, p) ↦ rw p ((tt, o), tt)
  ]

  -- The tunnel is halted where stopTunnel gives no error.
  pub stop_tunnel-Leaves : (h : List Event) → Ordered h → Leaves Halted (stop_tunnel x.host h)
  unfolding stop_tunnel open_service
  stop_tunnel-Leaves h o =
      and_then-Ensures Ordered (λ u t. Unit {0}) Halted (connect_manager x.host h) _
        (connect_manager-Leaves (λ t. Unit {0}) h o (λ e. tt))
        (λ u t p q. stop_opened-Leaves (x.host.opening t tunnel) t p)
