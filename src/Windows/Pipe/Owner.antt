-- ===== src/Windows/Pipe/Owner.antt =====
-- native/windows-vpn/main_windows.go: to whom a command is sent, with the private key that it may hold.
use easyprivacy.Windows.Pipe.{
  none_of, on_checked, Endpoint, verify_service_pipe, Event, dialed, sent, waits, Client, over_pipe,
  request, ready_or, await_ready, shown_status, with_input, Command, installs, shows_status,
  connects, disconnects, run_command,
}
use easyprivacy.Windows.Services.{ServiceState, is_running}
use easyprivacy.Base.{
  skip-done, ◌||◌, ◌==◌, ap, length, arith, ltb, bind-done, fail_if, Bool-cases, Option-cases, not,
  Error, Option, Outcome, lit, Text, fail_if-done, Bool, ◌++◌, some, none, false, inr, inl, ◌∙◌,
  refl, suc, zero, failed, List, ℕ, ◌∷◌, [], true, ◌≡◌, done,
}
use easyprivacy.Vpn.Shell.{Run}

-- The process behind the pipe is that of the service, which is running.
pub record Owned (p : Endpoint) : Type 0 where
  pub process : ℕ
  pub behind : p.server_process ≡ done process
  pub is_process : ¬ (process ≡ 0)
  pub state : ServiceState
  pub up : is_running state ≡ true
  pub same_process : p.service_status ≡ done (state, process)

fail_if-false : (test : Bool) (e : Error) → fail_if test e ≡ done tt → test ≡ false
fail_if-false true e h = absurd (ground arith)
fail_if-false false e h = refl

owner_tests :
    (v : ServiceState) (process owner : ℕ)
    → (not (is_running v) || process == 0 || not (owner == process)) ≡ false
    → (is_running v ≡ true) × (¬ (process ≡ 0)) × (owner ≡ process)
owner_tests v process owner h = (ground (arith, h), λ z. ground (arith, z, h), ground (arith, h))

verify-Owned : (p : Endpoint) → verify_service_pipe p ≡ done tt → Owned p
unfolding verify_service_pipe
verify-Owned p h =
    let (a, ha) = fail_if-done (not p.has_handle) _ _ tt h in
    let (process, e, hb) = bind-done p.server_process _ tt ha in
    let hc = skip-done (none_of p.manager_error) _ tt hb in
    let hd = skip-done (none_of p.name_error) _ tt hc in
    let hf = skip-done (none_of p.service_error) _ tt hd in
    let (status, g, hg) = bind-done p.service_status _ tt hf in
    let (up, is_process, same_process) =
      owner_tests status.0 process status.1 (fail_if-false _ _ hg) in
    record {
      process = process;
      behind = e;
      is_process = is_process;
      state = status.0;
      up = up;
      same_process = g ∙ ap (λ n. done (status.0, n)) same_process;
    }

-- What was sent was sent over a pipe that was just opened, and is the service's.
abbrev pub SentToOwner : List Event → Type 0
SentToOwner [] = Unit
SentToOwner (sent method path raw a ∷ []) = ⊥
SentToOwner (sent method path raw a ∷ dialed p ∷ h) = Owned p × SentToOwner h
SentToOwner (sent method path raw a ∷ _ ∷ h) = ⊥
SentToOwner (dialed p ∷ h) = SentToOwner h
SentToOwner (waits ∷ h) = SentToOwner h

module _ (c : Client) where
  on_checked-SentToOwner :
      (method path raw : Text) (p : Endpoint) (h : List Event) (o : Outcome (Unit {0}))
      → verify_service_pipe p ≡ o
      → SentToOwner h
      → SentToOwner (on_checked c method path raw o (dialed p ∷ h)).0
  on_checked-SentToOwner method path raw p h (failed e) f o = o
  on_checked-SentToOwner method path raw p h (done u) f o = (verify-Owned p f, o)

  over_pipe-SentToOwner :
      (method path raw : Text) (e : Option Endpoint) (h : List Event)
      → SentToOwner h
      → SentToOwner (over_pipe c method path raw e h).0
  over_pipe-SentToOwner method path raw none h o = o
  over_pipe-SentToOwner method path raw (some p) h o =
      on_checked-SentToOwner method path raw p h (verify_service_pipe p) refl o

  request-SentToOwner :
      (method path raw : Text) (h : List Event)
      → SentToOwner h
      → SentToOwner (request c method path raw h).0
  unfolding request
  request-SentToOwner method path raw h o =
      elim (Option-cases (c.url_error (lit "http://local" ++ path))) [
        | inr (e, f) ↦ rw f o
        | inl f ↦ rw f (over_pipe-SentToOwner method path raw (c.opens_pipe h) h o)
      ]

  ready_or-SentToOwner :
      (rest : Run (List Event) Text) (r : List Event × Outcome Text)
      → SentToOwner r.0
      → ((h : List Event) → SentToOwner h → SentToOwner (rest h).0)
      → SentToOwner (ready_or c rest r).0
  ready_or-SentToOwner rest (h, done b) o k = o
  ready_or-SentToOwner rest (h, failed e) o k = k (waits ∷ h) o

  await_ready-SentToOwner :
      (n : ℕ) (h : List Event) → SentToOwner h → SentToOwner (await_ready c n h).0
  unfolding await_ready
  await_ready-SentToOwner zero h o = o
  await_ready-SentToOwner (suc n) h o =
      ready_or-SentToOwner (await_ready c n) (request c (lit "GET") (lit "/status") [] h)
        (request-SentToOwner (lit "GET") (lit "/status") [] h o) (await_ready-SentToOwner n)

  shown_status-keeps : (r : List Event × Outcome Text) → (shown_status c r).0 ≡ r.0
  shown_status-keeps (h, done raw) = refl
  shown_status-keeps (h, failed e) = refl

  with_input-SentToOwner :
      (input : Option Text) (h : List Event) → SentToOwner h → SentToOwner (with_input c input h).0
  with_input-SentToOwner none h o = o
  with_input-SentToOwner (some raw) h o = elim (Bool-cases (ltb 4096 (length raw))) [
    | inl y ↦ rw y o
    | inr f ↦ rw f (request-SentToOwner (lit "POST") (lit "/connect") raw h o)
  ]

  -- Where all that was sent before was sent to the service, that is so behind every command: each request went
  -- over the pipe that was opened just before, whose process has a number other than zero and is the process of
  -- the service EasyPrivacyVPN, which was running.
  pub run_command-SentToOwner :
      (command : Command) (h : List Event) → SentToOwner h → SentToOwner (run_command c command h).0
  unfolding run_command
  run_command-SentToOwner (installs (some e)) h o = o
  run_command-SentToOwner (installs none) h o = await_ready-SentToOwner 30 h o
  run_command-SentToOwner shows_status h o =
      rw shown_status-keeps (request-SentToOwner (lit "GET") (lit "/status") [] h o)
  run_command-SentToOwner (connects input) h o = with_input-SentToOwner input h o
  run_command-SentToOwner disconnects h o =
      request-SentToOwner (lit "POST") (lit "/disconnect") [] h o
