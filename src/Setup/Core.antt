-- ===== src/Setup/Core.antt =====
-- core/cmd/easyprivacy-node/main.go: setup and waitReady. What the machine says may depend on what was done to it, a
-- list of steps, the last first.
pub mod Order
use easyprivacy.Platform.{Platform}
use easyprivacy.Node.State.{State, SaveDirectory, save_new, check_certificate}
use easyprivacy.Setup.{Ufw, Advice, configure_ufw}
use easyprivacy.Setup.Answers.{Inputs, asked_state}
use easyprivacy.Vpn.Shell.{Run, ◌>>=◌, ◌>>◌, ret, of_outcome}
use easyprivacy.Base.{
  Bool, Text, Option, Outcome, Error, List, ℕ, lit, ◌∷◌, [], some, none, true, false, not, ◌&&◌,
  failed, done, if◌then◌else◌, zero, suc,
}

pub data Step : Type 0 where
  saves : State → Option Error → Step
  enables : Option Error → Step
  asks_active : Option Error → Step
  polls : (is_healthy : Bool) → Step
  waits : Step
  configures_firewall : Outcome Advice → Step

-- What setup takes from the machine: `encoded` is the JSON text of a state, `file` what stands under core.json,
-- `listen_port` the port of an address as a number, and `ufw_found` whether ufw is there.
pub record Machine : Type 0 where
  pub inputs : Inputs
  pub directory : SaveDirectory
  pub save_fault : Option Error
  pub encoded : State → Text
  pub file : Option Text
  pub error_of : List Step → Option Error
  pub is_healthy : List Step → Bool
  pub now : ℕ
  pub listen_port : Text → Outcome ℕ
  pub ufw_found : Outcome Bool
  pub ufw : Ufw (Unit {0})

abbrev succeeds : Option Error → Outcome (Unit {0})
succeeds none = done tt
succeeds (some e) = failed e

-- An error that is given in other words.
abbrev replaced_by : Error → Option Error → Outcome (Unit {0})
replaced_by e none = done tt
replaced_by e (some x) = failed e

module _ (g : Platform) (m : Machine) where
  abbrev pub save_error : State → Option Error
  save_error s = (save_new m.directory m.save_fault (m.encoded s) m.file).1

  abbrev pub save : State → Run (List Step) (Unit {0})
  save s h = (saves s (save_error s) ∷ h, succeeds (save_error s))

  abbrev pub enable : Run (List Step) (Unit {0})
  enable h = (
    enables (m.error_of h) ∷ h,
    replaced_by "setup is saved, but the service could not start" (m.error_of h),
  )

  abbrev pub ask_active : Run (List Step) (Unit {0})
  ask_active h = (
    asks_active (m.error_of h) ∷ h,
    replaced_by "setup is saved, but the service is not active" (m.error_of h),
  )

  -- The loop of waitReady, where the clock allows so many rounds.
  unfoldable pub await_health : ℕ → Run (List Step) (Unit {0})
  await_health zero h =
      (h, failed "setup is saved, but the authenticated local TLS health check failed")
  await_health (suc n) h =
      if m.is_healthy h then (polls true ∷ h, done tt) else await_health n (waits ∷ polls false ∷ h)

  -- waitReady
  abbrev pub wait_ready : (rounds : ℕ) → State → Run (List Step) (Unit {0})
  wait_ready rounds s = of_outcome (check_certificate g m.now s) >> await_health rounds

  -- configureHostFirewall
  abbrev pub host_firewall : State → Outcome Advice
  host_firewall s = elim (m.listen_port s.listen) [
    | failed e ↦ failed e
    | done port ↦ elim m.ufw_found [
      | failed e ↦ failed e
      | done found ↦ (configure_ufw g m.ufw port found tt).1
    ]
  ]

  abbrev firewall_result : Outcome Advice → Outcome (Unit {0})
  firewall_result (failed e) =
      failed "core setup is saved and the service is running, but firewall configuration failed"
  firewall_result (done advice) = done tt

  abbrev pub configure_firewall : State → Run (List Step) (Unit {0})
  configure_firewall s h =
      (configures_firewall (host_firewall s) ∷ h, firewall_result (host_firewall s))

  abbrev pub start : (rounds : ℕ) → (is_installed : Bool) → State → Run (List Step) (Unit {0})
  start rounds false s = ret tt
  start rounds true s = do enable; ask_active; wait_ready rounds s

  abbrev pub open_firewall : (is_wanted : Bool) → State → Run (List Step) (Unit {0})
  open_firewall false s = ret tt
  open_firewall true s = configure_firewall s

  -- What follows NewState.
  abbrev pub install_state : (rounds : ℕ) (skip_firewall : Bool) → State → Run (List Step) State
  install_state rounds skip_firewall s = do
    save s
    start rounds m.inputs.is_installed s
    open_firewall (m.inputs.is_installed && not skip_firewall) s
    ret s

  -- setup, up to the pairing code that it asks for at its end
  unfoldable pub set_up_core : (rounds : ℕ) (skip_firewall : Bool) → Run (List Step) State
  set_up_core rounds skip_firewall =
      of_outcome (asked_state g m.inputs) >>= install_state rounds skip_firewall
