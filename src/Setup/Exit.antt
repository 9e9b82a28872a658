-- ===== src/Setup/Exit.antt =====
-- core/cmd/easyprivacy-node/vpn.go: vpnSetup, which asks for the configuration of the exit, and enableVPN. What the
-- machine says may depend on what was done to it, a list of steps, the last first.
pub mod Order
use easyprivacy.Platform.{Platform}
use easyprivacy.Home.{device_after}
use easyprivacy.Node.State.{State}
use easyprivacy.Setup.{detect_host}
use easyprivacy.Strconv.{decimal, port_number}
use easyprivacy.Vpn.Config.{split}
use easyprivacy.Vpn.Files.{
  Loaded, loaded, nothing_there, unusable, generate_key, DirectoryLook, private_there, other_there,
  none_there, unseen_directory,
}
use easyprivacy.Vpn.Routes.{check_routes}
use easyprivacy.Vpn.Shell.{Run, ◌>>=◌, ◌>>◌, ret, of_outcome, reject_if, fields}
use easyprivacy.Vpn.Types
use easyprivacy.Vpn.Validate.{Config, validate}
use easyprivacy.Base.{
  false, true, is_none, not, lit, map, same, Bool, Error, ℕ, List, Text, Outcome, Option, ◌∷◌, [],
  some, none, suc, zero, if◌then◌else◌, ◌==◌, failed, done,
}
use easyprivacy.Setup.Checks.{exit_checks}

pub data Step : Type 0 where
  makes_directory : Option Error → Step
  saves_config : Config → Option Error → Step
  writes_marker : Option Error → Step
  writes_sysctl : Option Error → Step
  sets_forwarding : Option Error → Step
  allows_port : ℕ → Option Error → Step
  enables : Option Error → Step
  polls : Outcome Types.Exit → Step
  waits : Step

-- The questions of vpnSetup.
pub data Question : Type 0 where
  asks_host : Question
  asks_port : Question
  asks_subnet : Question
  asks_uplink : Question
  asks_dns : Question

-- What vpnSetup takes from the machine and from Go's standard library. A line is read with the error of the
-- reader, and ufw is nothing where it is not found.
pub record Host : Type 0 where
  pub core : Outcome State
  pub config : Loaded Config
  pub is_terminal : Bool
  pub line : Question → Text × Option Error
  pub default_route : Outcome Text
  pub interface_texts : Text → Option (List Text)
  pub number_error : Error
  pub join_host_port : Text → Text → Text
  -- strings.Trim(s, "[]")
  pub trim_brackets : Text → Text
  pub fresh_key : Outcome Text
  pub udp_error : ℕ → Option Error
  pub all_routes : Outcome Text
  pub directory : DirectoryLook
  pub ufw_status : Option (Outcome Text)
  -- the errors of what is done, and what the exit answers
  pub error_of : List Step → Option Error
  pub exit_info : List Step → Outcome Types.Exit

abbrev succeeds : Option Error → Outcome (Unit {0})
succeeds none = done tt
succeeds (some e) = failed e

-- The part before the first newline.
unfoldable pub first_line : Text → Text
first_line [] = []
first_line (c ∷ s) = let rest = first_line s in if c == 10 then [] else c ∷ rest

abbrev text_or_empty : Option Text → Text
text_or_empty none = []
text_or_empty (some t) = t

abbrev unless_empty : Text → Text → Text
unless_empty [] other = other
unless_empty (c ∷ s) other = c ∷ s

module _ (m : Host) where
  -- A step whose error ends the function.
  abbrev pub act : (Option Error → Step) → Run (List Step) (Unit {0})
  act step h = (step (m.error_of h) ∷ h, succeeds (m.error_of h))

  abbrev pub poll : Run (List Step) Types.Exit
  poll h = (polls (m.exit_info h) ∷ h, m.exit_info h)

  abbrev pub ready_or :
      Run (List Step) Types.Exit → List Step × Outcome Types.Exit → List Step × Outcome Types.Exit
  ready_or rest (h, done v) = (h, done v)
  ready_or rest (h, failed e) = rest (waits ∷ h)

  -- The loop of enableVPN, where the clock allows so many rounds before the last.
  unfoldable pub await_exit : ℕ → Run (List Step) Types.Exit
  await_exit zero h = poll h
  await_exit (suc n) h = ready_or (await_exit n) (poll h)

  abbrev pub not_ready : List Step × Outcome Types.Exit → List Step × Outcome (Unit {0})
  not_ready (h, done v) = (h, done tt)
  not_ready (h, failed e) =
      (h, failed "VPN service not ready; inspect sudo journalctl -u easyprivacy-vpn")

  abbrev pub by_state : ℕ → (active inactive : Bool) → Run (List Step) (Unit {0})
  by_state port true inactive = act (allows_port port)
  by_state port false true = ret tt
  by_state port false false = of_outcome (failed "unknown UFW state; inspect sudo ufw status")

  abbrev pub open_port : ℕ → Option (Outcome Text) → Run (List Step) (Unit {0})
  open_port port none = ret tt
  open_port port (some (failed e)) = of_outcome (failed e)
  open_port port (some (done status)) =
      by_state port (same (first_line status) (lit "Status: active"))
        (same (first_line status) (lit "Status: inactive"))

  abbrev pub ready : (rounds : ℕ) → Run (List Step) (Unit {0})
  ready rounds h = not_ready (await_exit rounds h)

  -- enableVPN
  unfoldable pub enable_vpn : (rounds : ℕ) → Config → Run (List Step) (Unit {0})
  enable_vpn rounds c = do
    act writes_marker
    act writes_sysctl
    act sets_forwarding
    open_port c.port m.ufw_status
    act enables
    ready rounds

  module _ (g : Platform) where
    -- ask: the trimmed line, or the default where it is empty.
    abbrev pub ask : Question → (default : Text) → Outcome Text
    ask q default = elim (m.line q).1 [
      | some e ↦ failed e
      | none ↦ done (unless_empty (g.trim_space (m.line q).0) default)
    ]

    abbrev pub number : Option ℕ → Outcome ℕ
    number none = failed m.number_error
    number (some n) = done n

    -- The configuration that the answers make.
    abbrev pub answered : (name host : Text) (port : ℕ) (subnet uplink dns key : Text) → Config
    answered name host port subnet uplink dns key = record {
      schema = 1;
      name = name;
      endpoint = m.join_host_port (m.trim_brackets host) (decimal port);
      port = port;
      subnet = subnet;
      uplink = uplink;
      dns = map g.trim_space (split 44 dns);
      private_key = key;
    }

    -- From the answers to the checked configuration.
    unfoldable pub asked_config : (name : Text) → Run (List Step) Config
    asked_config name = do
      printed ← of_outcome m.default_route
      let detected = text_or_empty (device_after (fields printed))
      host ← of_outcome (ask asks_host (detect_host g (m.interface_texts detected) detected))
      port_text ← of_outcome (ask asks_port (lit "51821"))
      port ← of_outcome (number (port_number port_text))
      subnet ← of_outcome (ask asks_subnet (lit "10.87.0.0/24"))
      uplink ← of_outcome (ask asks_uplink detected)
      dns ← of_outcome (ask asks_dns (lit "1.1.1.1,9.9.9.9"))
      key ← of_outcome (generate_key g m.fresh_key)
      ret (answered name host port subnet uplink dns key)

    -- The checks on a configuration, and its saving.
    unfoldable pub save_checked : Config → Run (List Step) (Unit {0})
    save_checked c = do
      of_outcome (exit_checks g (m.udp_error c.port) m.all_routes m.directory c)
      act makes_directory
      act (saves_config c)

    abbrev pub set_up : (rounds : ℕ) → State → Loaded Config → Run (List Step) (Unit {0})
    set_up rounds state (loaded c) = enable_vpn rounds c
    set_up rounds state (unusable e) = of_outcome (failed e)
    set_up rounds state nothing_there = do
      reject_if (not m.is_terminal) "VPN setup needs an interactive terminal"
      c ← asked_config state.name
      save_checked c
      enable_vpn rounds c

    abbrev pub after_core : (rounds : ℕ) → Outcome State → Run (List Step) (Unit {0})
    after_core rounds (failed e) = of_outcome (failed "complete core setup first")
    after_core rounds (done state) = set_up rounds state m.config

    -- vpnSetup
    unfoldable pub vpn_setup : (rounds : ℕ) → Run (List Step) (Unit {0})
    vpn_setup rounds = after_core rounds m.core
