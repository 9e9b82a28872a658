-- ===== src/Tests/CoreSetup.antt =====
-- core/cmd/easyprivacy-node/main.go: a setup whose owner answers every question at the second attempt.
use easyprivacy.Tests.Fixtures.{platform}
use easyprivacy.Node.State
use easyprivacy.Setup.Answers.{Inputs, not_configured}
use easyprivacy.Setup.Core.{Machine, set_up_core}
use easyprivacy.Setup.Core.Order.{Ordered, Ready, saved, set_up_core-Ordered}
use easyprivacy.Vpn.Shell.{Ensures}
use easyprivacy.Base.{Text, lit, ◌∷◌, [], some, none, true, false, done, same, if◌then◌else◌, ◌≡◌}

abbrev password : Text
password = lit "correct horse battery"

abbrev inputs : Inputs
inputs = record {
  is_terminal = true;
  state_file = not_configured;
  is_installed = true;
  is_root = true;
  has_group = true;
  group_id = done 987;
  name_line = done [];
  port_lines = done (lit "80") ∷ done (lit "7444") ∷ [];
  username_lines = done (lit "?") ∷ done (lit "owner") ∷ [];
  password_lines = done (lit "short") ∷ done password ∷ done password ∷ [];
  end_of_input = "EOF";
  port_of =
      λ t. if same t (lit "80") then some 80 else if same t (lit "7444") then some 7444 else none;
  listen_error = λ p. none;
  issued = record { salt = done (lit "salt"); certificate = done (lit "pin", lit "key") };
}

abbrev machine : Machine
machine = record {
  inputs = inputs;
  directory = State.usable;
  save_fault = none;
  encoded = λ s. lit "{}";
  file = none;
  error_of = λ h. none;
  is_healthy = λ h. true;
  now = 5;
  listen_port = λ t. done 7444;
  ufw_found = done true;
  ufw = record { run = λ args x. (x, done (lit "Status: inactive")) };
}

set_up_core-Ordered_example :
    Ensures
      (Ordered platform machine)
      (λ t h. (saved h ≡ some t) × Ready platform machine h)
      (set_up_core platform machine 3 false [])
set_up_core-Ordered_example = set_up_core-Ordered platform machine 3 false
