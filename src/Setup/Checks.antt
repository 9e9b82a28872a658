-- ===== src/Setup/Checks.antt =====
-- core/cmd/easyprivacy-node/vpn.go: the checks of vpnSetup on the configuration that was asked for.
use easyprivacy.Platform.{Platform}
use easyprivacy.Vpn.Files.{DirectoryLook, private_there, other_there, none_there, unseen_directory}
use easyprivacy.Vpn.Routes.{check_routes}
use easyprivacy.Vpn.Validate.{Config, validate}
use easyprivacy.Base.{
  fail_if-done, arith, bind-done, is_none, fail_if, not, Text, Error, Option, Outcome, some, none,
  false, refl, ◌≡◌, failed, done, ◌>>=◌, ◌>>◌,
}

abbrev usable : DirectoryLook → Outcome (Unit {0})
usable private_there = done tt
usable other_there = failed "VPN state directory must be a private regular directory"
usable none_there = done tt
usable (unseen_directory e) = failed e

-- The checks up to the making of the directory: `udp_error` is the error of listening on the port, and `printed`
-- what `ip -4 route show table all` prints.
unfoldable pub exit_checks :
    Platform
    → (udp_error : Option Error) (printed : Outcome Text) → DirectoryLook
    → Config
    → Outcome (Unit {0})
exit_checks g udp_error printed directory c = do
  validate g c
  fail_if (not (is_none udp_error)) "UDP port unavailable"
  routes ← printed
  check_routes g c.subnet routes
  usable directory

-- A configuration that may be saved.
pub record Accepted (g : Platform) (udp_error : Option Error) (printed : Outcome Text) (c : Config)
    : Type 0 where
  pub valid : validate g c ≡ done tt
  pub free_port : udp_error ≡ none
  pub routes : Text
  pub listed : printed ≡ done routes
  pub free_network : check_routes g c.subnet routes ≡ done tt

free_error : (o : Option Error) → not (is_none o) ≡ false → o ≡ none
free_error none h = refl
free_error (some x) h = absurd (ground arith)

pub exit_checks-Accepted :
    (g : Platform) (udp_error : Option Error) (printed : Outcome Text) (directory : DirectoryLook)
    (c : Config)
    → exit_checks g udp_error printed directory c ≡ done tt
    → Accepted g udp_error printed c
unfolding exit_checks
exit_checks-Accepted g udp_error printed directory c h =
    let (u, valid, hv) = bind-done (validate g c) _ tt h in
    let (free, hf) = fail_if-done (not (is_none udp_error)) "UDP port unavailable" _ tt hv in
    let (routes, listed, hr) = bind-done printed _ tt hf in
    let (v, network, hn) = bind-done (check_routes g c.subnet routes) _ tt hr in
    record {
      valid = valid;
      free_port = free_error udp_error free;
      routes = routes;
      listed = listed;
      free_network = network;
    }
