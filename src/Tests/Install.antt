-- ===== src/Tests/Install.antt =====
-- core/cmd/easyprivacy-node: a home that is installed on a machine that cannot enable the service, and the setup of an exit.
use easyprivacy.Tests.Fixtures.{key_bytes, platform, core}
use easyprivacy.Tests.Link.{node, web}
use easyprivacy.Tests.Home.{site_outputs}
use easyprivacy.Home.{ServiceConfig}
use easyprivacy.Home.Install
use easyprivacy.Home.Install.{absent, prepare}
use easyprivacy.Home.Install.Steps.{Place, install_service}
use easyprivacy.Home.Install.Rollback.{install_service-cases, Untouched, Ended}
use easyprivacy.Vpn.Files.{none_there, nothing_there}
use easyprivacy.Vpn.Shell.{Ensures}
use easyprivacy.Setup.Exit
use easyprivacy.Setup.Exit.{vpn_setup, Step, Question}
use easyprivacy.Setup.Exit.Order.{vpn_setup-Ordered, Ordered, is_answered}
use easyprivacy.Base.{lit, ◌∷◌, [], some, none, true, done, ◌≡◌, ◌⊎◌, ◌++◌}

abbrev home : Install.Host
home = record {
  presence = absent;
  default_route = done (lit "default via 192.0.2.1 dev eth0");
  fresh_key = done key_bytes;
  interface_addresses = λ device. done [];
  all_routes = done [];
  directory = none_there;
  make_error = λ h. none;
  save_error = λ h v. none;
  open_error = λ h. none;
  enable_error = λ h. some "systemctl";
  error_of = λ t. "refused";
}

abbrev empty_place : Place
empty_place = record { network = []; machine = [] }

install_service-cases_example :
    let r =
      install_service platform web site_outputs home 5 6 node (lit "Home") [] [] empty_place in
    Untouched platform web site_outputs home 5 6 empty_place r
    ⊎ ((c : ServiceConfig) × (prepare platform web home node (lit "Home") [] [] ≡ done c)
        × Ended platform web site_outputs home 5 6 c empty_place r)
install_service-cases_example =
    install_service-cases platform web site_outputs home 5 6 node (lit "Home") [] [] empty_place

-- Every question is answered with an empty line.
abbrev exit_host : Exit.Host
exit_host = record {
  core = done core;
  config = nothing_there;
  is_terminal = true;
  line = λ q. ([], none);
  default_route = done (lit "default via 192.0.2.1 dev eth0");
  interface_texts = λ device. some (lit "1.1.1.1" ∷ []);
  number_error = "not a number";
  join_host_port = λ host port. host ++ lit ":" ++ port;
  trim_brackets = λ t. t;
  fresh_key = done key_bytes;
  udp_error = λ port. none;
  all_routes = done [];
  directory = none_there;
  ufw_status = some (done (lit "Status: active"));
  error_of = λ h. none;
  exit_info = λ h. done (record { id = lit "vps"; name = lit "exit"; ready = true; message = "" });
}

vpn_setup-Ordered_example :
    Ensures
      (Ordered exit_host platform)
      (λ u t. is_answered t ≡ true)
      (vpn_setup exit_host platform 2 [])
vpn_setup-Ordered_example = vpn_setup-Ordered exit_host platform 2
