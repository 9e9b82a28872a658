-- ===== src/Tests/Windows.antt =====
-- native/windows-vpn/main_windows.go: a supervisor that is asked to connect and then ends, and a command of its client.
use easyprivacy.Tests.Fixtures.{key_bytes, platform}
use easyprivacy.Windows.Services.{
  remove_file, query, open_service, connect_manager, Event, Host, tunnel, opened, begun, asked,
  starts, stops, ServiceState, running, stopped,
}
use easyprivacy.Windows.Supervisor.{
  local_status, stop_tunnel, Setting, execute, handle, calls, ends, asks_connect, asks_disconnect,
  absent, idle_status,
}
use easyprivacy.Windows.Supervisor.Ordered.{Ordered}
use easyprivacy.Windows.Supervisor.Ordered.Serving.{execute-Ordered, handle-Promised, Promised}
use easyprivacy.Windows.Approval.{Machine, made}
use easyprivacy.Windows.Install.{install}
use easyprivacy.Windows.Install.Order.{install-Ordered, started_last}
use easyprivacy.Windows.Install.Order
use easyprivacy.Vpn.Shell.{Ensures}
use easyprivacy.Windows.Pipe.{Client, Endpoint, run_command, connects}
use easyprivacy.Windows.Pipe.Owner.{run_command-SentToOwner, SentToOwner}
use easyprivacy.Windows.{TunnelConfig}
use easyprivacy.Base.{◌≡◌, List, Text, lit, ◌∷◌, [], some, none, true, false, done, refl}

-- A tunnel that does as it is told: what it says is what was asked of it last.
abbrev tunnel_state : List Event → ServiceState
tunnel_state [] = stopped
tunnel_state (starts tunnel r ∷ h) = running
tunnel_state (stops tunnel r ∷ h) = stopped
tunnel_state (_ ∷ h) = tunnel_state h

abbrev windows : Host
windows = record {
  connect_error = λ h. none;
  opening = λ h v. opened;
  creation_error = λ h v p args. none;
  state_of = λ h v. done (tunnel_state h);
  stopping = λ h v. asked;
  starting = λ h v. begun;
  is_unsafe = λ h p. false;
  write_error = λ h p t. none;
  removal_error = λ h p. none;
}

abbrev vpn_config : TunnelConfig
vpn_config = record {
  private_key = key_bytes;
  public_key = key_bytes;
  endpoint = lit "vpn.example:51820";
  address = lit "10.87.0.2/32";
  address_v6 = [];
  dns = lit "1.1.1.1" ∷ [];
  mtu = 1280;
  keepalive = 25;
  management_routes = [];
}

abbrev setting : Setting
setting = record {
  host = windows;
  platform = platform;
  decoder = record { decode = λ t. some (vpn_config, []); at_end = λ t. true };
  lookup_port = λ p. none;
  private_v6 = λ p. true;
  directories = done (lit "C:\\Program Files\\EasyPrivacy", lit "C:\\ProgramData\\EasyPrivacy");
}

abbrev data_directory : Text
data_directory = lit "C:\\ProgramData\\EasyPrivacy"

abbrev sid : Text
sid = lit "S-1-5-21-1"

execute-Ordered_example :
    Ordered setting data_directory
      (execute setting
        (some sid)
        (λ t. some t)
        (λ t. true)
        (calls absent (asks_connect (lit "{}")) ∷ ends ∷ [])
        []).0
execute-Ordered_example =
    execute-Ordered setting (λ t. some t) (λ t. true) (some sid)
      (calls absent (asks_connect (lit "{}")) ∷ ends ∷ [])
      (lit "C:\\Program Files\\EasyPrivacy", data_directory) refl

handle-Promised_example :
    Promised setting data_directory asks_disconnect
      (handle setting data_directory absent asks_disconnect []).0
unfolding handle stop_tunnel connect_manager open_service query remove_file local_status
handle-Promised_example =
    handle-Promised setting data_directory absent asks_disconnect [] idle_status tt refl

-- The service runs in process 7, which is at the other end of the pipe.
abbrev endpoint : Endpoint
endpoint = record {
  has_handle = true;
  server_process = done 7;
  manager_error = none;
  name_error = none;
  service_error = none;
  service_status = done (running, 7);
}

abbrev client : Client
client = record {
  url_error = λ t. none;
  opens_pipe = λ h. some endpoint;
  answers = λ h method path raw. some (record { status = 200; body = some (lit "{}") });
  error_field = λ t. [];
  error_of = λ t. "refused";
  status_of = λ t. some idle_status;
  status_text = λ s. lit "{}";
}

run_command-SentToOwner_example : SentToOwner (run_command client (connects (some (lit "{}"))) []).0
run_command-SentToOwner_example = run_command-SentToOwner client (connects (some (lit "{}"))) [] tt

abbrev installer : Machine
installer = record {
  host = windows;
  is_elevated = true;
  canonical = λ t. some t;
  directories = setting.directories;
  descriptor = done (lit "O:BAG:BAD:P");
  path_error = λ p. none;
  creation = λ p. made;
  own_path = done (lit "C:\\setup.exe");
  file_content = λ p. done (lit "MZ");
  driver = lit "dll";
  without_auto_inherited = λ t. t;
}

install-Ordered_example :
    Ensures (Order.Ordered installer sid) (λ u k. started_last k ≡ true) (install installer sid [])
install-Ordered_example = install-Ordered installer sid
