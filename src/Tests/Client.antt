-- ===== src/Tests/Client.antt =====
-- Witnesses for the client of the exit's control socket.
use easyprivacy.Vpn.Client.{Client, Socket, Asked, socket_control}
use easyprivacy.Vpn.Client.Absent.{revoke_locked-confirmed}
use easyprivacy.Node.Server.{Server}
use easyprivacy.Node.DeviceAuth.{revoke_locked}
use easyprivacy.Node.Devices.{device_id, save_locked, revoke}
use easyprivacy.Base.{
  text_discrete, lookup, List, lit, [], some, none, true, inr, refl, ◌≡◌, failed,
}
use easyprivacy.Tests.Fixtures.{identity, platform, repeat, one_device, server}
use easyprivacy.Hex.{lower, value, decode, valid_id, digit, encode}
use easyprivacy.Link.Request.{request}

-- A machine on which nothing listens on the socket, and no file is there.
abbrev nothing_there : Socket
nothing_there = record {
  answers = λ h s m p i. none;
  url_error = λ u. none;
  is_missing = λ h p. true;
  error_field = λ r. [];
  exit_of = λ r. failed "no exit";
  exits_of = λ r. failed "no exit";
  profile_of = λ r. failed "no exit";
  service_profile_of = λ r. failed "no exit";
  status_of = λ r. failed "no exit";
  error_of = λ t. "error";
}

abbrev client : Client
client = record { socket_path = lit "/run/easyprivacy/vpn.sock"; config_marker = lit "vpn-enabled" }

abbrev with_client : Server (List Asked)
with_client = record {
  state = server.state;
  sessions = [];
  attempts = [];
  global = server.global;
  busy_slots = 0;
  devices = one_device;
  code = none;
  last_code = 0;
  pairings = [];
  enrollments = [];
  next_ref = 1;
  challenges = [];
  native = server.native;
  vpn = some [];
}

revoke_locked-confirmed_example :
    (revoke_locked platform (socket_control nothing_there client) none identity with_client).1
    ≡ none
unfolding revoke save_locked lookup text_discrete device_id encode digit repeat valid_id decode
    request value lower
revoke_locked-confirmed_example =
    (revoke_locked-confirmed nothing_there client platform none identity [] with_client refl).1
      (refl, refl, inr (record { configured = refl; missing = refl }))
