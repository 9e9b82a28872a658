-- ===== src/Tests/VpnApi.antt =====
-- core/internal/node/vpn.go: a paired device asks for a profile.
use easyprivacy.Base.{false, ◌⊎◌, text_discrete, lookup, lit, some, true, [], ◌∷◌, ◌≡◌, refl, done}
use easyprivacy.Platform.{Decoder}
use easyprivacy.Tests.Fixtures.{
  repeat, platform, server, token, identity, no_exit, with_token, key_bytes,
}
use easyprivacy.Node.VpnApi.{PeerInput, peer_begin, peer_finish, vps, home, failed_key}
use easyprivacy.Node.VpnApi.Access.{vpn_peer_sound, OfDevice}
use easyprivacy.Node.Server.{decode_body, read_request, Server}
use easyprivacy.Vpn.Types.{Control, Profile}
use easyprivacy.Node.Sessions.{authenticate, authenticate_device}
use easyprivacy.Node.Devices.{is_active, device_id}
use easyprivacy.Hex.{digit, encode}
use easyprivacy.Vpn.Config

abbrev device_server : Server (Unit {0})
device_server = record server {
  sessions = (token, record { expires = 100; device_id = identity }) ∷ [];
  vpn = some tt;
}

abbrev a_profile : Profile
a_profile = record {
  exit_id = lit "vps";
  exit_name = lit "exit";
  public_key = key_bytes;
  endpoint = lit "vpn.example:51820";
  address = lit "10.87.0.2/32";
  address_v6 = [];
  dns = [];
  allowed_ips = [];
  mtu = 1280;
  keepalive = 25;
  management_routes = [];
}

abbrev exit : Control (Unit {0})
exit = record no_exit { serves = true; register_exit = λ i k e v. (v, done a_profile) }

abbrev reader : Decoder PeerInput
reader = record {
  decode = λ t. some (record { public_key = key_bytes; exit_id = lit "vps" }, []);
  at_end = λ t. true;
}

abbrev wanted : PeerInput
wanted = record { public_key = key_bytes; exit_id = lit "vps" }

-- Behind the first section a code was drawn.
abbrev by_then : Server (Unit {0})
by_then = record device_server { last_code = 1 }

vpn_peer_sound_example :
    OfDevice platform 4 (with_token token) device_server identity
    × ((wanted.exit_id ≡ vps) ⊎ (wanted.exit_id ≡ home))
    × (failed_key (Config.key platform wanted.public_key) ≡ false)
    × (is_active identity by_then.devices ≡ true)
unfolding peer_begin peer_finish authenticate_device authenticate repeat lookup text_discrete
    device_id encode digit read_request decode_body Config.key
vpn_peer_sound_example =
    vpn_peer_sound platform exit reader 4 (with_token token) device_server by_then identity wanted
      a_profile refl refl
