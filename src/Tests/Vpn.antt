-- ===== src/Tests/Vpn.antt =====
-- core/internal/vpn/manager.go: runs of the peer map.
use easyprivacy.Vpn.Registration.Rollback.{register_peer_failed}
use easyprivacy.Node.Devices.{device_id}
use easyprivacy.Hex.{lower, digit, value, encode, decode, valid_id}
use easyprivacy.Base.{
  exists, ◌≤◌, ◌<◌, ◌+◌, ◌==◌, ℕ, false, some, ◌⊎◌, any, ℕ_discrete, insert, delete, text_discrete,
  All, lookup, Bool, Text, lit, none, true, false, [], ◌∷◌, ◌≡◌, refl, arith, done, List,
}
use easyprivacy.Tests.Fixtures.{repeat, identity, key_bytes, platform}
use easyprivacy.Vpn.Manager.{
  values, disable_all, save_peers, sweep, reconcile, first_host, Manager, World,
}
use easyprivacy.Vpn.Validate.{
  host_tail, is_device_name, has_double_dot, is_hostname, validate, Config,
}
use easyprivacy.Vpn.Types.{Peer}
use easyprivacy.Vpn.Peers.{PeersInv}
use easyprivacy.Vpn.Histories.{removes, calls-PeersInv, reads_status, calls, registers, Call}
use easyprivacy.Vpn.Registration.Access.{register_peer_sound, Registered}
use easyprivacy.Vpn.Registration.{
  install_peer, retire_key, scan_peers, plan_peer, register_peer, free_host,
}
use easyprivacy.Vpn.Loading.Invariant.{new_manager-PeersInv}
use easyprivacy.Vpn.Registration.Hosts.{free_host-found}
use easyprivacy.Vpn.Manager.Sweep.{reconcile-authorized}
use easyprivacy.Vpn.Loading.{check_peer, load_peers, new_manager, read}
use easyprivacy.Vpn.Config.{split, management_routes, management_loop, key}
use easyprivacy.Net.{small_decimal, addr_text, is_multicast, is_unspecified, is_masked, is_private}
use easyprivacy.Vpn.Service.{valid_service_name}
use easyprivacy.Strconv.{decimal}

-- A machine on which everything works, and every device is authorized.
abbrev pub world : World (Unit {0})
world = record {
  up = λ c x. (x, none);
  set_peer = λ c p x. (x, none);
  remove_peer = λ k x. (x, none);
  peer_status =
      λ k x. (x, done (record { active = true; last_handshake = 5; received = 1; sent = 2 }));
  save = λ ps x. (x, none);
  authorized = λ x. (x, done (λ id. true));
}

abbrev pub config : Config
config = record {
  schema = 1;
  name = lit "exit";
  endpoint = lit "vpn.example:51820";
  port = 51820;
  subnet = lit "10.87.0.0/24";
  uplink = lit "eth0";
  dns = lit "1.1.1.1" ∷ [];
  private_key = key_bytes;
}

abbrev pub peer : Peer
peer = record {
  device_id = identity;
  public_key = key_bytes;
  host = 2;
  exit_id = lit "vps";
  service = false;
  name = [];
  management = [];
}

abbrev pub wanted : Peer
wanted = record peer { host = 0 }

abbrev pub manager : Manager (Unit {0})
manager = record { config = config; peers = []; world = tt }

abbrev pub one_peer : Manager (Unit {0})
one_peer = record manager { peers = (identity, peer) ∷ [] }

manager-PeersInv : PeersInv manager.peers
manager-PeersInv = record { is_map = tt; bounded = omega arith; placed = tt; apart = tt }

abbrev three_calls : List Call
three_calls = registers wanted ∷ reads_status identity ∷ removes identity ∷ []

calls-PeersInv_example : PeersInv (calls world platform manager three_calls).peers
calls-PeersInv_example = calls-PeersInv world platform three_calls manager manager-PeersInv

register_peer_sound_example :
    Registered world platform wanted peer manager (register_peer world platform wanted manager).0
unfolding register_peer valid_id decode device_id encode value digit repeat text_discrete lower key
    reconcile sweep plan_peer lookup scan_peers retire_key delete insert disable_all save_peers
    values free_host install_peer ℕ_discrete
register_peer_sound_example =
    register_peer_sound world platform wanted peer manager manager-PeersInv refl

reconcile-authorized_example :
    (ok : Text → Bool) × ((world.authorized one_peer.world).1 ≡ done ok)
    × All (λ k p. ok k ≡ true) (reconcile world one_peer).0.peers
unfolding reconcile sweep
reconcile-authorized_example = reconcile-authorized world one_peer refl

new_manager-PeersInv_example :
    PeersInv one_peer.peers × (validate platform config ≡ done tt) × (one_peer.config ≡ config)
unfolding new_manager validate text_discrete decimal is_hostname has_double_dot is_private is_masked
    is_device_name is_unspecified is_multicast key repeat load_peers check_peer valid_id decode any
    insert lookup lower value digit encode device_id addr_text small_decimal management_loop
    management_routes split valid_service_name host_tail ℕ_discrete
new_manager-PeersInv_example =
    new_manager-PeersInv platform config (read (peer ∷ [])) tt one_peer refl

free_host-found_example :
    let h = free_host 253 first_host (peer ∷ []) in
    ¬ (h ≡ 0)
    × (exists (λ p. p.host == h) (peer ∷ []) ≡ false)
    × (first_host ≤ h)
    × (h < first_host + 253)
    × ((j : ℕ) → (exists (λ p. p.host == j) (peer ∷ []) ≡ true) ⊎ (j < first_host) ⊎ (h ≤ j))
free_host-found_example = free_host-found 253 first_host (peer ∷ []) (omega arith) (omega arith)

abbrev broken : World (Unit {0})
broken = record world { save = λ ps x. (x, some "disk full") }

register_peer_failed_example :
    let t = (register_peer broken platform wanted manager).0 in
    (t.peers ≡ manager.peers)
    ⊎ (t.peers
        ≡ (reconcile broken
            (record manager { world = (broken.authorized manager.world).0 })).0.peers)
unfolding register_peer valid_id decode device_id encode value digit repeat text_discrete lower key
    reconcile sweep plan_peer lookup scan_peers retire_key delete insert disable_all save_peers
    values free_host install_peer ℕ_discrete
register_peer_failed_example = register_peer_failed broken platform wanted "disk full" manager refl
