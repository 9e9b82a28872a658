-- ===== src/Vpn/Linux.antt =====
-- core/internal/vpn/linux.go: the backend of the exit on Linux. Its state is the peers that it has
-- configured; the machine is what the commands change.
pub mod Peers
use easyprivacy.Base.{
  delete, not, insert, lit, Dict, fail_if, same, lookup, Error, Text, ◌&&◌, ◌==◌, true, false, none,
  some, failed, done, Outcome, Option, Bool, List, ◌∷◌, [], ◌++◌, if◌then◌else◌,
}
use easyprivacy.Platform.{Platform}
use easyprivacy.Vpn.Shell.{
  reject_if, words, fields, of_outcome, command, ◌>>=◌, ◌>>◌, Run, Shell, ret, quietly,
}
use easyprivacy.Vpn.Validate.{hex_number, ipv6_prefix, address, interface, validate, Config}
use easyprivacy.Vpn.Types.{Status, Peer}
use easyprivacy.Vpn.Rules.{rules, apply_rules, core_tag, cleanup_core_rules}
use easyprivacy.Vpn.Registration.{same_flag}
use easyprivacy.Vpn.HomeRouting.{
  prepare_home_routing, cleanup_home_routing, add_peer_routing, remove_peer_routing,
}
use easyprivacy.Vpn.Config.{split, key}
use easyprivacy.Net.{with_last_byte, addr_text}
use easyprivacy.Vpn.Routes.{check_routes}
use easyprivacy.Strconv.{decimal, parse_number}

-- The zero Config of CleanupBrokenConfig is not modelled: `config` is one that was given.
pub record Linux (M : Type 0) : Type 0 where
  pub config : Config
  pub peers : Dict Peer
  pub machine : M

abbrev pub on_machine {ℓ} : {M : Type 0} {A : Type ℓ} → Run M A → Run (Linux M) A
on_machine m s = let (x, r) = m s.machine in (record s { machine = x }, r)

abbrev owned_links : (alias : Text) → Option (List Text) → Error → Outcome Bool
owned_links alias none e = failed e
owned_links alias (some []) e = failed e
owned_links alias (some (l ∷ [])) e = if same l alias then done true else failed e
owned_links alias (some (l ∷ k ∷ r)) e = failed e

abbrev pub owned_result :
    (alias : Text) → (Text → Option (List Text)) → Error → Outcome Text → Outcome Bool
owned_result alias read e (failed f) = done false
owned_result alias read e (done b) = owned_links alias (read b) e

-- `==` on the fields of a peer
abbrev pub same_peer : Peer → Peer → Bool
same_peer p q =
    same p.device_id q.device_id
    && same p.public_key q.public_key
    && p.host == q.host
    && same p.exit_id q.exit_id
    && same_flag p.service q.service
    && same p.name q.name
    && same p.management q.management

module _ {M : Type 0} (sh : Shell M) where
  -- ownedInterface
  unfoldable pub owned_interface : Run M Bool
  owned_interface x =
      let (y, r) = command sh (lit "ip") [] (words "-j link show dev" ++ interface ∷ []) x in
      (
        y,
        owned_result core_tag sh.link_aliases "epwg0 already exists and is not owned by EasyPrivacy"
            r,
      )

  -- The loop of interfaceStatus over the lines of `wg show latest-handshakes`, and over those of
  -- `wg show transfer`; numbers are cut off at 2^63 - 1 and at 2^64 - 1.
  abbrev read_handshake : Text → List Text → Status → Status
  read_handshake key (k ∷ n ∷ []) v =
      if same k key
      then record v { active = true; last_handshake = parse_number 0x7fffffffffffffff 0 n }
      else v
  read_handshake key [] v = v
  read_handshake key (k ∷ []) v = v
  read_handshake key (k ∷ n ∷ m ∷ r) v = v

  abbrev read_transfer : Text → List Text → Status → Status
  read_transfer key (k ∷ n ∷ m ∷ []) v =
      if same k key
      then record v {
        received = parse_number 0xffffffffffffffff 0 n;
        sent = parse_number 0xffffffffffffffff 0 m;
      }
      else v
  read_transfer key [] v = v
  read_transfer key (k ∷ []) v = v
  read_transfer key (k ∷ n ∷ []) v = v
  read_transfer key (k ∷ n ∷ m ∷ l ∷ r) v = v

  unfoldable pub read_lines : (List Text → Status → Status) → List Text → Status → Status
  read_lines f [] v = v
  read_lines f (l ∷ ls) v = read_lines f ls (f (fields l) v)

  abbrev unseen : Status
  unseen = record { active = false; last_handshake = 0; received = 0; sent = 0 }

  -- interfaceStatus
  unfoldable pub interface_status : (device key : Text) → Run M Status
  interface_status device key = do
    handshakes ← command sh (lit "wg") [] (words "show" ++ device ∷ words "latest-handshakes")
    transfers ← command sh (lit "wg") [] (words "show" ++ device ∷ words "transfer")
    ret (
        read_lines (read_transfer key) (split 10 transfers)
          (read_lines (read_handshake key) (split 10 handshakes) unseen))

  module _ (g : Platform) where
    abbrev pub forget_found : Text → Option Peer → Run (Linux M) (Unit {0})
    forget_found text none = ret tt
    forget_found text (some p) =
        (λ s. on_machine (remove_peer_routing sh g s.config p) s)
        >> (λ t. (record t { peers = delete text t.peers }, done tt))

    abbrev pub forget_peer : Text → Run (Linux M) (Unit {0})
    forget_peer text s = forget_found text (lookup text s.peers) s

    abbrev pub wg_remove : Text → Run (Linux M) (Unit {0})
    wg_remove text = on_machine (
        quietly (
          command sh (lit "wg") []
            (words "set" ++ interface ∷ lit "peer" ∷ text ∷ lit "remove" ∷ [])))

    -- RemovePeer
    unfoldable pub remove_peer : Text → Run (Linux M) (Unit {0})
    remove_peer text = do k ← of_outcome (key g text); wg_remove text; forget_peer text

    abbrev allowed_ips_of : Config → Peer → Text
    allowed_ips_of c p =
        if p.service
        then lit "0.0.0.0/0"
        else address g c p.host ++ lit "," ++ ipv6_prefix ++ hex_number g p.host ++ lit "/128"

    abbrev pub configured :
        Config → Peer → Linux M × Outcome (Unit {0}) → Linux M × Outcome (Unit {0})
    configured c p (s, done u) = (record s { peers = insert p.public_key p s.peers }, done tt)
    configured c p (s, failed e) = ((on_machine (remove_peer_routing sh g c p) s).0, failed e)

    abbrev pub wg_set : Config → Peer → Run (Linux M) (Unit {0})
    wg_set c p = on_machine (
        quietly (
          command sh (lit "wg") [] (
            words "set"
            ++ interface
              ∷ lit "peer"
              ∷ p.public_key
              ∷ lit "allowed-ips"
              ∷ allowed_ips_of c p
              ∷ [])))

    unfoldable pub configure_peer : Config → Peer → Run (Linux M) (Unit {0})
    configure_peer c p =
        on_machine (add_peer_routing sh g c p) >> (λ s. configured c p (wg_set c p s))

    abbrev pub set_over : Config → Peer → Option Peer → Run (Linux M) (Unit {0})
    set_over c p none = configure_peer c p
    set_over c p (some old) =
        if same_peer old p then ret tt else remove_peer old.public_key >> configure_peer c p

    -- SetPeer
    unfoldable pub set_peer : Config → Peer → Run (Linux M) (Unit {0})
    set_peer c p s = set_over c p (lookup p.public_key s.peers) s

    abbrev delete_link : Bool → Run M (Unit {0})
    delete_link false = ret tt
    delete_link true = quietly (command sh (lit "ip") [] (words "link delete" ++ interface ∷ []))

    -- Down
    unfoldable pub down : Run (Linux M) (Unit {0})
    down = do
      owned ← on_machine (owned_interface)
      on_machine (delete_link owned)
      (λ s. (record s { peers = [] }, done tt))
      on_machine (cleanup_core_rules sh)
      on_machine (cleanup_home_routing sh g)

    -- The deferred Down: it runs where the rest fails, and its own error is dropped.
    abbrev or_down : Linux M × Outcome (Unit {0}) → Linux M × Outcome (Unit {0})
    or_down (s, done u) = (s, done u)
    or_down (s, failed e) = ((down s).0, failed e)

    abbrev forwards : Option Text → Bool
    forwards none = false
    forwards (some t) = same (g.trim_space t) (lit "1")

    abbrev check_forwarding : Run M (Unit {0})
    check_forwarding x = (
      x,
      fail_if (not (forwards (sh.ip_forward x)))
          "IPv4 forwarding is disabled; run sudo easyprivacy-node vpn-setup",
    )

    abbrev is_failed : Outcome (Unit {0}) → Bool
    is_failed (done u) = false
    is_failed (failed e) = true

    -- Up until the interface is added.
    unfoldable pub before_link : Config → Run (Linux M) (Unit {0})
    before_link c = do
      of_outcome (validate g c)
      owned ← on_machine owned_interface
      if owned then down else ret tt
      on_machine (cleanup_core_rules sh)
      on_machine (cleanup_home_routing sh g)
      on_machine (prepare_home_routing sh g)
      on_machine check_forwarding
      routes ← on_machine (command sh (lit "ip") [] (words "-4 route show table all"))
      of_outcome (check_routes g c.subnet routes)
      v6_routes ← on_machine (command sh (lit "ip") [] (words "-6 route show table all"))
      reject_if (is_failed (check_routes g (ipv6_prefix ++ lit "/64") v6_routes))
          "the VPN IPv6 protection subnet is already in use by another interface"

    abbrev ip_do : List Text → Run (Linux M) (Unit {0})
    ip_do r = on_machine (quietly (command sh (lit "ip") [] r))

    -- strings.TrimSuffix(c.Address(1), "/32") + "/24"
    abbrev network_of : Config → Text
    network_of c = elim (g.parse_prefix c.subnet) [
      | none ↦ lit "/24"
      | some n ↦ addr_text (with_last_byte 1 n.addr) ++ lit "/24"
    ]

    abbrev interface_text : Config → Text
    interface_text c =
        lit "[Interface]"
        ++ 10 ∷ lit "PrivateKey = "
        ++ c.private_key
        ++ 10 ∷ lit "ListenPort = "
        ++ decimal c.port
        ++ 10 ∷ []

    -- Up after the interface has its alias.
    unfoldable pub after_link : Config → Run (Linux M) (Unit {0})
    after_link c = do
      ip_do (words "address add" ++ network_of c ∷ lit "dev" ∷ interface ∷ [])
      ip_do (words "-6 address add" ++ (ipv6_prefix ++ lit "1/64") ∷ lit "dev" ∷ interface ∷ [])
      on_machine (
          quietly (
            command sh (lit "wg") (interface_text c)
              (lit "setconf" ∷ interface ∷ lit "/dev/stdin" ∷ [])))
      ip_do (words "link set dev" ++ interface ∷ words "mtu 1280 up")
      on_machine (apply_rules sh false (rules c))

    abbrev named : Config → Linux M × Outcome (Unit {0}) → Linux M × Outcome (Unit {0})
    named c (s, done u) = or_down (after_link c s)
    named c (s, failed e) = ((ip_do (words "link delete" ++ interface ∷ []) s).0, failed e)

    -- Up
    unfoldable pub up : Config → Run (Linux M) (Unit {0})
    up c s =
        (do
          before_link c
          ip_do (words "link add" ++ interface ∷ words "type wireguard")
          (λ t.
              named c (ip_do (words "link set dev" ++ interface ∷ lit "alias" ∷ core_tag ∷ []) t)))
          (record s { config = c; peers = [] })
