-- ===== src/Vpn/Loading.antt =====
-- core/internal/vpn/manager.go: NewManager, which checks the persisted peers, and the requests that
-- the control socket accepts.
pub mod Invariant
use easyprivacy.Hex
use easyprivacy.Platform.{Platform}
use easyprivacy.Base.{
  lookup, is_some, any, length, Option, insert, ltb, not, fail_if, Dict, same, is_empty, Bool,
  Outcome, List, ℕ, Text, Error, ◌∷◌, [], some, none, ◌||◌, ◌&&◌, ◌+◌, ◌>>◌, ◌>>=◌, if◌then◌else◌,
  ◌==◌, failed, done,
}
use easyprivacy.Vpn.Config.{management_routes, key}
use easyprivacy.Vpn.Validate.{Config, validate}
use easyprivacy.Vpn.Types.{ServiceProfile, Peer, Profile}
use easyprivacy.Vpn.Manager.{last_host, max_peers, first_host, home, vps, Manager, World}
use easyprivacy.Vpn.Service.{register_service, valid_service_name, register_exit}

-- What ReadPrivate finds at peers.json.
pub data PeerFile : Type 0 where
  no_file : PeerFile
  unreadable : Error → PeerFile
  read : List Peer → PeerFile

module _ (g : Platform) where
  abbrev known_exit : Text → Bool
  known_exit e = is_empty e || same e vps || same e home

  -- The checks of NewManager on one peer, after the peers of the map and with the count of services
  -- up to here.
  unfoldable pub check_peer : Dict Peer → ℕ → Peer → Outcome (Unit {0})
  check_peer m services p = do
    fail_if
        (not (Hex.valid_id p.device_id)
          || ltb p.host first_host
          || ltb last_host p.host
          || any (λ k q. q.host == p.host) m
          || any (λ k q. same q.public_key p.public_key) m)
        "invalid persisted VPN peer"
    k ← key g p.public_key
    rs ← management_routes g p.management
    fail_if (not p.service && not (is_empty p.management))
        "only a service may advertise management routes"
    fail_if
        (ltb 1 services
          || not (known_exit p.exit_id)
          || (p.service && (not (is_empty p.exit_id) || not (valid_service_name p.name))))
        "invalid persisted service or exit"
    fail_if (is_some (lookup p.device_id m)) "duplicate VPN device"
    done tt

  abbrev pub services_with : ℕ → Peer → ℕ
  services_with n p = if p.service then n + 1 else n

  -- The loop of NewManager.
  unfoldable pub load_peers : List Peer → ℕ → Dict Peer → Outcome (Dict Peer)
  load_peers [] services m = done m
  load_peers (p ∷ ps) services m =
      let n = services_with services p in
      let rest = load_peers ps n (insert p.device_id p m) in
      elim (check_peer m n p) [ failed e ↦ failed e | done u ↦ rest ]

  abbrev pub peers_of : PeerFile → Outcome (List Peer)
  peers_of no_file = done []
  peers_of (unreadable e) = failed e
  peers_of (read ps) = done ps

  -- NewManager
  unfoldable pub new_manager : {W : Type 0} → Config → PeerFile → W → Outcome (Manager W)
  new_manager c file x = do
    validate g c
    ps ← peers_of file
    fail_if (ltb max_peers (length ps)) "too many VPN peers"
    m ← load_peers ps 0 []
    done (record { config = c; peers = m; world = x })

-- The body of POST /peers and POST /service: a Peer within 1024 bytes.
abbrev refused_peer : Bool → Peer → Bool
refused_peer service p =
    not (p.host == 0)
    || p.service
    || (not service && (not (is_empty p.name) || not (is_empty p.management)))
    || (service && not (is_empty p.exit_id))

-- What the socket answers to a registration.
pub data Answer : Type 0 where
  profile : Profile → Answer
  service_profile : ServiceProfile → Answer
  conflict : Error → Answer

module _ {W : Type 0} (w : World W) (g : Platform) where
  abbrev exit_answer : Manager W × Outcome Profile → Manager W × Answer
  exit_answer (s, done p) = (s, profile p)
  exit_answer (s, failed e) = (s, conflict e)

  abbrev service_answer : Manager W × Outcome ServiceProfile → Manager W × Answer
  service_answer (s, done p) = (s, service_profile p)
  service_answer (s, failed e) = (s, conflict e)

  -- The handler that `register(service)` makes, once the body is decoded.
  unfoldable pub handle_peer : Bool → Option Peer → Manager W → Manager W × Answer
  handle_peer service none s = (s, conflict "invalid peer request")
  handle_peer service (some p) s =
      if refused_peer service p
      then (s, conflict "invalid peer request")
      else if service
      then service_answer (register_service w g p.device_id p.public_key p.name p.management s)
      else exit_answer (register_exit w g p.device_id p.public_key p.exit_id s)
