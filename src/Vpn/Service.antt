-- ===== src/Vpn/Service.antt =====
-- core/internal/vpn/manager.go: the methods of the manager that the core's server and the control
-- socket call, and its main loop.
use easyprivacy.Hex
use easyprivacy.Platform.{Platform}
use easyprivacy.Vpn.Types.{Exit, ServiceProfile, Profile, Status, Peer}
use easyprivacy.Base.{
  every, leb, delete, same, length, ltb, lookup, Error, not, ℕ, Option, Bool, List, Outcome, Text,
  ◌∷◌, [], some, none, ◌&&◌, false, true, ◌-◌, if◌then◌else◌, ◌==◌, failed, done,
}
use easyprivacy.Vpn.Manager.{values, home, reconcile, save_peers, vps, Manager, World}
use easyprivacy.Vpn.Registration.{register_peer}
use easyprivacy.Vpn.Config.{management_routes}
use easyprivacy.Vpn.Validate.{profile_of, Config}

-- validServiceName, of a name whose characters are all below 128 or not controls.
unfoldable pub valid_service_name : Text → Bool
valid_service_name name =
    not (length name == 0)
    && leb (length name) 80
    && every (λ r. not (ltb r 32) && not (r == 127)) name

abbrev routes_or_none : Outcome (List Text) → List Text
routes_or_none (failed e) = []
routes_or_none (done rs) = rs

-- The name and the routes of the service, for a profile through it.
unfoldable pub through_service : Platform → List Peer → Profile → Profile
through_service g [] v = v
through_service g (p ∷ ps) v = through_service g ps (
    if p.service
    then record v {
      exit_name = p.name;
      management_routes = routes_or_none (management_routes g p.management);
    }
    else v)

module _ {W : Type 0} (w : World W) (g : Platform) where
  abbrev profile_for : Manager W → Peer → Profile
  profile_for s p =
      let v = profile_of g s.config p in
      if same p.exit_id home
      then through_service g (values s.peers) (record v { exit_id = home })
      else v

  abbrev pub with_profile : Manager W × Outcome Peer → Manager W × Outcome Profile
  with_profile (s, failed e) = (s, failed e)
  with_profile (s, done p) = (s, done (profile_for s p))

  -- register
  unfoldable pub register : Peer → Manager W → Manager W × Outcome Profile
  register request s = with_profile (register_peer w g request s)

  abbrev exit_or_vps : Text → Text
  exit_or_vps [] = vps
  exit_or_vps (c ∷ e) = c ∷ e

  -- RegisterExit
  unfoldable pub register_exit : (id key exit : Text) → Manager W → Manager W × Outcome Profile
  register_exit id key exit s =
      let wanted = exit_or_vps exit in
      if not (same wanted vps) && not (same wanted home)
      then (s, failed "unknown VPN exit")
      else register
          (record {
            device_id = id;
            public_key = key;
            host = 0;
            exit_id = wanted;
            service = false;
            name = [];
            management = [];
          })
          s

  abbrev service_result : Text → Manager W × Outcome Profile → Manager W × Outcome ServiceProfile
  service_result name (s, failed e) = (s, failed e)
  service_result name (s, done p) = (
    s,
    done (record {
      profile = record p { exit_id = home; exit_name = name; allowed_ips = s.config.subnet ∷ [] };
      subnet = s.config.subnet;
    }),
  )

  -- RegisterService; the profile that comes with an error is not read by any caller.
  unfoldable pub register_service :
      (id key name addresses : Text) → Manager W → Manager W × Outcome ServiceProfile
  register_service id key name addresses s =
      if not (valid_service_name name)
      then (s, failed "enter a service name from 1 to 80 characters")
      else elim (management_routes g addresses) [
        | failed e ↦ (s, failed e)
        | done rs ↦ service_result name (
            register
              (record {
                device_id = id;
                public_key = key;
                host = 0;
                exit_id = [];
                service = true;
                name = name;
                management = addresses;
              })
              s)
      ]

module _ {W : Type 0} (w : World W) where
  abbrev removed : Text → Manager W → W × Option Error → Manager W × Option Error
  removed id s (x, some e) = (record s { world = x }, some e)
  removed id s (x, none) = save_peers w (record s { peers = delete id s.peers; world = x })

  -- Remove
  unfoldable pub remove : Text → Manager W → Manager W × Option Error
  remove id s =
      if not (Hex.valid_id id) then (s, some "invalid device") else elim (lookup id s.peers) [
        | none ↦ (s, none)
        | some p ↦ removed id s (w.remove_peer p.public_key s.world)
      ]

  abbrev no_status : Status
  no_status = record { active = false; last_handshake = 0; received = 0; sent = 0 }

  abbrev pub peer_status_of : Option Peer → Manager W → Manager W × Outcome Status
  peer_status_of none s = (s, done no_status)
  peer_status_of (some p) s =
      let (x, r) = w.peer_status p.public_key s.world in (record s { world = x }, r)

  abbrev pub after_reconcile {ℓ} :
      {A : Type ℓ}
      → (Manager W → Manager W × Outcome A)
      → Manager W × Option Error
      → Manager W × Outcome A
  after_reconcile f (s, some e) = (s, failed e)
  after_reconcile f (s, none) = f s

  -- Status
  unfoldable pub status : Text → Manager W → Manager W × Outcome Status
  status id s = after_reconcile (λ t. peer_status_of (lookup id t.peers) t) (reconcile w s)

  -- Info
  unfoldable pub info : Manager W → Outcome Exit
  info s = done (record { id = vps; name = s.config.name; ready = true; message = "" })

  -- `now` is in seconds, as is a handshake.
  abbrev is_ready : ℕ → Outcome Status → Bool
  is_ready now (failed e) = false
  is_ready now (done v) = v.active && ltb 0 v.last_handshake && ltb (now - v.last_handshake) 180

  abbrev home_exit : Peer → Bool → Exit
  home_exit p ready = record {
    id = home;
    name = p.name;
    ready = ready;
    message =
        if ready then "" else "Home service node is offline or waiting for its VPN handshake.";
  }

  -- The loop of Exits.
  unfoldable pub home_exits : ℕ → List Peer → W → W × List Exit
  home_exits now [] x = (x, [])
  home_exits now (p ∷ ps) x =
      let (y, r) = w.peer_status p.public_key x in
      let (z, rest) = home_exits now ps y in
      let skipped = home_exits now ps x in
      if p.service then (z, home_exit p (is_ready now r) ∷ rest) else skipped

  abbrev pub list_exits : ℕ → Manager W → Manager W × Outcome (List Exit)
  list_exits now s =
      let (x, found) = home_exits now (values s.peers) s.world in
      (
        record s { world = x },
        done (record { id = vps; name = s.config.name; ready = true; message = "" } ∷ found),
      )

  -- Exits
  unfoldable pub exits : ℕ → Manager W → Manager W × Outcome (List Exit)
  exits now s = after_reconcile (list_exits now) (reconcile w s)

  -- The loop of Serve that sets every peer.
  unfoldable pub set_all : Config → List Peer → W → W × Option Error
  set_all c [] x = (x, none)
  set_all c (p ∷ ps) x =
      let (y, e) = w.set_peer c p x in elim e [ none ↦ set_all c ps y | some err ↦ (y, some err) ]

  abbrev serve_reconciled : Manager W × Option Error → Manager W × Option Error
  serve_reconciled (s, some e) = (s, some e)
  serve_reconciled (s, none) =
      let (x, e) = set_all s.config (values s.peers) s.world in (record s { world = x }, e)

  abbrev serve_up : Manager W → W × Option Error → Manager W × Option Error
  serve_up s (x, some e) = (record s { world = x }, some e)
  serve_up s (x, none) = serve_reconciled (reconcile w (record s { world = x }))

  -- Serve up to its socket; from there on it calls reconcile every second, and ends where that fails.
  unfoldable pub serve_start : Manager W → Manager W × Option Error
  serve_start s = serve_up s (w.up s.config s.world)
