-- ===== src/Vpn/Registration.antt =====
-- core/internal/vpn/manager.go: register, from the checks of a request to the peer that is installed,
-- with the ways back where a step fails.
pub mod Hosts
pub mod Plan
pub mod Invariant
pub mod Access
pub mod Rollback
use easyprivacy.Hex
use easyprivacy.Platform.{Platform}
use easyprivacy.Base.{
  is_some, length, leb, is_none, fail_if, lookup, insert, delete, same, exists, Outcome, Error, not,
  Dict, List, Text, Option, Bool, ℕ, ◌∷◌, [], some, none, ◌||◌, ◌&&◌, false, true, ◌+◌, suc, zero,
  ◌>>◌, ◌>>=◌, if◌then◌else◌, ◌==◌, failed, done,
}
use easyprivacy.Vpn.Types.{Peer}
use easyprivacy.Vpn.Manager.{
  first_host, max_peers, home, reconcile, values, save_peers, Manager, World,
}
use easyprivacy.Vpn.Validate.{Config}
use easyprivacy.Vpn.Config.{key}

-- `for host := 2; host <= 254; host++` with a break; `n` rounds are left. 0 where none is free.
unfoldable pub free_host : (n from : ℕ) → List Peer → ℕ
free_host zero from ps = 0
free_host (suc n) from ps =
    let rest = free_host n (from + 1) ps in if exists (λ p. p.host == from) ps then rest else from

-- The loop of register over the other peers: its two refusals, and whether a service was seen.
unfoldable pub scan_peers : Peer → Bool → Dict Peer → Outcome Bool
scan_peers request found [] = done found
scan_peers request found ((other, p) ∷ m) =
    let rest = scan_peers request (found || p.service) m in
    if request.service && p.service && not (same other request.device_id)
    then failed "a home service node is already registered; revoke it before replacing it"
    else if not (same other request.device_id) && same p.public_key request.public_key
    then failed "VPN key belongs to another device"
    else rest

abbrev pub same_flag : Bool → Bool → Bool
same_flag true b = b
same_flag false b = not b

abbrev pub old_host : Option Peer → ℕ
old_host none = 0
old_host (some p) = p.host

-- `old, exists := m.peers[id]`, put back where a later step fails.
abbrev pub restored : Text → Option Peer → Dict Peer → Dict Peer
restored id none m = delete id m
restored id (some old) m = insert id old m

module _ {W : Type 0} (w : World W) where
  abbrev set_again : Config → Option Peer → W → W
  set_again c none x = x
  set_again c (some old) x = (w.set_peer c old x).0

  -- The way out of register where SetPeer failed.
  abbrev undo_set : Peer → Option Peer → Error → Manager W → Manager W × Option Error
  undo_set request old e s =
      let x = (w.remove_peer request.public_key s.world).0 in
      let t = record s {
        peers = restored request.device_id old s.peers;
        world = set_again s.config old x;
      } in
      ((save_peers w t).0, some e)

  abbrev pub set_result :
      Peer → Option Peer → Manager W → W × Option Error → Manager W × Option Error
  set_result request old s (x, none) = (record s { world = x }, none)
  set_result request old s (x, some e) = undo_set request old e (record s { world = x })

  abbrev pub saved_result :
      Peer → Option Peer → Peer → Manager W × Option Error → Manager W × Option Error
  saved_result request old p (s, none) = set_result request old s (w.set_peer s.config p s.world)
  saved_result request old p (s, some e) = (
    record s {
      peers = restored request.device_id old s.peers;
      world = set_again s.config old s.world;
    },
    some e,
  )

  -- register from `m.peers[id] = p` on.
  unfoldable pub install_peer : Peer → Option Peer → Peer → Manager W → Manager W × Option Error
  install_peer request old p s =
      saved_result request old p
        (save_peers w (record s { peers = insert request.device_id p s.peers }))

  abbrev pub retired :
      Peer → Option Peer → Peer → Manager W → W × Option Error → Manager W × Option Error
  retired request old p s (x, some e) = (record s { world = x }, some e)
  retired request old p s (x, none) = install_peer request old p (record s { world = x })

  -- A peer that changes its key is first removed under the old one.
  unfoldable pub retire_key : Peer → Option Peer → Peer → Manager W → Manager W × Option Error
  retire_key request none p s = install_peer request none p s
  retire_key request (some old) p s =
      if same old.public_key request.public_key
      then install_peer request (some old) p s
      else retired request (some old) p s (w.remove_peer old.public_key s.world)

  abbrev changes_role : Peer → Option Peer → Bool
  changes_role request none = false
  changes_role request (some old) = not (same_flag old.service request.service)

  -- The peer that is to be registered, or the refusal.
  unfoldable pub plan_peer : Peer → Manager W → Outcome Peer
  plan_peer request s = do
    let old = lookup request.device_id s.peers
    fail_if (changes_role request old) "disconnect this identity before changing its VPN role"
    found ← scan_peers request false s.peers
    fail_if (same request.exit_id home && not found) "configure the home service node first"
    fail_if (is_none old && leb max_peers (length s.peers)) "VPN peer limit reached"
    done (record request {
      host = if is_some old then old_host old else free_host 253 first_host (values s.peers);
    })

  abbrev pub planned : Peer → Manager W → Outcome Peer → Manager W × Outcome Peer
  planned request s (failed e) = (s, failed e)
  planned request s (done p) =
      let (t, e) = retire_key request (lookup request.device_id s.peers) p s in
      (t, elim e [ none ↦ done p | some err ↦ failed err ])

  abbrev pub reconciled : Peer → Manager W × Option Error → Manager W × Outcome Peer
  reconciled request (s, some e) = (s, failed e)
  reconciled request (s, none) = planned request s (plan_peer request s)

  abbrev pub allowed_by : Text → Outcome (Text → Bool) → Bool
  allowed_by id (failed e) = false
  allowed_by id (done ok) = ok id

  -- register, up to the profile: the peer as it was registered.
  unfoldable pub register_peer : Platform → Peer → Manager W → Manager W × Outcome Peer
  register_peer g request s =
      if not (Hex.valid_id request.device_id)
      then (s, failed "invalid device identity")
      else elim (key g request.public_key) [
        | failed e ↦ (s, failed e)
        | done b ↦
            let (x, records) = w.authorized s.world in
            let t = record s { world = x } in
            if allowed_by request.device_id records
            then reconciled request (reconcile w t)
            else (t, failed "device is not authorized")
      ]
