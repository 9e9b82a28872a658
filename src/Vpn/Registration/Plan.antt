-- ===== src/Vpn/Registration/Plan.antt =====
-- core/internal/vpn/manager.go: the checks of register, and the peer that they let through.
use easyprivacy.Base.{
  Outcome-cases, is_some, if◌then◌else◌, subst, All-lookup, Option-cases, sym, text_discrete,
  length, exists, All, Dict, Bool, ℕ, lookup, ◌==◌, ◌||◌, ◌∙◌, Text, ◌≡◌, ◌<◌, ◌≤◌, inl, inr, true,
  false, arith, refl, [], ◌∷◌, some, none, done,
}
use easyprivacy.Vpn.Types.{Peer}
use easyprivacy.Vpn.Registration.{old_host, free_host, plan_peer, scan_peers}
use easyprivacy.Vpn.Manager.{last_host, first_host, World, max_peers, Manager, values}
use easyprivacy.Vpn.Peers.{Apart, Apart-sym, PeersInv, AwayFrom, Placed, Pairwise}
use easyprivacy.Vpn.Registration.Hosts.{free_host-found}

-- What the scan has found out about the peers of the other devices.
pub record Scanned (request q : Peer) : Type 0 where
  pub keys : ¬ (request.public_key ≡ q.public_key)
  pub services : (request.service ≡ true) → q.service ≡ false

scan_peers-Scanned :
    (request : Peer) (found b : Bool) (m : Dict Peer)
    → scan_peers request found m ≡ done b
    → All (λ j q. ¬ (j ≡ request.device_id) → Scanned request q) m
unfolding scan_peers
scan_peers-Scanned request found b [] h = tt
scan_peers-Scanned request found b ((i, q) ∷ m) h = (
  λ n. record { keys = λ e. ground arith; services = λ e. ground arith },
  scan_peers-Scanned request (found || q.service) b m (ground arith),
)

exists-values :
    (test : Peer → Bool) (m : Dict Peer)
    → exists test (values m) ≡ false
    → All (λ j q. test q ≡ false) m
unfolding values
exists-values test [] h = tt
exists-values test ((i, q) ∷ m) h = (ground arith, exists-values test m (ground arith))

size-values : (m : Dict Peer) → length (values m) ≡ length m
unfolding values
size-values [] = refl
size-values ((i, q) ∷ m) = ground (arith, size-values m)

all_away :
    (k : Text) (v w : Peer) (m : Dict Peer) → w ≡ v → All (λ j q. Apart w q) m → AwayFrom k v m
all_away k v w [] e a = tt
all_away k v w ((i, q) ∷ m) e a = (λ n. subst (λ x. Apart x q) e a.0, all_away k v w m e a.1)

-- The others are apart from a peer of the map.
Pairwise-lookup :
    (k : Text) (v : Peer) (m : Dict Peer) → lookup k m ≡ some v → Pairwise m → AwayFrom k v m
unfolding lookup
Pairwise-lookup k v [] h p = tt
Pairwise-lookup k v ((i, w) ∷ m) h p = elim (text_discrete i k) [
  | yes e ↦ (λ n. absurd (n e), all_away k v w m (ground arith) p.0)
  | no n ↦ (
    λ o. Apart-sym w v (All-lookup (λ j q. Apart w q) k m p.0 (ground arith)),
    Pairwise-lookup k v m (ground arith) p.1,
  )
]

both_away :
    (request v : Peer) (m : Dict Peer)
    → v.public_key ≡ request.public_key
    → v.service ≡ request.service
    → All (λ j q. ¬ (j ≡ request.device_id) → Scanned request q) m
    → All (λ j q. ¬ (j ≡ request.device_id) → ¬ (v.host ≡ q.host)) m
    → AwayFrom request.device_id v m
both_away request v [] e f a b = tt
both_away request v ((i, q) ∷ m) e f a b = (
  λ n. record {
    hosts = b.0 n;
    keys = λ g. (a.0 n).keys (sym e ∙ g);
    services = λ g. (a.0 n).services (sym f ∙ g);
  },
  both_away request v m e f a.1 b.1,
)

-- What is known of a planned peer.
pub record Fits (request p : Peer) (m : Dict Peer) : Type 0 where
  pub placed : Placed request.device_id p
  pub away : AwayFrom request.device_id p m
  pub room : lookup request.device_id m ≡ none → length m < max_peers
  pub named : p.device_id ≡ request.device_id
  pub keyed : p.public_key ≡ request.public_key

All-not_host :
    (h : ℕ) (id : Text) (m : Dict Peer)
    → All (λ j q. (q.host == h) ≡ false) m
    → All (λ j q. ¬ (j ≡ id) → ¬ (h ≡ q.host)) m
All-not_host h id [] a = tt
All-not_host h id ((i, q) ∷ m) a = (λ n e. ground (arith, a.0), All-not_host h id m a.1)

All-host_away :
    (id : Text) (v : Peer) (m : Dict Peer)
    → AwayFrom id v m
    → All (λ j q. ¬ (j ≡ id) → ¬ (v.host ≡ q.host)) m
All-host_away id v [] a = tt
All-host_away id v ((i, q) ∷ m) a = (λ n. (a.0 n).hosts, All-host_away id v m a.1)

module _ {W : Type 0} (w : World W) where
  host_for : Peer → Manager W → ℕ
  host_for request s =
      if is_some (lookup request.device_id s.peers)
      then old_host (lookup request.device_id s.peers)
      else free_host 253 first_host (values s.peers)

  plan_peer_lem :
      (request p : Peer) (s : Manager W)
      → plan_peer w request s ≡ done p
      → (b : Bool) × (scan_peers request false s.peers ≡ done b)
        × (p ≡ record request { host = host_for request s })
        × (lookup request.device_id s.peers ≡ none → length s.peers < max_peers)
  unfolding plan_peer host_for
  plan_peer_lem request p s h = elim (Outcome-cases (scan_peers request false s.peers)) [
    | inl (b, e) ↦ (b, e, ground arith, λ n. ground arith)
    | inr (x, e) ↦ absurd (ground arith)
  ]

  -- A host that is in range and that no other device has.
  abbrev GoodHost : Text → ℕ → Dict Peer → Type 0
  GoodHost id h m = (first_host ≤ h) × (h ≤ last_host) × All (λ j q. ¬ (j ≡ id) → ¬ (h ≡ q.host)) m

  host_for-GoodHost :
      (request : Peer) (s : Manager W)
      → PeersInv s.peers
      → (lookup request.device_id s.peers ≡ none → length s.peers < max_peers)
      → GoodHost request.device_id (host_for request s) s.peers
  unfolding host_for
  host_for-GoodHost request s i room = elim (Option-cases (lookup request.device_id s.peers)) [
    | inl e ↦
        let h = free_host 253 first_host (values s.peers) in
        let (fine, free, low, high, least) =
          free_host-found 253 first_host (values s.peers) (omega arith)
            (omega (arith, size-values s.peers, room e)) in
        rw e (
          low,
          omega arith,
          All-not_host h request.device_id s.peers (exists-values (λ q. q.host == h) s.peers free),
        )
    | inr (old, e) ↦
        let at = All-lookup Placed request.device_id s.peers i.placed e in
        rw e (
          at.above,
          at.below,
          All-host_away request.device_id old s.peers
              (Pairwise-lookup request.device_id old s.peers e i.apart),
        )
  ]

  -- Every peer that the checks let through fits.
  pub plan_peer-Fits :
      (request p : Peer) (s : Manager W)
      → PeersInv s.peers
      → plan_peer w request s ≡ done p
      → Fits request p s.peers
  plan_peer-Fits request p s i h =
      let (b, scanned, made, room) = plan_peer_lem request p s h in
      let (low, high, hosts) = host_for-GoodHost request s i room in
      subst (λ x. Fits request x s.peers) (sym made)
        (record {
          placed = record { keyed = refl; above = low; below = high };
          away =
              both_away request (record request { host = host_for request s }) s.peers refl refl
                (scan_peers-Scanned request false b s.peers scanned) hosts;
          room = room;
          named = refl;
          keyed = refl;
        })
