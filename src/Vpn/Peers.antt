-- ===== src/Vpn/Peers.antt =====
-- core/internal/vpn/manager.go: the well-formedness of the peer map, and the operations on it.
use easyprivacy.Base.{
  size-insert, ◌∙◌, if◌then◌else◌, All-insert, insert-IsMap, size-delete, text_discrete, length,
  delete-IsMap, lookup, All-delete, Lacks, sym, IsMap, All, delete, insert, Dict, Text, ◌≡◌, ◌<◌,
  ◌≤◌, none, true, false, arith, [], ◌∷◌,
}
use easyprivacy.Vpn.Types.{Peer}
use easyprivacy.Vpn.Manager.{max_peers, last_host, first_host}

-- No two peers share a host or a key, and one of them at most is the service.
pub record Apart (p q : Peer) : Type 0 where
  pub hosts : ¬ (p.host ≡ q.host)
  pub keys : ¬ (p.public_key ≡ q.public_key)
  pub services : (p.service ≡ true) → q.service ≡ false

abbrev pub Pairwise : Dict Peer → Type 0
Pairwise [] = Unit
Pairwise ((k, p) ∷ m) = All (λ j q. Apart p q) m × Pairwise m

-- A peer stands under its device, with a host of the network.
pub record Placed (k : Text) (p : Peer) : Type 0 where
  pub keyed : k ≡ p.device_id
  pub above : first_host ≤ p.host
  pub below : p.host ≤ last_host

pub record PeersInv (m : Dict Peer) : Type 0 where
  pub is_map : IsMap m
  pub bounded : length m ≤ max_peers
  pub placed : All Placed m
  pub apart : Pairwise m

pub Apart-sym : (p q : Peer) → Apart p q → Apart q p
Apart-sym p q a = record {
  hosts = λ e. a.hosts (sym e);
  keys = λ e. a.keys (sym e);
  services = λ e. ground (arith, a.services);
}

-- What is known of the peers of all other devices.
abbrev pub AwayFrom : Text → Peer → Dict Peer → Type 0
AwayFrom k v m = All (λ j q. ¬ (j ≡ k) → Apart v q) m

others-Apart :
    (i k : Text) (v : Peer) (m : Dict Peer)
    → i ≡ k
    → Lacks i m
    → AwayFrom k v m
    → All (λ j q. Apart v q) m
others-Apart i k v [] e h a = tt
others-Apart i k v ((j, w) ∷ m) e h a =
    (a.0 (λ (f : j ≡ k). h.0 (f ∙ sym e)), others-Apart i k v m e h.1 a.1)

Pairwise-insert :
    (k : Text) (v : Peer) (m : Dict Peer)
    → IsMap m
    → AwayFrom k v m
    → Pairwise m
    → Pairwise (insert k v m)
unfolding insert
Pairwise-insert k v [] h a p = (tt, tt)
Pairwise-insert k v ((i, w) ∷ m) h a p =
    elim (text_discrete i k)
      as (λ (x : Dec (i ≡ k)).
        Pairwise
          (if elim x [ yes e ↦ true | no n ↦ false ] then (k, v) ∷ m else (i, w) ∷ insert k v m)) [
            | yes e ↦ (others-Apart i k v m e h.0 a.1, p.1)
            | no n ↦ (
              All-insert (λ j q. Apart w q) k v m (Apart-sym v w (a.0 n)) p.0,
              Pairwise-insert k v m h.1 a.1 p.1,
            )
          ]

Pairwise-delete : (k : Text) (m : Dict Peer) → Pairwise m → Pairwise (delete k m)
unfolding delete
Pairwise-delete k [] p = tt
Pairwise-delete k ((i, w) ∷ m) p =
    ground (arith, Pairwise-delete k m p.1, All-delete (λ j q. Apart w q) k m p.0)

pub insert-PeersInv :
    (k : Text) (v : Peer) (m : Dict Peer)
    → PeersInv m
    → Placed k v
    → AwayFrom k v m
    → (lookup k m ≡ none → length m < max_peers)
    → PeersInv (insert k v m)
insert-PeersInv k v m i p a room = record {
  is_map = insert-IsMap k v m i.is_map;
  bounded = ground (arith, size-insert {0} k v m, i.bounded, room);
  placed = All-insert Placed k v m p i.placed;
  apart = Pairwise-insert k v m i.is_map a i.apart;
}

pub delete-PeersInv : (k : Text) (m : Dict Peer) → PeersInv m → PeersInv (delete k m)
delete-PeersInv k m i = record {
  is_map = delete-IsMap k m i.is_map;
  bounded = omega (arith, size-delete {0} k m, i.bounded);
  placed = All-delete Placed k m i.placed;
  apart = Pairwise-delete k m i.apart;
}
