-- ===== src/Vpn/Loading/Invariant.antt =====
-- core/internal/vpn/manager.go: the peer map that NewManager builds.
use easyprivacy.Base.{
  All-insert, size-insert, subst, List, insert, refl, suc, Option-cases, Outcome-cases, lookup,
  same, All, length, Bool, Dict, any, ℕ, ◌+◌, ◌==◌, Text, ◌≡◌, ◌≤◌, inl, inr, true, false, arith,
  [], ◌∷◌, none, done,
}
use easyprivacy.Platform.{Platform}
use easyprivacy.Vpn.Loading.{peers_of, PeerFile, new_manager, load_peers, services_with, check_peer}
use easyprivacy.Vpn.Types.{Peer}
use easyprivacy.Vpn.Peers.{insert-PeersInv, AwayFrom, PeersInv}
use easyprivacy.Vpn.Manager.{Manager, max_peers, last_host, first_host}
use easyprivacy.Vpn.Config.{management_routes, key}
use easyprivacy.Vpn.Validate.{validate, Config}

-- While the loop runs: what holds of the map, with the count of services and the peers that are left.
record Loaded (n left : ℕ) (m : Dict Peer) : Type 0 where
  inv : PeersInv m
  small : length m + left ≤ max_peers
  no_service : n ≡ 0 → All (λ k p. p.service ≡ false) m

module _ (g : Platform) where
  -- What the checks have found out about one peer.
  record Checked (n : ℕ) (m : Dict Peer) (p : Peer) : Type 0 where
    low : first_host ≤ p.host
    high : p.host ≤ last_host
    hosts : any (λ k q. q.host == p.host) m ≡ false
    keys : any (λ k q. same q.public_key p.public_key) m ≡ false
    services : n ≤ 1
    fresh : lookup p.device_id m ≡ none

  check_peer-Checked :
      (m : Dict Peer) (n : ℕ) (p : Peer) → check_peer g m n p ≡ done tt → Checked n m p
  unfolding check_peer
  check_peer-Checked m n p h = elim (Outcome-cases (key g p.public_key)) [
    | inr (x, e) ↦ absurd (ground arith)
    | inl (b, e) ↦ elim (Outcome-cases (management_routes g p.management)) [
      | inr (x, f) ↦ absurd (ground arith)
      | inl (rs, f) ↦ record {
        low = ground arith;
        high = ground arith;
        hosts = ground arith;
        keys = ground arith;
        services = ground arith;
        fresh = elim (Option-cases (lookup p.device_id m)) [
          | inl n ↦ n
          | inr (q, k) ↦ absurd (ground arith)
        ];
      }
    ]
  ]

any-false :
    (test : Text → Peer → Bool) (m : Dict Peer)
    → any test m ≡ false
    → All (λ k q. test k q ≡ false) m
unfolding any
any-false test [] h = tt
any-false test ((i, q) ∷ m) h = (ground arith, any-false test m (ground arith))

checked_away :
    (n : ℕ) (p : Peer) (m : Dict Peer)
    → All (λ k q. (q.host == p.host) ≡ false) m
    → All (λ k q. same q.public_key p.public_key ≡ false) m
    → (p.service ≡ true → All (λ k q. q.service ≡ false) m)
    → AwayFrom p.device_id p m
checked_away n p [] a b c = tt
checked_away n p ((i, q) ∷ m) a b c = (
  λ o. record {
    hosts = λ e. ground (arith, a.0);
    keys = λ e. ground (arith, b.0);
    services = λ e. (c e).0;
  },
  checked_away n p m a.1 b.1 (λ e. (c e).1),
)

module _ (g : Platform) where
  insert-Loaded :
      (services left : ℕ) (p : Peer) (m : Dict Peer)
      → Loaded services (suc left) m
      → Checked g (services_with g services p) m p
      → Loaded (services_with g services p) left (insert p.device_id p m)
  insert-Loaded services left p m l c = record {
    inv =
        insert-PeersInv p.device_id p m l.inv
          (record { keyed = refl; above = c.low; below = c.high })
          (checked_away 0 p m (any-false _ m c.hosts) (any-false _ m c.keys)
            (λ e. l.no_service (ground (arith, c.services))))
          (λ e. omega (arith, l.small));
    small = ground (arith, size-insert {0} p.device_id p m, l.small, c.fresh);
    no_service = λ z.
        All-insert (λ k q. q.service ≡ false) p.device_id p m (ground arith)
          (l.no_service (ground arith));
  }

  load_peers-PeersInv :
      (ps : List Peer) (services : ℕ) (m t : Dict Peer)
      → Loaded services (length ps) m
      → load_peers g ps services m ≡ done t
      → PeersInv t
  unfolding load_peers
  load_peers-PeersInv [] services m t l h = subst PeersInv (ground arith) l.inv
  load_peers-PeersInv (p ∷ ps) services m t l h =
      elim (Outcome-cases (check_peer g m (services_with g services p) p)) [
        | inr (x, e) ↦ absurd (ground arith)
        | inl (u, e) ↦
            load_peers-PeersInv ps _ _ t
              (insert-Loaded services (length ps) p m l (check_peer-Checked g m _ p e))
              (ground arith)
      ]

  empty-Loaded : (ps : List Peer) → length ps ≤ max_peers → Loaded 0 (length ps) []
  empty-Loaded ps h = record {
    inv = record { is_map = tt; bounded = omega arith; placed = tt; apart = tt };
    small = omega arith;
    no_service = λ e. tt;
  }

  -- Where NewManager returns a manager, its peer map is well-formed, whatever peers.json holds,
  -- and its configuration is the given one, which passes the checks.
  pub new_manager-PeersInv :
      {W : Type 0} (c : Config) (file : PeerFile) (x : W) (s : Manager W)
      → new_manager g c file x ≡ done s
      → PeersInv s.peers × (validate g c ≡ done tt) × (s.config ≡ c)
  unfolding new_manager
  new_manager-PeersInv c file x s h = elim (Outcome-cases (validate g c)) [
    | inr (e, v) ↦ absurd (ground arith)
    | inl (u, v) ↦ elim (Outcome-cases (peers_of g file)) [
      | inr (e, r) ↦ absurd (ground arith)
      | inl (ps, r) ↦ elim (Outcome-cases (load_peers g ps 0 [])) [
        | inr (e, k) ↦ absurd (ground arith)
        | inl (m, k) ↦ (
          subst PeersInv (ground arith)
              (load_peers-PeersInv ps 0 [] m (empty-Loaded ps (ground arith)) k),
          v,
          ground arith,
        )
      ]
    ]
  ]
