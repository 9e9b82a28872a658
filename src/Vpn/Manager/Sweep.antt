-- ===== src/Vpn/Manager/Sweep.antt =====
-- core/internal/vpn/manager.go: the peer map after reconcile.
use easyprivacy.Base.{
  sym, subst, Error, Outcome, Option, some, false, refl, failed, done, arith, IsMap, length, Lacks,
  none, true, ◌≡◌, ◌≤◌, Option-cases, Bool-cases, All, Dict, Bool, Text, inl, inr, [], ◌∷◌,
}
use easyprivacy.Vpn.Manager.{
  disabled, values, disable_all, swept, reconcile_with, reconcile, Manager, save_peers, sweep,
  World,
}
use easyprivacy.Vpn.Types.{Peer}
use easyprivacy.Vpn.Peers.{Placed, PeersInv, Apart, Pairwise}

module _ {W : Type 0} (w : World W) where
  -- What every peer of a map has, the peers that are left have.
  sweep-All :
      (P : Text → Peer → Type 0) (ok : Text → Bool) (m : Dict Peer) (x : W)
      → All P m
      → All P (sweep w ok m x).1
  unfolding sweep
  sweep-All P ok [] x h = tt
  sweep-All P ok ((i, p) ∷ m) x h = elim (Bool-cases (ok i)) [
    | inl t ↦ rw t (h.0, sweep-All P ok m x h.1)
    | inr f ↦ elim (Option-cases (w.remove_peer p.public_key x).1) [
      | inl e ↦ rw (f, e) (sweep-All P ok m (w.remove_peer p.public_key x).0 h.1)
      | inr (err, e) ↦ rw (f, e) h
    ]
  ]

  sweep-Lacks :
      (k : Text) (ok : Text → Bool) (m : Dict Peer) (x : W) → Lacks k m → Lacks k (sweep w ok m x).1
  unfolding sweep
  sweep-Lacks k ok [] x h = tt
  sweep-Lacks k ok ((i, p) ∷ m) x h = elim (Bool-cases (ok i)) [
    | inl t ↦ rw t (h.0, sweep-Lacks k ok m x h.1)
    | inr f ↦ elim (Option-cases (w.remove_peer p.public_key x).1) [
      | inl e ↦ rw (f, e) (sweep-Lacks k ok m (w.remove_peer p.public_key x).0 h.1)
      | inr (err, e) ↦ rw (f, e) h
    ]
  ]

  sweep-size : (ok : Text → Bool) (m : Dict Peer) (x : W) → length (sweep w ok m x).1 ≤ length m
  unfolding sweep
  sweep-size ok [] x = omega arith
  sweep-size ok ((i, p) ∷ m) x =
      ground (arith, sweep-size ok m x, sweep-size ok m (w.remove_peer p.public_key x).0)

  sweep-maps :
      (ok : Text → Bool) (m : Dict Peer) (x : W)
      → IsMap m
      → Pairwise m
      → IsMap (sweep w ok m x).1 × Pairwise (sweep w ok m x).1
  unfolding sweep
  sweep-maps ok [] x h q = (tt, tt)
  sweep-maps ok ((i, p) ∷ m) x h q = elim (Bool-cases (ok i)) [
    | inl t ↦
        let (a, b) = sweep-maps ok m x h.1 q.1 in
        rw t ((sweep-Lacks i ok m x h.0, a), (sweep-All (λ j q. Apart p q) ok m x q.0, b))
    | inr f ↦ elim (Option-cases (w.remove_peer p.public_key x).1) [
      | inl e ↦ rw (f, e) (sweep-maps ok m (w.remove_peer p.public_key x).0 h.1 q.1)
      | inr (err, e) ↦ rw (f, e) (h, q)
    ]
  ]

  -- Without an error, every peer that is left is authorized.
  sweep-authorized :
      (ok : Text → Bool) (m : Dict Peer) (x : W)
      → (sweep w ok m x).3 ≡ none
      → All (λ k p. ok k ≡ true) (sweep w ok m x).1
  unfolding sweep
  sweep-authorized ok [] x h = tt
  sweep-authorized ok ((i, p) ∷ m) x h = elim (Bool-cases (ok i)) [
    | inl t ↦ rw t (t, sweep-authorized ok m x (ground arith))
    | inr f ↦ elim (Option-cases (w.remove_peer p.public_key x).1) [
      | inl e ↦ rw (f, e) (sweep-authorized ok m (w.remove_peer p.public_key x).0 (ground arith))
      | inr (err, e) ↦ absurd (ground arith)
    ]
  ]

  sweep-PeersInv :
      (ok : Text → Bool) (m : Dict Peer) (x : W) → PeersInv m → PeersInv (sweep w ok m x).1
  sweep-PeersInv ok m x i =
      let (a, b) = sweep-maps ok m x i.is_map i.apart in
      record {
        is_map = a;
        bounded = omega (arith, sweep-size ok m x, i.bounded);
        placed = sweep-All Placed ok m x i.placed;
        apart = b;
      }

  -- The end of reconcile does not touch the peers.
  swept-peers :
      (s : Manager W) (r : W × Dict Peer × Bool × Option Error) → (swept w s r).0.peers ≡ r.1
  unfolding save_peers
  swept-peers s (x, m, changed, some e) = refl
  swept-peers s (x, m, false, none) = refl
  swept-peers s (x, m, true, none) = refl

  reconcile_with-PeersInv :
      (s : Manager W) (r : W × Outcome (Text → Bool))
      → PeersInv s.peers
      → PeersInv (reconcile_with w s r).0.peers
  reconcile_with-PeersInv s (x, failed e) i =
      elim (Option-cases (disable_all w (values s.peers) x).1) [
        | inl h ↦ rw h i
        | inr (err, h) ↦ rw h i
      ]
  reconcile_with-PeersInv s (x, done ok) i =
      subst PeersInv (sym (swept-peers s (sweep w ok s.peers x))) (sweep-PeersInv ok s.peers x i)

  pub reconcile-PeersInv : (s : Manager W) → PeersInv s.peers → PeersInv (reconcile w s).0.peers
  unfolding reconcile
  reconcile-PeersInv s i = reconcile_with-PeersInv s (w.authorized s.world) i

  swept-error :
      (s : Manager W) (r : W × Dict Peer × Bool × Option Error)
      → (swept w s r).1 ≡ none
      → r.3 ≡ none
  unfolding save_peers
  swept-error s (x, m, changed, some e) h = cc
  swept-error s (x, m, false, none) h = refl
  swept-error s (x, m, true, none) h = refl

  disabled-error : (s : Manager W) (r : W × Option Error) → ¬ ((disabled w s r).1 ≡ none)
  disabled-error s (x, some e) h = cc
  disabled-error s (x, none) h = cc

  reconcile_with-authorized :
      (s : Manager W) (r : W × Outcome (Text → Bool))
      → (reconcile_with w s r).1 ≡ none
      → (ok : Text → Bool) × (r.1 ≡ done ok)
        × All (λ k p. ok k ≡ true) (reconcile_with w s r).0.peers
  reconcile_with-authorized s (x, failed e) h = absurd (disabled-error s _ h)
  reconcile_with-authorized s (x, done ok) h = (
    ok,
    refl,
    subst (All (λ k p. ok k ≡ true)) (sym (swept-peers s (sweep w ok s.peers x)))
        (sweep-authorized ok s.peers x (swept-error s (sweep w ok s.peers x) h)),
  )

  -- A reconcile without an error has read the authorization records, and every peer that it leaves is
  -- authorized by them.
  pub reconcile-authorized :
      (s : Manager W)
      → (reconcile w s).1 ≡ none
      → (ok : Text → Bool) × ((w.authorized s.world).1 ≡ done ok)
        × All (λ k p. ok k ≡ true) (reconcile w s).0.peers
  unfolding reconcile
  reconcile-authorized s h = reconcile_with-authorized s (w.authorized s.world) h
