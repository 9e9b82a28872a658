-- ===== src/Vpn/Linux/Peers.antt =====
-- core/internal/vpn/linux.go: the peers that the backend has configured.
use easyprivacy.Base.{subst, if◌then◌else◌}
use easyprivacy.Vpn.Shell.{ret}
use easyprivacy.Vpn.Shell.{of_outcome, ◌>>◌}
use easyprivacy.Base.{
  delete, same_refl, Option, ◌∙◌, Text, ◌≡◌, inl, inr, true, arith, refl, some, none, done, failed,
  lookup, Bool-cases, Outcome, lookup-insert, lookup-delete,
}
use easyprivacy.Platform.{Platform}
use easyprivacy.Vpn.Shell.{and_then_done, Shell}
use easyprivacy.Vpn.Linux.{
  forget_peer, wg_remove, wg_set, on_machine, set_over, forget_found, Linux, configured,
  configure_peer, set_peer, remove_peer, same_peer,
}
use easyprivacy.Vpn.Validate.{Config}
use easyprivacy.Vpn.Types.{Peer}
use easyprivacy.Vpn.HomeRouting.{remove_peer_routing, add_peer_routing}
use easyprivacy.Vpn.Config.{key}

same_peer_refl : (p : Peer) → same_peer p p ≡ true
same_peer_refl p = ground arith

module _ {M : Type 0} (sh : Shell M) (g : Platform) where
  configured_done :
      (c : Config) (p : Peer) (r : Linux M × Outcome (Unit {0}))
      → (configured sh g c p r).1 ≡ done tt
      → lookup p.public_key (configured sh g c p r).0.peers ≡ some p
  configured_done c p (s, done u) h =
      ground (arith, lookup-insert p.public_key p.public_key p s.peers)
  configured_done c p (s, failed e) h = absurd (ground arith)

  configure_peer_done :
      (c : Config) (p : Peer) (s : Linux M)
      → (configure_peer sh g c p s).1 ≡ done tt
      → lookup p.public_key (configure_peer sh g c p s).0.peers ≡ some p
  unfolding configure_peer
  configure_peer_done c p s h =
      and_then_done (λ (t : Linux M). lookup p.public_key t.peers ≡ some p)
        (on_machine (add_peer_routing sh g c p) s) (λ u t. configured sh g c p (wg_set sh g c p t))
        tt h (λ a t k. configured_done c p (wg_set sh g c p t) k)

  forget_found_done :
      (text : Text) (o : Option Peer) (s : Linux M)
      → lookup text s.peers ≡ o
      → (forget_found sh g text o s).1 ≡ done tt
      → lookup text (forget_found sh g text o s).0.peers ≡ none
  forget_found_done text none s e h = e
  forget_found_done text (some p) s e h =
      and_then_done (λ (t : Linux M). lookup text t.peers ≡ none)
        (on_machine (remove_peer_routing sh g s.config p) s)
        (λ u t. (record t { peers = delete text t.peers }, done tt)) tt h
        (λ a t k. lookup-delete text text t.peers ∙ rw (same_refl text) refl)

  -- After a RemovePeer without an error the backend has no peer with the key.
  pub remove_peer_done :
      (text : Text) (s : Linux M)
      → (remove_peer sh g text s).1 ≡ done tt
      → lookup text (remove_peer sh g text s).0.peers ≡ none
  unfolding remove_peer
  remove_peer_done text s h =
      and_then_done (λ (t : Linux M). lookup text t.peers ≡ none) (of_outcome (key g text) s)
        (λ k. wg_remove sh g text >> forget_peer sh g text) tt h
        (λ b t k.
          and_then_done (λ (u : Linux M). lookup text u.peers ≡ none) (wg_remove sh g text t)
            (λ a. forget_peer sh g text) tt k
            (λ a u l. forget_found_done text (lookup text u.peers) u refl l))

  set_over_done :
      (c : Config) (p : Peer) (o : Option Peer) (s : Linux M)
      → lookup p.public_key s.peers ≡ o
      → (set_over sh g c p o s).1 ≡ done tt
      → (q : Peer) × (lookup p.public_key (set_over sh g c p o s).0.peers ≡ some q)
        × (same_peer q p ≡ true)
  set_over_done c p none s e h = (p, configure_peer_done c p s h, same_peer_refl p)
  set_over_done c p (some old) s e h = elim (Bool-cases (same_peer old p)) [
    | inl t ↦ (old, rw t e, t)
    | inr f ↦ (
      p,
      rw f (
          and_then_done (λ (t : Linux M). lookup p.public_key t.peers ≡ some p)
            (remove_peer sh g old.public_key s) (λ u. configure_peer sh g c p) tt
            (subst
              (λ b.
                ((if b
                    then ret tt
                    else (remove_peer sh g old.public_key >> configure_peer sh g c p))
                  s).1
                ≡ done tt)
              f h)
            (λ a t k. configure_peer_done c p t k)),
      same_peer_refl p,
    )
  ]

  -- After a SetPeer without an error the backend has the peer under its key.
  pub set_peer_done :
      (c : Config) (p : Peer) (s : Linux M)
      → (set_peer sh g c p s).1 ≡ done tt
      → (q : Peer) × (lookup p.public_key (set_peer sh g c p s).0.peers ≡ some q)
        × (same_peer q p ≡ true)
  unfolding set_peer
  set_peer_done c p s h = set_over_done c p (lookup p.public_key s.peers) s refl h
