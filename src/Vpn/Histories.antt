-- ===== src/Vpn/Histories.antt =====
-- core/internal/vpn/manager.go: histories of the methods of the manager, in any order.
use easyprivacy.Base.{
  Outcome-cases, sym, lookup-delete, subst, Option-cases, Outcome, same, Bool-cases, ℕ,
  if◌then◌else◌, lookup, Text, ◌≡◌, inl, inr, arith, refl, [], ◌∷◌, List, some, none, Option, Error,
}
use easyprivacy.Platform.{Platform}
use easyprivacy.Vpn.Service
use easyprivacy.Hex
use easyprivacy.Vpn.Types.{Peer}
use easyprivacy.Vpn.Manager.{reconcile, Manager, save_peers, World}
use easyprivacy.Vpn.Peers.{delete-PeersInv, PeersInv}
use easyprivacy.Vpn.Manager.Sweep.{reconcile-PeersInv}
use easyprivacy.Vpn.Registration.{register_peer}
use easyprivacy.Vpn.Registration.Invariant.{register_peer-PeersInv}

-- A call of a method. Registrations of exits and services are both calls of register.
pub data Call : Type 0 where
  reconciles : Call
  registers : Peer → Call
  removes : Text → Call
  reads_status : Text → Call
  lists_exits : ℕ → Call

module _ {W : Type 0} (w : World W) where
  remove-PeersInv :
      (id : Text) (s : Manager W) → PeersInv s.peers → PeersInv (Service.remove w id s).0.peers
  unfolding Service.remove save_peers
  remove-PeersInv id s i = elim (Bool-cases (Hex.valid_id id)) [
    | inr f ↦ rw f i
    | inl v ↦ elim (Option-cases (lookup id s.peers)) [
      | inl e ↦ rw (v, e) i
      | inr (p, e) ↦ elim (Option-cases (w.remove_peer p.public_key s.world).1) [
        | inl n ↦ rw (v, e, n) (delete-PeersInv id s.peers i)
        | inr (x, n) ↦ rw (v, e, n) i
      ]
    ]
  ]

  -- After a removal without an error the map has no peer of the device, and the others are untouched.
  pub remove-done :
      (id : Text) (s : Manager W)
      → (Service.remove w id s).1 ≡ none
      → (j : Text)
      → lookup j (Service.remove w id s).0.peers ≡ (if same id j then none else lookup j s.peers)
  unfolding Service.remove save_peers
  remove-done id s h j = elim (Bool-cases (Hex.valid_id id)) [
    | inr f ↦ absurd (ground arith)
    | inl v ↦ elim (Option-cases (lookup id s.peers)) [
      | inl e ↦ rw (v, e) (ground arith)
      | inr (p, e) ↦ elim (Option-cases (w.remove_peer p.public_key s.world).1) [
        | inl n ↦ rw (v, e, n) (lookup-delete id j s.peers)
        | inr (x, n) ↦ absurd (ground arith)
      ]
    ]
  ]

  peer_status_of-peers :
      (o : Option Peer) (s : Manager W) → (Service.peer_status_of w o s).0.peers ≡ s.peers
  peer_status_of-peers none s = refl
  peer_status_of-peers (some p) s = refl

  -- A method that reconciles first and then only reads.
  after_reconcile-PeersInv {ℓ} :
      {A : Type ℓ} (f : Manager W → Manager W × Outcome A) (r : Manager W × Option Error)
      → ((s : Manager W) → (f s).0.peers ≡ s.peers)
      → PeersInv r.0.peers
      → PeersInv (Service.after_reconcile w f r).0.peers
  after_reconcile-PeersInv f (s, some e) same_peers i = i
  after_reconcile-PeersInv f (s, none) same_peers i = subst PeersInv (sym (same_peers s)) i

  module _ (g : Platform) where
    unfoldable pub after_call : Manager W → Call → Manager W
    after_call s reconciles = (reconcile w s).0
    after_call s (registers p) = (Service.register w g p s).0
    after_call s (removes id) = (Service.remove w id s).0
    after_call s (reads_status id) = (Service.status w id s).0
    after_call s (lists_exits now) = (Service.exits w now s).0

    unfoldable pub calls : Manager W → List Call → Manager W
    unfolding after_call
    calls s [] = s
    calls s (c ∷ cs) = calls (after_call s c) cs

    register-PeersInv :
        (p : Peer) (s : Manager W) → PeersInv s.peers → PeersInv (Service.register w g p s).0.peers
    unfolding Service.register
    register-PeersInv p s i = elim (Outcome-cases (register_peer w g p s).1) [
      | inl (q, e) ↦ rw e (register_peer-PeersInv w g p s i)
      | inr (x, e) ↦ rw e (register_peer-PeersInv w g p s i)
    ]

    after_call-PeersInv :
        (c : Call) (s : Manager W) → PeersInv s.peers → PeersInv (after_call s c).peers
    unfolding after_call Service.status Service.exits
    after_call-PeersInv reconciles s i = reconcile-PeersInv w s i
    after_call-PeersInv (registers p) s i = register-PeersInv p s i
    after_call-PeersInv (removes id) s i = remove-PeersInv id s i
    after_call-PeersInv (reads_status id) s i =
        after_reconcile-PeersInv (λ t. Service.peer_status_of w (lookup id t.peers) t)
          (reconcile w s) (λ t. peer_status_of-peers (lookup id t.peers) t)
          (reconcile-PeersInv w s i)
    after_call-PeersInv (lists_exits now) s i =
        after_reconcile-PeersInv (Service.list_exits w now) (reconcile w s) (λ t. refl)
          (reconcile-PeersInv w s i)

    -- From a well-formed peer map every history of calls, whatever the exit and the disk answer,
    -- leaves a well-formed one: at most 128 peers, each under its own device, with distinct hosts
    -- from 2 to 254, distinct keys and one service at most.
    pub calls-PeersInv :
        (cs : List Call) (s : Manager W) → PeersInv s.peers → PeersInv (calls s cs).peers
    unfolding calls
    calls-PeersInv [] s i = i
    calls-PeersInv (c ∷ cs) s i = calls-PeersInv cs _ (after_call-PeersInv c s i)
