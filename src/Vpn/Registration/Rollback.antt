-- ===== src/Vpn/Registration/Rollback.antt =====
-- core/internal/vpn/manager.go: a registration that fails.
use easyprivacy.Base.{
  subst, Outcome-cases, Bool-cases, Outcome, ◌≡◌, inl, inr, arith, refl, some, none, done, failed,
  ◌⊎◌, Option, Error,
}
use easyprivacy.Platform.{Platform}
use easyprivacy.Hex
use easyprivacy.Vpn.Manager.{reconcile, Manager, World}
use easyprivacy.Vpn.Types.{Peer}
use easyprivacy.Vpn.Registration.{allowed_by, plan_peer, reconciled, planned, register_peer}
use easyprivacy.Vpn.Config.{key}
use easyprivacy.Vpn.Registration.Invariant.{retire_key-Installed}

module _ {W : Type 0} (w : World W) where
  an_error :
      (q : Peer) (x : Error) (e : Option Error)
      → (elim e as (λ y. Outcome Peer) [ none ↦ done q | some err ↦ failed err ]) ≡ failed x
      → ¬ (e ≡ none)
  an_error q x none h = absurd (ground arith)
  an_error q x (some err) h = λ k. cc

  planned_failed :
      (request : Peer) (x : Error) (s : Manager W)
      → (planned w request s (plan_peer w request s)).1 ≡ failed x
      → (planned w request s (plan_peer w request s)).0.peers ≡ s.peers
  planned_failed request x s h = elim (Outcome-cases (plan_peer w request s)) [
    | inr (e, f) ↦ rw f refl
    | inl (q, f) ↦
        let bad = an_error q x _ (subst (λ o. (planned w request s o).1 ≡ failed x) f h) in
        elim (retire_key-Installed w request q s) [
          | inr (k, e) ↦ rw f e
          | inl (k, e) ↦ absurd (bad k)
        ]
  ]

  reconciled_failed :
      (request : Peer) (x : Error) (r : Manager W × Option Error)
      → (reconciled w request r).1 ≡ failed x
      → (reconciled w request r).0.peers ≡ r.0.peers
  reconciled_failed request x (s, some e) h = refl
  reconciled_failed request x (s, none) h = planned_failed request x s h

  -- A registration that returns an error leaves the peer map as it was, or as reconciling alone has left
  -- it: a peer that was put into the map, or replaced there, is put back.
  pub register_peer_failed :
      (g : Platform) (request : Peer) (x : Error) (s : Manager W)
      → (register_peer w g request s).1 ≡ failed x
      → let t = (register_peer w g request s).0 in
        (t.peers ≡ s.peers)
        ⊎ (t.peers ≡ (reconcile w (record s { world = (w.authorized s.world).0 })).0.peers)
  unfolding register_peer
  register_peer_failed g request x s h =
      let (y, records) = w.authorized s.world in
      let t = record s { world = y } in
      elim (Bool-cases (Hex.valid_id request.device_id)) [
        | inr f ↦ inl (rw f refl)
        | inl v ↦ elim (Outcome-cases (key g request.public_key)) [
          | inr (e, k) ↦ inl (rw (v, k) refl)
          | inl (b, k) ↦ elim (Bool-cases (allowed_by w request.device_id records)) [
            | inr f ↦ inl (rw (v, k, f) refl)
            | inl a ↦
                inr (rw (v, k, a) (reconciled_failed request x (reconcile w t) (ground arith)))
          ]
        ]
      ]
