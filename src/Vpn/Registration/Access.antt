-- ===== src/Vpn/Registration/Access.antt =====
-- core/internal/vpn/manager.go: who is registered by register.
use easyprivacy.Base.{
  ap, same_refl, Bool-cases, lookup-insert, subst, Outcome, ◌∙◌, Outcome-cases, lookup, Bool, Text,
  ◌≡◌, inl, inr, true, arith, refl, some, none, done, failed, Option, Error,
}
use easyprivacy.Platform.{Platform}
use easyprivacy.Hex
use easyprivacy.Vpn.Manager.{reconcile, Manager, World}
use easyprivacy.Vpn.Types.{Peer}
use easyprivacy.Vpn.Config.{key}
use easyprivacy.Vpn.Peers.{PeersInv}
use easyprivacy.Vpn.Registration.{allowed_by, register_peer, reconciled, plan_peer, planned}
use easyprivacy.Vpn.Registration.Invariant.{retire_key-Installed}
use easyprivacy.Vpn.Manager.Sweep.{reconcile-PeersInv}
use easyprivacy.Vpn.Registration.Plan.{plan_peer-Fits}

module _ {W : Type 0} (w : World W) where
  -- What stands behind a registration that succeeded.
  pub record Registered (g : Platform) (request p : Peer) (s t : Manager W) : Type 0 where
    pub identity : Hex.valid_id request.device_id ≡ true
    pub key_bytes : Text
    pub keyed : key g request.public_key ≡ done key_bytes
    pub allowed : Text → Bool
    pub read : (w.authorized s.world).1 ≡ done allowed
    pub authorized : allowed request.device_id ≡ true
    pub stored : lookup request.device_id t.peers ≡ some p
    pub same_key : p.public_key ≡ request.public_key

  no_error :
      (p q : Peer) (e : Option Error)
      → (elim e as (λ x. Outcome Peer) [ none ↦ done q | some err ↦ failed err ]) ≡ done p
      → (e ≡ none) × (q ≡ p)
  no_error p q none h = (refl, ground arith)
  no_error p q (some err) h = absurd (ground arith)

  planned_sound :
      (request p : Peer) (s : Manager W)
      → PeersInv s.peers
      → (planned w request s (plan_peer w request s)).1 ≡ done p
      → (lookup request.device_id (planned w request s (plan_peer w request s)).0.peers ≡ some p)
        × (p.public_key ≡ request.public_key)
  planned_sound request p s i h = elim (Outcome-cases (plan_peer w request s)) [
    | inr (e, f) ↦ absurd (ground arith)
    | inl (q, f) ↦
        let (ok, same_peer) =
          no_error p q _ (subst (λ o. (planned w request s o).1 ≡ done p) f h) in
        elim (retire_key-Installed w request q s) [
          | inr (x, e) ↦ absurd (x ok)
          | inl (k, e) ↦ (
            rw (f, e)
                (lookup-insert request.device_id request.device_id q s.peers
                  ∙ rw (same_refl request.device_id) (ap (λ x. some x) same_peer)),
            rw (← same_peer) ((plan_peer-Fits w request q s i f).keyed),
          )
        ]
  ]

  reconciled_sound :
      (request p : Peer) (r : Manager W × Option Error)
      → PeersInv r.0.peers
      → (reconciled w request r).1 ≡ done p
      → (lookup request.device_id (reconciled w request r).0.peers ≡ some p)
        × (p.public_key ≡ request.public_key)
  reconciled_sound request p (s, some e) i h = cc
  reconciled_sound request p (s, none) i h = planned_sound request p s i h

  allowed_by_lem :
      (id : Text) (o : Outcome (Text → Bool))
      → allowed_by w id o ≡ true
      → (ok : Text → Bool) × (o ≡ done ok) × (ok id ≡ true)
  allowed_by_lem id (failed e) h = cc
  allowed_by_lem id (done ok) h = (ok, refl, h)

  -- Where the peer map is well-formed, a peer is registered only for a valid identity that the
  -- authorization records allow, with a valid key; the peer that is returned then stands in the
  -- map under the identity, with the key that was asked for.
  pub register_peer_sound :
      (g : Platform) (request p : Peer) (s : Manager W)
      → PeersInv s.peers
      → (register_peer w g request s).1 ≡ done p
      → Registered g request p s (register_peer w g request s).0
  unfolding register_peer
  register_peer_sound g request p s i h =
      let (x, records) = w.authorized s.world in
      let t = record s { world = x } in
      elim (Bool-cases (Hex.valid_id request.device_id)) [
        | inr f ↦ absurd (ground arith)
        | inl v ↦ elim (Outcome-cases (key g request.public_key)) [
          | inr (e, k) ↦ absurd (ground arith)
          | inl (b, k) ↦ elim (Bool-cases (allowed_by w request.device_id records)) [
            | inr f ↦ absurd (ground arith)
            | inl a ↦
                let (ok, read, allowed) = allowed_by_lem request.device_id records a in
                let (stored, named) =
                  reconciled_sound request p (reconcile w t) (reconcile-PeersInv w t i)
                    (ground arith) in
                record {
                  identity = v;
                  key_bytes = b;
                  keyed = k;
                  allowed = ok;
                  read = read;
                  authorized = allowed;
                  stored = rw (v, k, a) stored;
                  same_key = named;
                }
          ]
        ]
      ]
