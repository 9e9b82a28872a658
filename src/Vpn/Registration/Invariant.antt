-- ===== src/Vpn/Registration/Invariant.antt =====
-- core/internal/vpn/manager.go: the peer map after register, on each of its ways out.
use easyprivacy.Hex
use easyprivacy.Base.{
  Outcome-cases, same, Bool-cases, subst, insert-insert, lookup-Lacks, delete-insert, Option-cases,
  lookup, insert, Dict, Text, ◌≡◌, inl, inr, refl, some, none, ◌⊎◌, Option, Error,
}
use easyprivacy.Vpn.Types.{Peer}
use easyprivacy.Vpn.Manager.{reconcile, save_peers, Manager, World}
use easyprivacy.Vpn.Registration.{
  allowed_by, reconciled, plan_peer, planned, register_peer, retired, saved_result, set_result,
  restored, retire_key, install_peer,
}
use easyprivacy.Platform.{Platform}
use easyprivacy.Vpn.Peers.{insert-PeersInv, PeersInv}
use easyprivacy.Vpn.Registration.Plan.{plan_peer-Fits}
use easyprivacy.Vpn.Config.{key}
use easyprivacy.Vpn.Manager.Sweep.{reconcile-PeersInv}

restored_lem :
    (id : Text) (p : Peer) (m : Dict Peer) → restored id (lookup id m) (insert id p m) ≡ m
restored_lem id p m = elim (Option-cases (lookup id m)) [
  | inl e ↦ rw e (delete-insert id p m (lookup-Lacks id m e))
  | inr (old, e) ↦ rw e (insert-insert id old p m e)
]

module _ {W : Type 0} (w : World W) where
  -- Either no error is returned and the peer was put into the map, or the map is as it was.
  abbrev pub Installed : Text → Peer → Dict Peer → Manager W × Option Error → Type 0
  Installed id p m r =
      ((r.1 ≡ none) × (r.0.peers ≡ insert id p m)) ⊎ (¬ (r.1 ≡ none) × (r.0.peers ≡ m))

  set_result-Installed :
      (request : Peer) (old : Option Peer) (p : Peer) (m : Dict Peer) (t : Manager W)
      (r : W × Option Error)
      → t.peers ≡ insert request.device_id p m
      → restored request.device_id old t.peers ≡ m
      → Installed request.device_id p m (set_result w request old t r)
  unfolding save_peers
  set_result-Installed request old p m t (x, none) e b = inl (refl, e)
  set_result-Installed request old p m t (x, some err) e b = inr (λ h. cc, b)

  saved_result-Installed :
      (request : Peer) (old : Option Peer) (p : Peer) (m : Dict Peer) (r : Manager W × Option Error)
      → r.0.peers ≡ insert request.device_id p m
      → restored request.device_id old r.0.peers ≡ m
      → Installed request.device_id p m (saved_result w request old p r)
  saved_result-Installed request old p m (t, none) e b =
      set_result-Installed request old p m t _ e b
  saved_result-Installed request old p m (t, some err) e b = inr (λ h. cc, b)

  install_peer-Installed :
      (request p : Peer) (s : Manager W)
      → Installed request.device_id p s.peers
          (install_peer w request (lookup request.device_id s.peers) p s)
  unfolding install_peer save_peers
  install_peer-Installed request p s =
      saved_result-Installed request (lookup request.device_id s.peers) p s.peers _ refl
        (restored_lem request.device_id p s.peers)

  retired-Installed :
      (request p : Peer) (s : Manager W) (r : W × Option Error)
      → Installed request.device_id p s.peers
          (retired w request (lookup request.device_id s.peers) p s r)
  retired-Installed request p s (x, some e) = inr (λ h. cc, refl)
  retired-Installed request p s (x, none) =
      install_peer-Installed request p (record s { world = x })

  pub retire_key-Installed :
      (request p : Peer) (s : Manager W)
      → Installed request.device_id p s.peers
          (retire_key w request (lookup request.device_id s.peers) p s)
  unfolding retire_key
  retire_key-Installed request p s = elim (Option-cases (lookup request.device_id s.peers)) [
    | inl e ↦
        rw (e, retire_key)
          (subst (λ o. Installed request.device_id p s.peers (install_peer w request o p s)) e
            (install_peer-Installed request p s))
    | inr (old, e) ↦ elim (Bool-cases (same old.public_key request.public_key)) [
      | inl t ↦
          rw (e, t, retire_key)
            (subst (λ o. Installed request.device_id p s.peers (install_peer w request o p s)) e
              (install_peer-Installed request p s))
      | inr f ↦
          rw (e, f, retire_key)
            (subst
              (λ o.
                Installed request.device_id p s.peers
                  (retired w request o p s (w.remove_peer old.public_key s.world)))
              e (retired-Installed request p s (w.remove_peer old.public_key s.world)))
    ]
  ]

  module _ (g : Platform) where
    planned-PeersInv :
        (request : Peer) (s : Manager W)
        → PeersInv s.peers
        → PeersInv (planned w request s (plan_peer w request s)).0.peers
    planned-PeersInv request s i = elim (Outcome-cases (plan_peer w request s)) [
      | inr (e, h) ↦ rw h i
      | inl (p, h) ↦
          let f = plan_peer-Fits w request p s i h in
          rw h (elim (retire_key-Installed request p s) [
            | inl (ok, e) ↦
                rw e (insert-PeersInv request.device_id p s.peers i f.placed f.away f.room)
            | inr (x, e) ↦ rw e i
          ])
    ]

    reconciled-PeersInv :
        (request : Peer) (r : Manager W × Option Error)
        → PeersInv r.0.peers
        → PeersInv (reconciled w request r).0.peers
    reconciled-PeersInv request (s, some e) i = i
    reconciled-PeersInv request (s, none) i = planned-PeersInv request s i

    -- Every registration, whatever step of it fails, keeps the peer map well-formed: at most 128 peers,
    -- under their own devices, with distinct hosts from 2 to 254, distinct keys and one service at most.
    pub register_peer-PeersInv :
        (request : Peer) (s : Manager W)
        → PeersInv s.peers
        → PeersInv (register_peer w g request s).0.peers
    unfolding register_peer
    register_peer-PeersInv request s i =
        let (x, records) = w.authorized s.world in
        let t = record s { world = x } in
        elim (Bool-cases (Hex.valid_id request.device_id)) [
          | inr f ↦ rw f i
          | inl v ↦ elim (Outcome-cases (key g request.public_key)) [
            | inr (e, k) ↦ rw (v, k) i
            | inl (b, k) ↦ elim (Bool-cases (allowed_by w request.device_id records)) [
              | inr f ↦ rw (v, k, f) i
              | inl a ↦
                  rw (v, k, a)
                    (reconciled-PeersInv request (reconcile w t) (reconcile-PeersInv w t i))
            ]
          ]
        ]
