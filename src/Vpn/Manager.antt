-- ===== src/Vpn/Manager.antt =====
-- core/internal/vpn/manager.go: the peers of the exit. The mutex makes each method one step. The
-- loops over the peer map go in the order of the list, which may be any.
pub mod Sweep
use easyprivacy.Vpn.Types.{Peer, Status}
use easyprivacy.Vpn.Validate.{Config}
use easyprivacy.Base.{
  lit, Error, Outcome, List, Bool, Text, ℕ, Dict, Option, ◌∷◌, [], some, none, false, true,
  if◌then◌else◌, failed, done,
}

-- What the manager calls: the methods of Backend, the write of peers.json, and the read of the
-- authorization records. W is the state of the machine.
pub record World (W : Type 0) : Type 0 where
  pub up : Config → W → W × Option Error
  pub set_peer : Config → Peer → W → W × Option Error
  pub remove_peer : Text → W → W × Option Error
  pub peer_status : Text → W → W × Outcome Status
  pub save : List Peer → W → W × Option Error
  pub authorized : W → W × Outcome (Text → Bool)

pub record Manager (W : Type 0) : Type 0 where
  pub config : Config
  pub peers : Dict Peer
  pub world : W

abbrev pub max_peers : ℕ
max_peers = 128

abbrev pub first_host : ℕ
first_host = 2

abbrev pub last_host : ℕ
last_host = 254

unfoldable pub values {ℓ} : {V : Type ℓ} → Dict V → List V
values [] = []
values ((k, v) ∷ m) = v ∷ values m

abbrev pub vps : Text
vps = lit "vps"

abbrev pub home : Text
home = lit "home"

module _ {W : Type 0} (w : World W) where
  -- The loop that disables every peer where the records cannot be read.
  unfoldable pub disable_all : List Peer → W → W × Option Error
  disable_all [] x = (x, none)
  disable_all (p ∷ ps) x =
      let (y, e) = w.remove_peer p.public_key x in
      elim e [ none ↦ disable_all ps y | some err ↦ (y, some err) ]

  abbrev keep_entry :
      Text → Peer → W × Dict Peer × Bool × Option Error → W × Dict Peer × Bool × Option Error
  keep_entry id p (x, m, changed, e) = (x, (id, p) ∷ m, changed, e)

  abbrev drop_entry : W × Dict Peer × Bool × Option Error → W × Dict Peer × Bool × Option Error
  drop_entry (x, m, changed, e) = (x, m, true, e)

  -- The loop of reconcile over the peers that are left to visit: the peers that stay, and whether
  -- one was removed. The loop stops at the first removal that fails.
  unfoldable pub sweep : (Text → Bool) → Dict Peer → W → W × Dict Peer × Bool × Option Error
  sweep ok [] x = (x, [], false, none)
  sweep ok ((id, p) ∷ m) x =
      let (y, e) = w.remove_peer p.public_key x in
      let kept = keep_entry id p (sweep ok m x) in
      let gone = drop_entry (sweep ok m y) in
      if ok id then kept else elim e [ some err ↦ (y, (id, p) ∷ m, false, some err) | none ↦ gone ]

  abbrev at_world : Manager W → W × Option Error → Manager W × Option Error
  at_world s (x, e) = (record s { world = x }, e)

  -- save
  unfoldable pub save_peers : Manager W → Manager W × Option Error
  save_peers s = at_world s (w.save (values s.peers) s.world)

  abbrev pub swept : Manager W → W × Dict Peer × Bool × Option Error → Manager W × Option Error
  swept s (x, m, changed, some e) = (record s { peers = m; world = x }, some e)
  swept s (x, m, false, none) = (record s { peers = m; world = x }, none)
  swept s (x, m, true, none) = save_peers (record s { peers = m; world = x })

  abbrev pub disabled : Manager W → W × Option Error → Manager W × Option Error
  disabled s (x, some e) = (record s { world = x }, some e)
  disabled s (x, none) =
      (record s { world = x }, some "device authorization records unavailable; VPN peers disabled")

  abbrev pub reconcile_with : Manager W → W × Outcome (Text → Bool) → Manager W × Option Error
  reconcile_with s (x, failed e) = disabled s (disable_all (values s.peers) x)
  reconcile_with s (x, done ok) = swept s (sweep ok s.peers x)

  -- reconcile
  unfoldable pub reconcile : Manager W → Manager W × Option Error
  reconcile s = reconcile_with s (w.authorized s.world)
