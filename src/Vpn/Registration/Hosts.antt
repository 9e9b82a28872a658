-- ===== src/Vpn/Registration/Hosts.antt =====
-- core/internal/vpn/manager.go: the search of register for a free host.
use easyprivacy.Base.{
  ℕ_discrete, ◌⊎◌, Bool-cases, exists, length, ℕ, ◌∙◌, if◌then◌else◌, ◌≡◌, ◌<◌, ◌≤◌, inl, inr, true,
  false, arith, refl, [], ◌∷◌, List, suc, zero, ◌+◌, ◌==◌,
}
use easyprivacy.Vpn.Registration.{free_host}
use easyprivacy.Vpn.Types.{Peer}

-- The peers that do not have the host.
unfoldable without_host : ℕ → List Peer → List Peer
without_host h [] = []
without_host h (p ∷ ps) = let rest = without_host h ps in if p.host == h then rest else p ∷ rest

size-without_host_le : (h : ℕ) (ps : List Peer) → length (without_host h ps) ≤ length ps
unfolding without_host
size-without_host_le h [] = omega arith
size-without_host_le h (p ∷ ps) = ground (arith, size-without_host_le h ps)

size-without_host :
    (h : ℕ) (ps : List Peer)
    → exists (λ p. p.host == h) ps ≡ true
    → length (without_host h ps) < length ps
unfolding without_host
size-without_host h [] e = cc
size-without_host h (p ∷ ps) e = ground (arith, size-without_host h ps, size-without_host_le h ps)

exists-without_host :
    (h j : ℕ) (ps : List Peer)
    → h < j
    → exists (λ p. p.host == j) (without_host h ps) ≡ exists (λ p. p.host == j) ps
unfolding without_host
exists-without_host h j [] l = refl
exists-without_host h j (p ∷ ps) l = ground (arith, exists-without_host h j ps l)

free_host-without_host :
    (n h from : ℕ) (ps : List Peer)
    → h < from
    → free_host n from (without_host h ps) ≡ free_host n from ps
unfolding free_host
free_host-without_host zero h from ps l = refl
free_host-without_host (suc n) h from ps l =
    ground (
      arith,
      exists-without_host h from ps l,
      free_host-without_host n h (from + 1) ps (omega arith),
    )

-- What is found is free.
pub free_host-free :
    (n from : ℕ) (ps : List Peer)
    → ¬ (free_host n from ps ≡ 0)
    → (exists (λ p. p.host == free_host n from ps) ps ≡ false)
      × (from ≤ free_host n from ps)
      × (free_host n from ps < from + n)
unfolding free_host
free_host-free zero from ps h = absurd (h refl)
free_host-free (suc n) from ps h = elim (Bool-cases (exists (λ p. p.host == from) ps)) [
  | inl t ↦ let r = free_host-free n (from + 1) ps (ground arith) in ground arith
  | inr f ↦ ground arith
]

free_host-full : (n from : ℕ) (ps : List Peer) → 0 < from → free_host n from ps ≡ 0 → n ≤ length ps
unfolding free_host
free_host-full zero from ps p h = omega arith
free_host-full (suc n) from ps p h = elim (Bool-cases (exists (λ p. p.host == from) ps)) [
  | inl t ↦
      let rest =
        free_host-full n (from + 1) (without_host from ps) (omega arith)
          (free_host-without_host n from (from + 1) ps (omega arith) ∙ ground arith) in
      omega (arith, rest, size-without_host from ps t)
  | inr f ↦ absurd (ground arith)
]

-- Every host before the one that is found is taken.
free_host-first :
    (n from j : ℕ) (ps : List Peer)
    → ¬ (free_host n from ps ≡ 0)
    → (exists (λ p. p.host == j) ps ≡ true) ⊎ (j < from) ⊎ (free_host n from ps ≤ j)
unfolding free_host
free_host-first zero from j ps h = absurd (h refl)
free_host-first (suc n) from j ps h = elim (Bool-cases (exists (λ p. p.host == from) ps)) [
  | inl t ↦ elim (free_host-first n (from + 1) j ps (ground arith)) [
    | inl e ↦ inl e
    | inr (inl b) ↦ elim (ℕ_discrete j from) [
      | yes e ↦ inl (rw e t)
      | no m ↦ inr (inl (omega (arith, b, m)))
    ]
    | inr (inr l) ↦ inr (inr (ground arith))
  ]
  | inr f ↦ inr (ground arith)
]

-- While there are fewer peers than hosts to search, the search from a host above 0 finds one: not 0, of the hosts
-- searched, of no peer, and the first such, since every host searched before it is a peer's.
pub free_host-found :
    (n from : ℕ) (ps : List Peer)
    → 0 < from
    → length ps < n
    → ¬ (free_host n from ps ≡ 0)
      × (exists (λ p. p.host == free_host n from ps) ps ≡ false)
      × (from ≤ free_host n from ps)
      × (free_host n from ps < from + n)
      × ((j : ℕ) → (exists (λ p. p.host == j) ps ≡ true) ⊎ (j < from) ⊎ (free_host n from ps ≤ j))
free_host-found n from ps p l =
    let found : ¬ (free_host n from ps ≡ 0) = λ e. omega (arith, free_host-full n from ps p e) in
    let (free, low, high) = free_host-free n from ps found in
    (found, free, low, high, λ j. free_host-first n from j ps found)
