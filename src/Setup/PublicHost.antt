-- ===== src/Setup/PublicHost.antt =====
-- core/cmd/easyprivacy-node/vpn_host.go: which address is offered as the public one.
use easyprivacy.Setup.{candidates, is_candidate}
use easyprivacy.Net.{Addr, v4, v6}
use easyprivacy.Base.{
  Bool-cases, if◌then◌else◌, AllOf, arith, exists, Bool, List, ℕ, ◌∷◌, [], false, true, inr, inl,
  ◌⊎◌, ◌↔◌, refl, ◌≡◌, ◌==◌,
}

abbrev member : ℕ → List ℕ → Bool
member n = exists (λ k. k == n)

abbrev pub is_address : ℕ → Addr → Bool
is_address n (v4 m) = m == n
is_address n (v6 m t) = false

-- An address that is n, or is no candidate.
pub Agrees : ℕ → Addr → Type 0
Agrees n (v4 m) = is_candidate m ≡ true → m ≡ n
Agrees n (v6 m t) = Unit

-- The only candidate among the addresses.
pub record Only (n : ℕ) (addresses : List Addr) : Type 0 where
  pub is_there : exists (is_address n) addresses ≡ true
  pub usable : is_candidate n ≡ true
  pub alone : AllOf (Agrees n) addresses

candidates-keeps :
    (n : ℕ) (xs : List Addr) (ns : List ℕ) → member n ns ≡ true → member n (candidates xs ns) ≡ true
unfolding candidates
candidates-keeps n [] ns h = h
candidates-keeps n (v6 m t ∷ xs) ns h = candidates-keeps n xs ns h
candidates-keeps n (v4 m ∷ xs) ns h = candidates-keeps n xs _ (ground arith)

candidates-from :
    (n : ℕ) (xs : List Addr) (ns : List ℕ)
    → member n (candidates xs ns) ≡ true
    → (member n ns ≡ true) ⊎ ((exists (is_address n) xs ≡ true) × (is_candidate n ≡ true))
unfolding candidates
candidates-from n [] ns h = inl h
candidates-from n (v6 m t ∷ xs) ns h = candidates-from n xs ns h
candidates-from n (v4 m ∷ xs) ns h = let rest = candidates-from n xs _ h in ground arith

candidates-has :
    (n m : ℕ) (xs : List Addr) (ns : List ℕ)
    → is_candidate m ≡ true
    → candidates (v4 m ∷ xs) ns ≡ n ∷ []
    → m ≡ n
unfolding candidates
candidates-has n m xs ns usable h =
    let there : member m (if is_candidate m then (if member m ns then ns else m ∷ ns) else ns)
        ≡ true =
      ground arith in
    let kept = candidates-keeps m xs _ there in ground arith

candidates-Agrees :
    (n : ℕ) (xs : List Addr) (ns : List ℕ) → candidates xs ns ≡ n ∷ [] → AllOf (Agrees n) xs
unfolding candidates Agrees
candidates-Agrees n [] ns h = tt
candidates-Agrees n (v6 m t ∷ xs) ns h = (tt, candidates-Agrees n xs ns h)
candidates-Agrees n (v4 m ∷ xs) ns h = (
  (λ usable. candidates-has n m xs ns usable (unfold candidates in h)),
  candidates-Agrees n xs _ h,
)

onwards-Only :
    (n : ℕ) (xs : List Addr) (ns : List ℕ)
    → AllOf (Agrees n) xs
    → is_candidate n ≡ true
    → (ns ≡ n ∷ []) ⊎ ((ns ≡ []) × (exists (is_address n) xs ≡ true))
    → candidates xs ns ≡ n ∷ []
unfolding candidates Agrees
onwards-Only n [] ns a u h = ground arith
onwards-Only n (v6 m t ∷ xs) ns a u h = onwards-Only n xs ns a.1 u h
onwards-Only n (v4 m ∷ xs) ns a u h =
    onwards-Only n xs _ a.1 u (elim (Bool-cases (is_candidate m)) [
      | inl c ↦ let e : m ≡ n = a.0 c in ground arith
      | inr c ↦ ground arith
    ])

-- The candidates are one address alone exactly where it is among the addresses, is a global unicast address of
-- none of the special blocks, and every other address is no such one.
pub candidates-Only :
    (n : ℕ) (addresses : List Addr) → (candidates addresses [] ≡ n ∷ []) ↔ Only n addresses
candidates-Only n addresses = (
  λ e.
      let there : member n (candidates addresses []) ≡ true = rw e (ground arith) in
      let from = candidates-from n addresses [] there in
      record {
        is_there = ground arith;
        usable = ground arith;
        alone = candidates-Agrees n addresses [] e;
      },
  λ o. onwards-Only n addresses [] o.alone o.usable (inr (refl, o.is_there)),
)
