-- ===== src/Vpn/Config/Management.antt =====
-- core/internal/vpn/types.go: the routes that ManagementRoutes returns.
use easyprivacy.Base.{
  ltb, subst, suc, Text, ◌≡◌, ◌≤◌, inl, inr, true, false, arith, refl, [], ◌∷◌, List, some, done,
  ◌++◌, lit, Option-cases, Outcome-cases, Bool-cases, length,
}
use easyprivacy.Platform.{Platform}
use easyprivacy.Net.{Addr, is_v4, is_private, addr_text}
use easyprivacy.Vpn.Config.{split, allowed_management, management_routes, management_loop, member}

-- Each route is a private IPv4 address with /32, and its address is none of those before it, of which
-- the first are the given ones.
abbrev pub DistinctRoutes : List Text → List Text → Type 0
DistinctRoutes seen [] = Unit
DistinctRoutes seen (r ∷ rs) =
    (a : Addr) × (r ≡ addr_text a ++ lit "/32")
    × (is_v4 a ≡ true)
    × (is_private a ≡ true)
    × (member (addr_text a) seen ≡ false)
    × DistinctRoutes (addr_text a ∷ seen) rs

module _ (g : Platform) where
  management_loop-DistinctRoutes :
      (seen vs rs : List Text)
      → management_loop g seen vs ≡ done rs
      → DistinctRoutes seen rs × (length rs ≡ length vs)
  unfolding management_loop
  management_loop-DistinctRoutes seen [] rs h =
      let e : [] ≡ rs = ground arith in
      subst (λ qs. DistinctRoutes seen qs × (length qs ≡ 0)) e (tt, refl)
  management_loop-DistinctRoutes seen (v ∷ vs) rs h =
      elim (Option-cases (g.parse_addr (g.trim_space v))) [
        | inl e ↦ absurd (ground arith)
        | inr (a, e) ↦ elim (Bool-cases (allowed_management g seen (some a))) [
          | inr f ↦ absurd (ground arith)
          | inl t ↦ elim (Outcome-cases (management_loop g (addr_text a ∷ seen) vs)) [
            | inr (x, f) ↦ absurd (ground arith)
            | inl (qs, f) ↦
                let (d, l) = management_loop-DistinctRoutes (addr_text a ∷ seen) vs qs f in
                let made : (addr_text a ++ lit "/32") ∷ qs ≡ rs = ground arith in
                subst (λ ps. DistinctRoutes seen ps × (length ps ≡ suc (length vs))) made
                  ((a, refl, ground arith, ground arith, ground arith, d), omega (arith, l))
          ]
        ]
      ]

  -- What ManagementRoutes returns is at most sixteen routes, each a private IPv4 address with /32, and no
  -- address twice.
  pub management_routes-DistinctRoutes :
      (t : Text) (rs : List Text)
      → management_routes g t ≡ done rs
      → DistinctRoutes [] rs × (length rs ≤ 16)
  unfolding management_routes
  management_routes-DistinctRoutes [] rs h =
      let e : [] ≡ rs = ground arith in
      subst (λ qs. DistinctRoutes [] qs × (length qs ≤ 16)) e (tt, omega arith)
  management_routes-DistinctRoutes (c ∷ s) rs h =
      elim (Bool-cases (ltb 16 (length (split 44 (c ∷ s))))) [
        | inl t ↦ absurd (ground arith)
        | inr f ↦
            let (d, l) = management_loop-DistinctRoutes [] (split 44 (c ∷ s)) rs (ground arith) in
            (d, ground arith)
      ]
