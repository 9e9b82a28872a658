-- ===== src/Base/Bytes.antt =====
-- Go strings and byte slices: both are lists of bytes.
use Prim.Native.Nat.{ℕ, zero, suc}
use Prim.Native.Char.{code}
use Prim.Native.String.{String}
use mathlib.Core.Path.{◌≡◌, refl}
use mathlib.Core.Bool.{Bool, true, false, ◌&&◌}
use easyprivacy.Base.Tests.{◌==◌}
use mathlib.Core.List.{◌++◌, List, [], ◌∷◌}
use native.Mathlib.Omega.{arith}
unfoldable use native.Mathlib.Decide.{ℕ_discrete}

abbrev pub Text : Type 0
Text = List ℕ

-- The bytes of a literal; the literals of the program are ASCII.
abbrev pub lit : String → Text
lit String.[] = []
lit (String.◌∷◌ c s) = code c ∷ lit s

-- Go's `==` on strings, as a decision.
unfoldable pub text_discrete : Discrete Text
unfolding ℕ_discrete
text_discrete [] [] = yes refl
text_discrete [] (y ∷ ys) = no (λ e. cc)
text_discrete (x ∷ xs) [] = no (λ e. cc)
text_discrete (x ∷ xs) (y ∷ ys) = elim (ℕ_discrete x y) [
  | no n ↦ no (λ e. n (cc))
  | yes p ↦ elim (text_discrete xs ys) [ yes q ↦ yes (cc) | no n ↦ no (λ e. n (cc)) ]
]

-- ... and as a test.
abbrev pub same : Text → Text → Bool
same a b = elim (text_discrete a b) [ yes p ↦ true | no p ↦ false ]

pub same_refl : (a : Text) → same a a ≡ true
same_refl a = ground arith

abbrev pub is_empty : Text → Bool
is_empty [] = true
is_empty (c ∷ s) = false

-- strings.HasPrefix
abbrev pub has_prefix : Text → Text → Bool
has_prefix [] s = true
has_prefix (c ∷ p) [] = false
has_prefix (c ∷ p) (d ∷ s) = let rest = has_prefix p s in c == d && rest

-- strings.TrimPrefix where the prefix is there
abbrev pub drop : ℕ → Text → Text
drop zero s = s
drop (suc n) [] = []
drop (suc n) (c ∷ s) = drop n s

-- strings.Join
unfoldable pub join : (separator : Text) → List Text → Text
join sep [] = []
join sep (t ∷ []) = t
join sep (t ∷ u ∷ ts) = t ++ (sep ++ join sep (u ∷ ts))
