-- ===== src/Vpn/Shell.antt =====
-- core/internal/vpn/linux.go: the network commands, and the way their errors pass through the methods
-- that run them; with the functions of strings and strconv that read their output.
use easyprivacy.Base.{
  refl, arith, ◌≡◌, length, fail_if, has_prefix, lit, leb, ltb, Error, is_empty, String, ℕ, Option,
  List, Bool, Outcome, Text,
}
use easyprivacy.Base.{◌∷◌, [], some, none, ◌||◌, ◌&&◌, if◌then◌else◌, ◌==◌, failed, done}

-- A call on a state that may fail; its state is kept where it does.
abbrev pub Run {ℓ κ} : Type ℓ → Type κ → Type (ℓ ⊔ κ)
Run S A = S → S × Outcome A

abbrev pub and_then {ℓ κ μ} :
    {S : Type ℓ} {A : Type κ} {B : Type μ} → S × Outcome A → (A → Run S B) → S × Outcome B
and_then (s, failed e) f = (s, failed e)
and_then (s, done a) f = f a s

-- Where both calls succeed, what the second leaves behind is left behind.
pub and_then_done {ℓ κ μ ν} :
    {S : Type ℓ} {A : Type κ} {B : Type μ} (P : S → Type ν) (r : S × Outcome A) (f : A → Run S B)
    (b : B)
    → (and_then r f).1 ≡ done b
    → ((a : A) (s : S) → (f a s).1 ≡ done b → P (f a s).0)
    → P (and_then r f).0
and_then_done P (s, failed e) f b h k = absurd (ground arith)
and_then_done P (s, done a) f b h k = k a s h

-- P holds behind a call, and Q of its value where it succeeds.
abbrev pub Ensures {ℓ κ μ ν} :
    {S : Type ℓ} {A : Type κ} → (S → Type μ) → (A → S → Type ν) → S × Outcome A → Type (μ ⊔ ν)
Ensures P Q (s, failed e) = P s × Unit {ν}
Ensures P Q (s, done a) = P s × Q a s

pub and_then-Ensures {ℓ κ μ ν ξ ο} :
    {S : Type ℓ} {A : Type κ} {B : Type μ} (P : S → Type ν) (Q : A → S → Type ξ)
    (R : B → S → Type ο) (r : S × Outcome A) (f : A → Run S B)
    → Ensures P Q r
    → ((a : A) (s : S) → P s → Q a s → Ensures P R (f a s))
    → Ensures P R (and_then r f)
and_then-Ensures P Q R (s, failed e) f h k = (h.0, tt)
and_then-Ensures P Q R (s, done a) f h k = k a s h.0 h.1

pub weaken-Ensures {ℓ κ μ ν ξ} :
    {S : Type ℓ} {A : Type κ} (P : S → Type μ) (Q : A → S → Type ν) (R : A → S → Type ξ)
    (r : S × Outcome A)
    → Ensures P Q r
    → ((a : A) (s : S) → Q a s → R a s)
    → Ensures P R r
weaken-Ensures P Q R (s, failed e) h k = (h.0, tt)
weaken-Ensures P Q R (s, done a) h k = (h.0, k a s h.1)

pub Ensures-holds {ℓ κ μ ν} :
    {S : Type ℓ} {A : Type κ} (P : S → Type μ) (Q : A → S → Type ν) (r : S × Outcome A)
    → Ensures P Q r
    → P r.0
Ensures-holds P Q (s, failed e) h = h.0
Ensures-holds P Q (s, done a) h = h.0

pub of_outcome-Ensures {ℓ κ μ ν} :
    {S : Type ℓ} {A : Type κ} (P : S → Type μ) (Q : A → S → Type ν) (o : Outcome A) (s : S)
    → P s
    → ((a : A) → o ≡ done a → Q a s)
    → Ensures P Q (s, o)
of_outcome-Ensures P Q (failed e) s p k = (p, tt)
of_outcome-Ensures P Q (done a) s p k = (p, k a refl)

-- P holds behind a call that fails, and Q of the value behind one that succeeds.
abbrev pub Ends {ℓ κ μ} :
    {S : Type ℓ} {A : Type κ} → (S → Type μ) → (A → S → Type μ) → S × Outcome A → Type μ
Ends P Q (s, failed e) = P s
Ends P Q (s, done a) = Q a s

pub and_then-Ends {ℓ κ μ ν} :
    {S : Type ℓ} {A : Type κ} {B : Type μ} (P : S → Type ν) (Q : A → S → Type ν)
    (R : B → S → Type ν) (r : S × Outcome A) (f : A → Run S B)
    → Ends P Q r
    → ((a : A) (s : S) → Q a s → Ends P R (f a s))
    → Ends P R (and_then r f)
and_then-Ends P Q R (s, failed e) f h k = h
and_then-Ends P Q R (s, done a) f h k = k a s h

pub of_outcome-Ends {ℓ κ μ} :
    {S : Type ℓ} {A : Type κ} (P : S → Type μ) (Q : A → S → Type μ) (o : Outcome A) (s : S)
    → P s
    → ((a : A) → o ≡ done a → Q a s)
    → Ends P Q (s, o)
of_outcome-Ends P Q (failed e) s p k = p
of_outcome-Ends P Q (done a) s p k = k a refl

infixl 5 ◌>>=◌ ◌>>◌
abbrev pub ◌>>=◌ {ℓ κ μ} :
    {S : Type ℓ} {A : Type κ} {B : Type μ} → Run S A → (A → Run S B) → Run S B
◌>>=◌ m f s = and_then (m s) f

abbrev pub ◌>>◌ {ℓ κ} : {S : Type ℓ} {B : Type κ} → Run S (Unit {0}) → Run S B → Run S B
m >> k = m >>= λ _. k

abbrev pub ret {ℓ κ} : {S : Type ℓ} {A : Type κ} → A → Run S A
ret a s = (s, done a)

abbrev pub of_outcome {ℓ κ} : {S : Type ℓ} {A : Type κ} → Outcome A → Run S A
of_outcome o s = (s, o)

abbrev pub reject_if {ℓ} : {S : Type ℓ} → Bool → Error → Run S (Unit {0})
reject_if test e s = (s, fail_if test e)

-- What exec.Command gives, for a name, its input and its arguments: the output, or nothing where it
-- fails or takes more than four seconds; and the reading of what ip prints as JSON: the aliases of
-- links, and the priority of policy rules, as it is printed again, with their table and protocol.
pub record Shell (M : Type 0) : Type 0 where
  pub output : Text → Text → List Text → M → M × Option Text
  pub ip_forward : M → Option Text
  pub link_aliases : Text → Option (List Text)
  pub policy_rules : Text → Option (List (Text × Text × Text))

abbrev limited : Option Text → Outcome Text
limited none = failed "VPN network command failed"
limited (some b) = if ltb 131072 (length b) then failed "network response too large" else done b

-- command
unfoldable pub command : {M : Type 0} → Shell M → Text → Text → List Text → Run M Text
command sh name input args x = let (y, r) = sh.output name input args x in (y, limited r)

-- A command whose output is not read.
abbrev pub quietly : {M : Type 0} → Run M Text → Run M (Unit {0})
quietly m = m >>= λ b. ret tt

abbrev is_space : ℕ → Bool
is_space c = c == 32 || (leb 9 c && leb c 13)

abbrev extend_word : ℕ → Text → List Text → List Text
extend_word c [] ws = (c ∷ []) ∷ ws
extend_word c (d ∷ s) [] = (c ∷ []) ∷ []
extend_word c (d ∷ s) (w ∷ ws) = if is_space d then (c ∷ []) ∷ w ∷ ws else (c ∷ w) ∷ ws

-- strings.Fields of ASCII text
unfoldable pub fields : Text → List Text
fields [] = []
fields (c ∷ s) = let rest = fields s in if is_space c then rest else extend_word c s rest

-- The arguments of a command that are written in one literal.
abbrev pub words : String → List Text
words s = fields (lit s)

-- strings.Contains
unfoldable pub has_infix : Text → Text → Bool
has_infix t [] = is_empty t
has_infix t (c ∷ s) = let rest = has_infix t s in has_prefix t (c ∷ s) || rest

unfoldable drop_quotes : Text → Text
drop_quotes [] = []
drop_quotes (c ∷ s) = let rest = drop_quotes s in if c == 34 then rest else c ∷ s

unfoldable drop_last_quotes : Text → Text
drop_last_quotes [] = []
drop_last_quotes (c ∷ s) =
    let rest = drop_last_quotes s in if c == 34 && is_empty rest then [] else c ∷ rest

-- strings.Trim(s, "\"")
unfoldable pub trim_quotes : Text → Text
unfolding drop_quotes drop_last_quotes
trim_quotes s = drop_last_quotes (drop_quotes s)
