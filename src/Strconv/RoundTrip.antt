-- ===== src/Strconv/RoundTrip.antt =====
-- strconv: a port is read back from its decimal digits.
use easyprivacy.Base.{
  false, ◌==◌, AllOf, ◌≡◌, ◌≤◌, ◌<◌, ℕ, ◌+◌, ◌*◌, ◌∷◌, some, arith, Bool-cases, inl, inr, ltb, List,
  [], map, every, true, ◌/◌, ◌%◌, refl, leb, ◌&&◌, ◌∙◌, ap,
}
use easyprivacy.Strconv.{decimal, parse_number, port_number, port_digits}

-- The value of digits after a number.
unfoldable value : ℕ → List ℕ → ℕ
value n [] = n
value n (d ∷ ds) = value (n * 10 + d) ds

Small : ℕ → Type 0
Small d = d < 10

abbrev digit : ℕ → ℕ
digit d = 48 + d

le-value : (n : ℕ) (ds : List ℕ) → n ≤ value n ds
unfolding value
le-value n [] = omega arith
le-value n (d ∷ ds) = let rest = le-value (n * 10 + d) ds in omega arith

parse_number-digits :
    (bound n : ℕ) (ds : List ℕ)
    → AllOf Small ds
    → value n ds ≤ bound
    → parse_number bound n (map digit ds) ≡ value n ds
unfolding parse_number value Small
parse_number-digits bound n [] h fits = refl
parse_number-digits bound n (d ∷ ds) h fits =
    let small : d < 10 = h.0 in
    let low = le-value (n * 10 + d) ds in
    let rest = parse_number-digits bound (n * 10 + d) ds (h.1) fits in ground arith

every-digits :
    (ds : List ℕ) → AllOf Small ds → every (λ d. leb 48 d && leb d 57) (map digit ds) ≡ true
unfolding Small
every-digits [] h = refl
every-digits (d ∷ ds) h =
    let small : d < 10 = h.0 in let rest = every-digits ds (h.1) in ground arith

port_digits-digits :
    (d : ℕ) (ds : List ℕ)
    → AllOf Small (d ∷ ds)
    → value 0 (d ∷ ds) ≤ 65536
    → port_digits (map digit (d ∷ ds)) ≡ some (value 0 (d ∷ ds))
port_digits-digits d ds h fits =
    rw (every-digits (d ∷ ds) h, parse_number-digits 65536 0 (d ∷ ds) h fits)

port_number-digits :
    (d : ℕ) (ds : List ℕ)
    → AllOf Small (d ∷ ds)
    → value 0 (d ∷ ds) ≤ 65536
    → port_number (map digit (d ∷ ds)) ≡ some (value 0 (d ∷ ds))
port_number-digits d ds h fits =
    let no_sign : (digit d == 43) ≡ false = ground arith in
    rw (no_sign, port_digits-digits d ds h fits)

digits_value :
    (d : ℕ) (ds : List ℕ) (p : ℕ)
    → AllOf Small (d ∷ ds)
    → value 0 (d ∷ ds) ≡ p
    → p ≤ 65536
    → port_number (map digit (d ∷ ds)) ≡ some p
digits_value d ds p h e fits = port_number-digits d ds h (rw e fits) ∙ ap some e

-- Every port is the number that its decimal digits are read as.
pub port_number-decimal : (p : ℕ) → p ≤ 65536 → port_number (decimal p) ≡ some p
unfolding decimal value Small
port_number-decimal p h = elim (Bool-cases (ltb p 10)) [
  | inl a ↦
      let low : p < 10 = ground arith in
      rw a (digits_value (p % 10) [] p (omega arith, tt) (omega arith) h)
  | inr a ↦ elim (Bool-cases (ltb p 100)) [
    | inl b ↦
        let low : p < 100 = ground arith in
        rw (a, b)
          (digits_value (p / 10) (p % 10 ∷ []) p (omega arith, (omega arith, tt)) (omega arith) h)
    | inr b ↦ elim (Bool-cases (ltb p 1000)) [
      | inl c ↦
          let low : p < 1000 = ground arith in
          rw (a, b, c)
            (digits_value (p / 100) (p / 10 % 10 ∷ p % 10 ∷ []) p
              (omega arith, (omega arith, (omega arith, tt))) (omega arith) h)
      | inr c ↦ elim (Bool-cases (ltb p 10000)) [
        | inl d ↦
            let low : p < 10000 = ground arith in
            rw (a, b, c, d)
              (digits_value (p / 1000) (p / 100 % 10 ∷ p / 10 % 10 ∷ p % 10 ∷ []) p
                (omega arith, (omega arith, (omega arith, (omega arith, tt)))) (omega arith) h)
        | inr d ↦
            rw (a, b, c, d)
              (digits_value (p / 10000) (p / 1000 % 10 ∷ p / 100 % 10 ∷ p / 10 % 10 ∷ p % 10 ∷ []) p
                (omega arith, (omega arith, (omega arith, (omega arith, (omega arith, tt)))))
                (omega arith) h)
      ]
    ]
  ]
]
