-- ===== src/Hex/Digits.antt =====
-- An accepted identity is exactly 64 lower-case hexadecimal digits.
use easyprivacy.Base.{
  Option-cases, inl, inr, zero, Text, length, ltb, leb, if◌then◌else◌, ℕ, suc, ◌+◌, ◌-◌, ◌*◌, ◌/◌,
  ◌%◌, ◌<◌, ◌≡◌, refl, ap, ◌↔◌, Bool, true, ◌&&◌, ◌||◌, Option, none, some, [], ◌∷◌, map, arith,
  every,
}
use easyprivacy.Hex.{digit, encode, value, decode, lower, valid_id, byte_of}

-- 0-9, a-f
abbrev pub lower_digit : ℕ → Bool
lower_digit c = (leb 48 c && leb c 57) || (leb 97 c && leb c 102)

value-digit : (n : ℕ) → n < 16 → value (digit n) ≡ some n
unfolding value digit
value-digit n h = ground arith

-- Decoding undoes encoding, on bytes.
pub decode-encode : (bs : Text) → every (λ b. ltb b 256) bs ≡ true → decode (encode bs) ≡ some bs
unfolding decode encode
decode-encode [] h = refl
decode-encode (b ∷ bs) h =
    rw (value-digit (b / 16) (omega (arith, small)), value-digit (b % 16) (omega arith))
      (rw (decode-encode bs (ground arith)) (ap (λ (c : ℕ). some (c ∷ bs)) (omega arith)))
  where
    small : b < 256
    small = ground arith

is_lower_digit : (c n : ℕ) → value c ≡ some n → lower c ≡ c → lower_digit c ≡ true
unfolding value lower
is_lower_digit c n v e = ground arith

abbrev digit_value : ℕ → ℕ
digit_value c = if leb c 57 then c - 48 else c - 87

value-of_lower : (c : ℕ) → lower_digit c ≡ true → value c ≡ some (digit_value c)
unfolding value
value-of_lower c h = ground arith

lower-of_lower : (c : ℕ) → lower_digit c ≡ true → lower c ≡ c
unfolding lower
lower-of_lower c h = ground arith

-- A byte that decodes has two digits before it.
record Decoded (a b : Option ℕ) (c : Option Text) (bs : Text) : Type 0 where
  high : ℕ
  low : ℕ
  rest : Text
  of_high : a ≡ some high
  of_low : b ≡ some low
  of_rest : c ≡ some rest
  whole : bs ≡ (high * 16 + low) ∷ rest

byte_of_cases :
    (a b : Option ℕ) (c : Option Text) (bs : Text) → byte_of a b c ≡ some bs → Decoded a b c bs
byte_of_cases (some h) (some l) (some r) bs e = record {
  high = h;
  low = l;
  rest = r;
  of_high = refl;
  of_low = refl;
  of_rest = refl;
  whole = ground arith;
}
byte_of_cases none b c bs e = cc
byte_of_cases (some h) none c bs e = cc
byte_of_cases (some h) (some l) none bs e = cc

-- What decodes, and is its own lower case, is twice as many lower-case digits.
decode-lower :
    (s bs : Text)
    → decode s ≡ some bs
    → map lower s ≡ s
    → (length s ≡ 2 * length bs) × (every lower_digit s ≡ true)
unfolding decode
decode-lower [] bs d e = ground arith
decode-lower (c ∷ []) bs d e = cc
decode-lower (h ∷ l ∷ s) bs d e = ground (
  arith,
  is_lower_digit h w.high w.of_high (cc),
  is_lower_digit l w.low w.of_low (cc),
  decode-lower s w.rest w.of_rest (cc),
  ap length w.whole,
)
  where
    w : Decoded (value h) (value l) (decode s) bs
    w = byte_of_cases _ _ _ bs d

-- An even number of lower-case digits decodes, and is its own lower case.
lower-decode :
    (n : ℕ) (s : Text)
    → length s ≡ 2 * n
    → every lower_digit s ≡ true
    → ((bs : Text) × (decode s ≡ some bs) × (length bs ≡ n)) × (map lower s ≡ s)
unfolding decode
lower-decode zero [] e h = (([], refl, refl), refl)
lower-decode (suc n) [] e h = absurd (omega arith)
lower-decode n (c ∷ []) e h = absurd (omega arith)
lower-decode zero (a ∷ b ∷ s) e h = absurd (omega arith)
lower-decode (suc n) (a ∷ b ∷ s) e h =
    let rest = lower-decode n s (omega arith) (ground arith) in
    (
      (
        (digit_value a * 16 + digit_value b) ∷ rest.0.0,
        rw (value-of_lower a (ground arith), value-of_lower b (ground arith), rest.0.1) refl,
        ap suc rest.0.2,
      ),
      ground (arith, lower-of_lower a, lower-of_lower b, rest.1),
    )

-- An identity is accepted exactly when it is 64 of the digits 0-9 and a-f.
pub valid_id_iff :
    (id : Text) → (valid_id id ≡ true) ↔ ((length id ≡ 64) × (every lower_digit id ≡ true))
unfolding valid_id
valid_id_iff id = (accepted, rejected)
  where
    accepted : valid_id id ≡ true → (length id ≡ 64) × (every lower_digit id ≡ true)
    accepted h = elim (Option-cases (decode id)) [
      | inl e ↦ absurd (ground arith)
      | inr (bs, e) ↦ ground (arith, decode-lower id bs e)
    ]

    rejected : (length id ≡ 64) × (every lower_digit id ≡ true) → valid_id id ≡ true
    rejected h = let (d, l) = lower-decode 32 id h.0 h.1 in ground (arith, d.1)

pub length-encode : (bs : Text) → length (encode bs) ≡ 2 * length bs
unfolding encode
length-encode [] = refl
length-encode (b ∷ bs) = omega (arith, length-encode bs)
