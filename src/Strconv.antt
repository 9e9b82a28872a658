-- ===== src/Strconv.antt =====
-- strconv as the program uses it: decimal numbers and ports.
pub mod RoundTrip
use easyprivacy.Base.{
  Text, ltb, leb, every, if◌then◌else◌, ◌==◌, ◌&&◌, not, ℕ, ◌+◌, ◌-◌, ◌*◌, ◌/◌, ◌%◌, ◌∷◌, [],
  Option, none, some,
}

-- fmt.Sprint of a number of at most five digits
unfoldable pub decimal : ℕ → Text
decimal n =
    if ltb n 10
    then units
    else if ltb n 100
    then (48 + n / 10) ∷ units
    else if ltb n 1000
    then (48 + n / 100) ∷ (48 + n / 10 % 10) ∷ units
    else if ltb n 10000
    then (48 + n / 1000) ∷ (48 + n / 100 % 10) ∷ (48 + n / 10 % 10) ∷ units
    else (48 + n / 10000) ∷ (48 + n / 1000 % 10) ∷ (48 + n / 100 % 10) ∷ (48 + n / 10 % 10) ∷ units
  where
    units : Text
    units = (48 + n % 10) ∷ []

-- strconv.ParseUint and ParseInt to a bound, of a text without a sign: 0 where it is no number, and
-- the bound where the number is larger.
unfoldable pub parse_number : (bound so_far : ℕ) → Text → ℕ
parse_number bound n [] = n
parse_number bound n (c ∷ s) =
    let m = n * 10 + (c - 48) in
    let rest = parse_number bound m s in
    if not (leb 48 c && leb c 57) then 0 else if ltb bound m then bound else rest

-- strconv.Atoi of a port: an optional sign and digits; nothing where it is no number or negative, which
-- the callers refuse as well. Numbers are cut off at 65536, which they refuse too.
abbrev pub port_digits : Text → Option ℕ
port_digits [] = none
port_digits (c ∷ s) =
    if every (λ d. leb 48 d && leb d 57) (c ∷ s) then some (parse_number 65536 0 (c ∷ s)) else none

abbrev pub port_number : Text → Option ℕ
port_number [] = none
port_number (c ∷ s) = if c == 43 then port_digits s else port_digits (c ∷ s)
