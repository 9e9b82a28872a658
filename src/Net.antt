-- ===== src/Net.antt =====
-- net/netip as the program uses it: IPv4 addresses as 32-bit numbers, IPv6 addresses as
-- 128-bit numbers with their text.
use easyprivacy.Base.{
  ltb, Bool, ℕ, ◌++◌, ◌∷◌, [], ◌||◌, false, true, ◌^◌, ◌%◌, ◌/◌, ◌*◌, ◌-◌, ◌+◌, if◌then◌else◌, ◌==◌,
  Text,
}

pub data Addr : Type 0 where
  v4 : ℕ → Addr
  -- the 128-bit number, and the text, which may name a zone
  v6 : ℕ → Text → Addr

pub record Prefix : Type 0 where
  pub addr : Addr
  pub bits : ℕ

abbrev pub is_v4 : Addr → Bool
is_v4 (v4 n) = true
is_v4 (v6 n t) = false

-- Whether the 32-bit number lies in the block of the given base and number of leading bits.
abbrev pub in_block : (base bits n : ℕ) → Bool
in_block base bits n = n / 2 ^ (32 - bits) == base / 2 ^ (32 - bits)

-- a.b.c.d
abbrev pub quad : ℕ → ℕ → ℕ → ℕ → ℕ
quad a b c d = ((a * 256 + b) * 256 + c) * 256 + d

-- Addr.IsPrivate, Addr.IsUnspecified and Addr.IsMulticast of an IPv4 address; the program asks them
-- only after Is4.
unfoldable pub is_private : Addr → Bool
is_private (v6 n t) = false
is_private (v4 n) = in_block 0x0a000000 8 n || in_block 0xac100000 12 n || in_block 0xc0a80000 16 n

unfoldable pub is_unspecified : Addr → Bool
is_unspecified (v6 n t) = false
is_unspecified (v4 n) = n == 0

unfoldable pub is_multicast : Addr → Bool
is_multicast (v6 n t) = false
is_multicast (v4 n) = in_block 0xe0000000 4 n

-- strconv.Itoa of a number below 1000
unfoldable pub small_decimal : ℕ → Text
small_decimal n =
    if ltb n 10
    then (48 + n) ∷ []
    else if ltb n 100
    then (48 + n / 10) ∷ (48 + n % 10) ∷ []
    else (48 + n / 100) ∷ (48 + n / 10 % 10) ∷ (48 + n % 10) ∷ []

-- Addr.String
unfoldable pub addr_text : Addr → Text
unfolding small_decimal
addr_text (v6 n t) = t
addr_text (v4 n) =
    small_decimal (n / 16777216)
    ++ 46 ∷ small_decimal (n / 65536 % 256)
    ++ 46 ∷ small_decimal (n / 256 % 256)
    ++ 46 ∷ small_decimal (n % 256)

-- Prefix.Contains of an address without a zone; addresses of another family are in none.
unfoldable pub contains : Prefix → Addr → Bool
contains p (v6 m t) = elim p.addr [
  | v6 base u ↦ m / 2 ^ (128 - p.bits) == base / 2 ^ (128 - p.bits)
  | v4 base ↦ false
]
contains p (v4 n) = elim p.addr [ v4 base ↦ in_block base p.bits n | v6 base u ↦ false ]

-- n.Masked() == n, and As4 with the last byte replaced.
unfoldable pub is_masked : Prefix → Bool
is_masked p = elim p.addr [
  | v4 n ↦ n % 2 ^ (32 - p.bits) == 0
  | v6 n t ↦ n % 2 ^ (128 - p.bits) == 0
]

unfoldable pub with_last_byte : ℕ → Addr → Addr
with_last_byte b (v6 n t) = v6 n t
with_last_byte b (v4 n) = v4 (n / 256 * 256 + b % 256)
