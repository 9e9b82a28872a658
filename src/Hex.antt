-- ===== src/Hex.antt =====
-- encoding/hex as the program uses it, and the identities checked with it: `validHexID` of
-- core/internal/node/pairing.go and `ValidID` of core/internal/vpn/types.go.
pub mod Digits
use easyprivacy.Base.{
  Text, same, length, ltb, leb, ◌==◌, if◌then◌else◌, ℕ, ◌+◌, ◌-◌, ◌*◌, ◌/◌, ◌%◌, Bool, true, false,
  ◌&&◌, ◌||◌, Option, none, some, [], ◌∷◌, map,
}

-- The digit of a number below 16: 0-9, a-f.
unfoldable pub digit : ℕ → ℕ
digit n = if ltb n 10 then n + 48 else n + 87

-- hex.EncodeToString
unfoldable pub encode : Text → Text
encode [] = []
encode (b ∷ bs) = digit (b / 16) ∷ digit (b % 16) ∷ encode bs

-- The value of a digit, of either case.
unfoldable pub value : ℕ → Option ℕ
value c =
    if leb 48 c && leb c 57
    then some (c - 48)
    else if leb 97 c && leb c 102
    then some (c - 87)
    else if leb 65 c && leb c 70
    then some (c - 55)
    else none

abbrev byte_of : Option ℕ → Option ℕ → Option Text → Option Text
byte_of (some h) (some l) (some bs) = some ((h * 16 + l) ∷ bs)
byte_of _ _ _ = none

-- hex.DecodeString
unfoldable pub decode : Text → Option Text
decode [] = some []
decode (c ∷ []) = none
decode (h ∷ l ∷ s) = byte_of (value h) (value l) (decode s)

-- strings.ToLower and strings.ToUpper on ASCII
unfoldable pub lower : ℕ → ℕ
lower c = if leb 65 c && leb c 90 then c + 32 else c

unfoldable pub upper : ℕ → ℕ
upper c = if leb 97 c && leb c 122 then c - 32 else c

abbrev decodes_to : ℕ → Option Text → Bool
decodes_to n none = false
decodes_to n (some b) = length b == n

-- ValidID, validHexID
unfoldable pub valid_id : Text → Bool
valid_id id = decodes_to 32 (decode id) && same id (map lower id)
