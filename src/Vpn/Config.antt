-- ===== src/Vpn/Config.antt =====
-- core/internal/vpn/types.go: the configuration of the exit, its keys and its checks.
pub mod Management
use easyprivacy.Platform.{Platform}
use easyprivacy.Net.{is_private, is_v4, addr_text, Addr}
use easyprivacy.Base.{
  every, length, same, not, ltb, lit, exists, Outcome, Bool, Option, List, Text, ℕ, ◌++◌, ◌∷◌, [],
  some, none, ◌||◌, ◌&&◌, false, if◌then◌else◌, ◌==◌, failed, done,
}

abbrev extend_first : ℕ → List Text → List Text
extend_first c [] = (c ∷ []) ∷ []
extend_first c (w ∷ ws) = (c ∷ w) ∷ ws

-- strings.Split by one byte
unfoldable pub split : ℕ → Text → List Text
split sep [] = [] ∷ []
split sep (c ∷ s) = let rest = split sep s in if c == sep then [] ∷ rest else extend_first c rest

abbrev pub member : Text → List Text → Bool
member t = exists (λ u. same u t)

module _ (g : Platform) where
  abbrev pub allowed_management : List Text → Option Addr → Bool
  allowed_management seen none = false
  allowed_management seen (some a) = is_v4 a && is_private a && not (member (addr_text a) seen)

  abbrev pub management_addr : Option Addr → Text
  management_addr none = []
  management_addr (some a) = addr_text a

  -- The loop of ManagementRoutes; `seen` are the addresses that it has passed.
  unfoldable pub management_loop : List Text → List Text → Outcome (List Text)
  management_loop seen [] = done []
  management_loop seen (v ∷ vs) =
      let a = g.parse_addr (g.trim_space v) in
      let text = management_addr a in
      let rest = management_loop (text ∷ seen) vs in
      if allowed_management seen a
      then elim rest [ done rs ↦ done ((text ++ lit "/32") ∷ rs) | failed e ↦ failed e ]
      else failed "management destinations must be distinct private IPv4 addresses, without ports"

  -- ManagementRoutes
  unfoldable pub management_routes : Text → Outcome (List Text)
  unfolding management_loop split
  management_routes [] = done []
  management_routes (c ∷ s) =
      let parts = split 44 (c ∷ s) in
      if ltb 16 (length parts)
      then failed "choose at most sixteen management addresses"
      else management_loop [] parts

  abbrev key_of : Text → Option Text → Outcome Text
  key_of value none = failed "invalid WireGuard key"
  key_of value (some b) =
      if not (length b == 32) || not (same (g.base64 b) value)
      then failed "invalid WireGuard key"
      else if every (λ v. v == 0) b
      then failed "zero WireGuard key"
      else done b

  -- Key
  unfoldable pub key : Text → Outcome Text
  key value = key_of value (g.base64_decode value)
