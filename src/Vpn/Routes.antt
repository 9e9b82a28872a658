-- ===== src/Vpn/Routes.antt =====
-- core/internal/vpn/routes.go: the check that the network of the VPN is free.
use easyprivacy.Base.{
  fail_if, exists, not, require, Bool, Option, Outcome, some, none, ◌||◌, ◌&&◌, false, ◌==◌, ◌>>=◌,
  Text,
}
use easyprivacy.Platform.{Platform}
use easyprivacy.Net.{contains, Prefix}
use easyprivacy.Vpn.Shell.{fields}
use easyprivacy.Vpn.Config.{split}

abbrev overlapping : Prefix → Option Prefix → Bool
overlapping wanted none = false
overlapping wanted (some p) =
    not (p.bits == 0) && (contains p wanted.addr || contains wanted p.addr)

-- The loops of CheckRoutes over lines and fields.
unfoldable pub route_taken : Platform → Prefix → Text → Bool
route_taken g wanted routes =
    exists (λ line. exists (λ f. overlapping wanted (g.parse_prefix f)) (fields line))
      (split 10 routes)

-- CheckRoutes
unfoldable pub check_routes : Platform → (subnet routes : Text) → Outcome (Unit {0})
check_routes g subnet routes = do
  wanted ← require (g.parse_prefix subnet) "invalid network"
  fail_if (route_taken g wanted routes)
      "VPN subnet overlaps an existing route; choose another private /24 network"
