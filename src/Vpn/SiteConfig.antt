-- ===== src/Vpn/SiteConfig.antt =====
-- core/internal/vpn/site.go: the configuration of the tunnel of a home service node, and its checks.
use easyprivacy.Base.{
  not, fail_if, leb, same, lit, Text, ◌&&◌, ◌||◌, ◌==◌, false, none, some, failed, done, Outcome,
  Option, Bool, ℕ, List, ◌∷◌, [], ◌%◌, ◌>>=◌, ◌>>◌,
}
use easyprivacy.Platform.{Platform}
use easyprivacy.Vpn.Types.{ServiceProfile}
use easyprivacy.Net.{v6, contains, v4, is_v4, Prefix, Addr}
use easyprivacy.Vpn.Validate.{validate, Config}
use easyprivacy.Vpn.Config.{key}
use easyprivacy.Strconv.{port_number}

pub record SiteConfig : Type 0 where
  pub service : ServiceProfile
  pub private_key : Text
  pub uplink : Text

abbrev pub site_interface : Text
site_interface = lit "epsite0"

abbrev last_byte : Addr → ℕ
last_byte (v4 n) = n % 256
last_byte (v6 n t) = n % 256

abbrev same_addr : Addr → Addr → Bool
same_addr (v4 m) (v4 n) = m == n
same_addr (v4 m) (v6 n u) = false
same_addr (v6 m t) (v4 n) = false
same_addr (v6 m t) (v6 n u) = m == n && same t u

abbrev tunnel_address : Option Prefix → Option Prefix → Bool
tunnel_address none a = false
tunnel_address (some n) none = false
tunnel_address (some n) (some a) =
    is_v4 a.addr
    && a.bits == 32
    && contains n a.addr
    && not (same_addr a.addr n.addr)
    && leb 2 (last_byte a.addr)
    && leb (last_byte a.addr) 254

abbrev one_route : Text → List Text → Bool
one_route subnet [] = false
one_route subnet (a ∷ []) = same a subnet
one_route subnet (a ∷ b ∷ r) = false

module _ (g : Platform) where
  -- The port of splitEndpoint.
  unfoldable pub split_endpoint : Text → Outcome (Text × ℕ)
  split_endpoint endpoint = elim (g.split_host_port endpoint) [
    | none ↦ failed "invalid endpoint"
    | some (host, text) ↦ elim (port_number text) [
      | none ↦ failed "invalid port"
      | some n ↦ done (host, n)
    ]
  ]

  abbrev checked_config : SiteConfig → ℕ → Config
  checked_config c port = record {
    schema = 1;
    name = c.service.exit_name;
    endpoint = c.service.endpoint;
    port = port;
    subnet = c.service.subnet;
    uplink = c.uplink;
    dns = c.service.dns;
    private_key = c.private_key;
  }

  -- SiteConfig.Validate
  unfoldable pub validate_site : SiteConfig → Outcome (Unit {0})
  validate_site c = do
    ends ← split_endpoint c.service.endpoint
    validate g (checked_config c ends.1)
    fail_if (same c.uplink site_interface) "the site uplink cannot be its own tunnel"
    k ← key g c.service.public_key
    fail_if
        (not (tunnel_address (g.parse_prefix c.service.subnet) (g.parse_prefix c.service.address))
          || not (c.service.mtu == 1280)
          || not (c.service.keepalive == 25)
          || not (one_route c.service.subnet c.service.allowed_ips))
        "invalid service-node tunnel profile"
