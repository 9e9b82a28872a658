-- ===== src/Windows.antt =====
-- native/windows-vpn/config.go: the configuration of a tunnel on Windows, and its text.

pub mod Lines
pub mod Pipe
pub mod Approval
pub mod Install
pub mod Services
pub mod Supervisor
use easyprivacy.Platform.{Platform}
use easyprivacy.Net.{is_private, is_v4, Prefix, Addr}
use easyprivacy.Vpn.Validate.{is_hostname, has_double_dot, breaks_host, is_dns_server}
use easyprivacy.Base.{
  join, ltb, every, fail_if, leb, Outcome, exists, same, is_empty, Error, lit, length, not, ℕ, Bool,
  Option, List, Text, ◌++◌, ◌∷◌, [], some, none, ◌||◌, ◌&&◌, false, true, ◌==◌, failed, done, ◌>>◌,
  ◌>>=◌,
}

pub record TunnelConfig : Type 0 where
  pub private_key : Text
  pub public_key : Text
  pub endpoint : Text
  pub address : Text
  pub address_v6 : Text
  pub dns : List Text
  pub mtu : ℕ
  pub keepalive : ℕ
  pub management_routes : List Text

-- A text of whole lines.
unfoldable pub lines_text : List Text → Text
lines_text [] = []
lines_text (l ∷ ls) = l ++ (10 ∷ lines_text ls)

-- ^[0-9]{1,5}$
abbrev pub is_port_text : Text → Bool
is_port_text p = not (is_empty p) && leb (length p) 5 && every (λ c. leb 48 c && leb c 57) p

abbrev pub tunnel_v4 : Option Prefix → Bool
tunnel_v4 none = false
tunnel_v4 (some a) = is_v4 a.addr && is_private a.addr && a.bits == 32

module _ (g : Platform) where
  abbrev exact_key : Text → Option Text → Bool
  exact_key key none = false
  exact_key key (some b) = length b == 32 && same (g.base64 b) key

  abbrev pub valid_key : Text → Bool
  valid_key key = exact_key key (g.base64_decode key)

  abbrev is_some_addr : Option Addr → Bool
  is_some_addr none = false
  is_some_addr (some a) = true

  -- The host and the port of an endpoint: what follows the checks of both is the lookup of the port.
  abbrev pub endpoint_parts : Option (Text × Text) → Bool
  endpoint_parts none = false
  endpoint_parts (some (h, p)) =
      not (is_empty h) && leb (length h) 253 && not (exists breaks_host h) && is_port_text p

  abbrev hostname_accepted : Text → Bool
  hostname_accepted h = is_some_addr (g.parse_addr h) || (is_hostname h && not (has_double_dot h))

  abbrev pub host_and_port : Option (Text × Text) → Text × Text
  host_and_port none = ([], [])
  host_and_port (some e) = e

  -- The loop over the management routes, with the ones that it has passed.
  unfoldable pub routes_accepted : (seen : List Text) → List Text → Bool
  routes_accepted seen [] = true
  routes_accepted seen (r ∷ rs) =
      let rest = routes_accepted (r ∷ seen) rs in
      tunnel_v4 (g.parse_prefix r) && not (exists (λ s. same s r) seen) && rest

  abbrev pub allowed_ips : List Text → Text
  allowed_ips [] = lit "0.0.0.0/0, ::/0"
  allowed_ips (r ∷ rs) = lit "0.0.0.0/0, ::/0" ++ lit ", " ++ join (lit ", ") (r ∷ rs)

  abbrev pub printed_lines : TunnelConfig → List Text
  printed_lines c =
      lit "[Interface]"
      ∷ (lit "PrivateKey = " ++ c.private_key)
      ∷ (lit "Address = " ++ c.address ++ lit ", " ++ c.address_v6)
      ∷ (lit "DNS = " ++ join (lit ", ") c.dns)
      ∷ lit "MTU = 1280"
      ∷ []
      ∷ lit "[Peer]"
      ∷ (lit "PublicKey = " ++ c.public_key)
      ∷ (lit "Endpoint = " ++ c.endpoint)
      ∷ (lit "AllowedIPs = " ++ allowed_ips c.management_routes)
      ∷ lit "PersistentKeepalive = 25"
      ∷ []

  abbrev known_port : Option Error → Outcome (Unit {0})
  known_port none = done tt
  known_port (some e) = failed e

  abbrev pub private_address : (private_v6 : Prefix → Bool) → Option Prefix → Bool
  private_address private_v6 none = false
  private_address private_v6 (some p) = private_v6 p

  -- Text; `lookup_port` is the error of net.LookupPort, and `private_v6` says of a prefix that its address is a
  -- private one of IPv6 with all bits.
  unfoldable pub config_text :
      (lookup_port : Text → Option Error) (private_v6 : Prefix → Bool) → TunnelConfig → Outcome Text
  config_text lookup_port private_v6 c = do
    fail_if (not (valid_key c.private_key) || not (valid_key c.public_key)) "invalid VPN key"
    let ends = g.split_host_port c.endpoint
    fail_if (not (endpoint_parts ends)) "invalid VPN endpoint"
    known_port (lookup_port (host_and_port ends).1)
    fail_if (same (host_and_port ends).1 (lit "0")) "invalid VPN port"
    fail_if (not (hostname_accepted (host_and_port ends).0)) "invalid VPN hostname"
    fail_if (not (tunnel_v4 (g.parse_prefix c.address))) "invalid VPN address"
    fail_if (not (private_address private_v6 (g.parse_prefix c.address_v6)))
        "invalid VPN IPv6 protection address"
    fail_if
        (not (c.mtu == 1280)
          || not (c.keepalive == 25)
          || ltb (length c.dns) 1
          || ltb 3 (length c.dns))
        "invalid tunnel settings"
    fail_if (not (every (λ d. is_dns_server (g.parse_addr d)) c.dns)) "invalid DNS server"
    fail_if (ltb 16 (length c.management_routes)) "too many home management routes"
    fail_if (not (routes_accepted [] c.management_routes)) "invalid home management route"
    done (lines_text (printed_lines c))
