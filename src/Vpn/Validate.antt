-- ===== src/Vpn/Validate.antt =====
-- core/internal/vpn/types.go: Config, its checks, and the addresses and profiles made from it.
use easyprivacy.Hex
use easyprivacy.Platform.{Platform}
use easyprivacy.Net.{
  is_multicast, is_unspecified, is_masked, with_last_byte, is_private, addr_text, is_v4, Addr,
  Prefix,
}
use easyprivacy.Vpn.Types.{Profile, Peer}
use easyprivacy.Vpn.Config.{key}
use easyprivacy.Base.{
  has_prefix, require, exists, is_empty, fail_if, ◌>>◌, ◌>>=◌, not, length, ltb, every, same, leb,
  List, lit, Outcome, Option, Bool, Text, ℕ, ◌++◌, ◌∷◌, [], some, none, ◌||◌, ◌&&◌, false, true,
  ◌%◌, ◌/◌, if◌then◌else◌, ◌==◌, failed, done,
}
use easyprivacy.Strconv.{decimal}

-- Schema and port are not negative here: the checks refuse any that are.
pub record Config : Type 0 where
  pub schema : ℕ
  pub name : Text
  pub endpoint : Text
  pub port : ℕ
  pub subnet : Text
  pub uplink : Text
  pub dns : List Text
  pub private_key : Text

-- const Interface, IPv6Prefix
abbrev pub interface : Text
interface = lit "epwg0"

abbrev pub ipv6_prefix : Text
ipv6_prefix = lit "fd6e:7072:6976::"

-- The classes of the regular expressions: [a-zA-Z0-9], [a-zA-Z0-9.-] and [a-zA-Z0-9_.-].
abbrev pub is_alnum : ℕ → Bool
is_alnum c = (leb 48 c && leb c 57) || (leb 65 c && leb c 90) || (leb 97 c && leb c 122)

abbrev pub is_host_char : ℕ → Bool
is_host_char c = is_alnum c || c == 46 || c == 45

abbrev pub is_device_char : ℕ → Bool
is_device_char c = is_host_char c || c == 95

-- Digits, dots and dashes up to a last alphanumeric character, then at most one dot.
unfoldable pub host_tail : Text → Bool
host_tail [] = false
host_tail (c ∷ []) = is_alnum c
host_tail (c ∷ d ∷ []) = (is_alnum c && d == 46) || (is_host_char c && is_alnum d)
host_tail (c ∷ d ∷ e ∷ s) = let rest = host_tail (d ∷ e ∷ s) in is_host_char c && rest

-- ^[a-zA-Z0-9](?:[a-zA-Z0-9.-]*[a-zA-Z0-9])?\.?$
unfoldable pub is_hostname : Text → Bool
unfolding host_tail
is_hostname [] = false
is_hostname (c ∷ []) = is_alnum c
is_hostname (c ∷ d ∷ s) = is_alnum c && (host_tail (d ∷ s) || same (d ∷ s) (46 ∷ []))

-- ^[a-zA-Z0-9][a-zA-Z0-9_.-]{0,14}$
unfoldable pub is_device_name : Text → Bool
is_device_name [] = false
is_device_name (c ∷ s) = is_alnum c && every is_device_char s && leb (length s) 14

-- strings.Contains(h, "..")
unfoldable pub has_double_dot : Text → Bool
has_double_dot [] = false
has_double_dot (c ∷ []) = false
has_double_dot (c ∷ d ∷ s) = let rest = has_double_dot (d ∷ s) in (c == 46 && d == 46) || rest

-- "\r\n\x00" and "\r\n\x00 /\\@"
abbrev pub breaks_line : ℕ → Bool
breaks_line c = c == 13 || c == 10 || c == 0

abbrev pub breaks_host : ℕ → Bool
breaks_host c = breaks_line c || c == 32 || c == 47 || c == 92 || c == 64

abbrev pub is_private_24 : Prefix → Bool
is_private_24 n = is_v4 n.addr && is_private n.addr && n.bits == 24 && is_masked n

abbrev pub is_dns_server : Option Addr → Bool
is_dns_server none = false
is_dns_server (some a) = is_v4 a && not (is_unspecified a) && not (is_multicast a)

module _ (g : Platform) where
  abbrev host_accepted : Text → Option Addr → Bool
  host_accepted h (some a) = true
  host_accepted h none = leb (length h) 253 && is_hostname h && not (has_double_dot h)

  -- Config.Validate
  unfoldable pub validate : Config → Outcome (Unit {0})
  validate c = do
    fail_if
        (not (c.schema == 1)
          || is_empty (g.trim_space c.name)
          || ltb 80 (length c.name)
          || exists breaks_line c.name)
        "invalid VPN name or schema"
    ends ←
        require (g.split_host_port c.endpoint)
          "use a VPN endpoint host:port with a port from 1024 to 65535"
    fail_if
        (is_empty ends.0
          || exists breaks_host ends.0
          || ltb c.port 1024
          || ltb 65535 c.port
          || not (same ends.1 (decimal c.port)))
        "use a VPN endpoint host:port with a port from 1024 to 65535"
    fail_if (not (host_accepted ends.0 (g.parse_addr ends.0)))
        "enter only the public hostname or IP, without a port or URL"
    n ←
        require (g.parse_prefix c.subnet)
          "choose a private IPv4 /24 network, for example 10.87.0.0/24"
    fail_if (not (is_private_24 n)) "choose a private IPv4 /24 network, for example 10.87.0.0/24"
    fail_if
        (not (is_device_name c.uplink) || same c.uplink interface || has_prefix (lit "wg") c.uplink)
        "select the physical Internet uplink interface"
    fail_if (length c.dns == 0 || ltb 3 (length c.dns)) "set one to three IPv4 DNS servers"
    fail_if (not (every (λ d. is_dns_server (g.parse_addr d)) c.dns)) "invalid DNS address"
    k ← key g c.private_key
    done tt

  -- Config.PublicKey
  abbrev public_of : Outcome Text → Text
  public_of (failed e) = []
  public_of (done b) = g.base64 (g.x25519_public b)

  unfoldable pub public_key : Config → Text
  public_key c = public_of (key g c.private_key)

  -- Config.Address, of a configuration whose subnet parses.
  unfoldable pub address : Config → ℕ → Text
  address c host = elim (g.parse_prefix c.subnet) [
    | none ↦ []
    | some n ↦ addr_text (with_last_byte host n.addr) ++ lit "/32"
  ]

  -- %x of a host number
  abbrev pub hex_number : ℕ → Text
  hex_number n = if ltb n 16 then Hex.digit n ∷ [] else Hex.digit (n / 16) ∷ Hex.digit (n % 16) ∷ []

  -- Config.Profile
  unfoldable pub profile_of : Config → Peer → Profile
  profile_of c p = record {
    exit_id = lit "vps";
    exit_name = c.name;
    public_key = public_key c;
    endpoint = c.endpoint;
    address = address c p.host;
    address_v6 = ipv6_prefix ++ hex_number p.host ++ lit "/128";
    dns = c.dns;
    allowed_ips = lit "0.0.0.0/0" ∷ lit "::/0" ∷ [];
    mtu = 1280;
    keepalive = 25;
    management_routes = [];
  }
