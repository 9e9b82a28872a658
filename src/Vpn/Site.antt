-- ===== src/Vpn/Site.antt =====
-- core/internal/vpn/site.go: the tunnel of a home service node.
use easyprivacy.Base.{
  same, lit, false, true, Text, failed, done, Outcome, Bool, List, ◌∷◌, [], ◌++◌,
}
use easyprivacy.Platform.{Platform}
use easyprivacy.Vpn.Shell.{words, command, ◌>>=◌, ◌>>◌, Run, Shell, ret, quietly, of_outcome}
use easyprivacy.Vpn.Rules.{
  comment_of, apply_rules, forward, tagged, filter, iptables, remove_tagged, Rule,
}
use easyprivacy.Vpn.SiteConfig.{validate_site, site_interface, SiteConfig}
use easyprivacy.Vpn.Types.{Status}
use easyprivacy.Vpn.Linux.{owned_result, interface_status}
use easyprivacy.Vpn.Routes.{check_routes}

abbrev site_alias : Text
site_alias = lit "easyprivacy-site-v1"

abbrev site_rule : (table chain : Text) → List Text → Rule
site_rule table chain r = record {
  tool = iptables;
  table = table;
  chain = chain;
  arguments = tagged (comment_of site_alias) r;
}

-- siteRules
unfoldable pub site_rules : SiteConfig → List Rule
site_rules c =
    site_rule filter forward (lit "-i" ∷ site_interface ∷ words "-j DROP")
    ∷ site_rule filter forward (lit "-o" ∷ site_interface ∷ words "-j DROP")
    ∷ site_rule filter forward (
        lit "-i"
        ∷ c.uplink
        ∷ lit "-o"
        ∷ site_interface
        ∷ lit "-d"
        ∷ c.service.subnet
        ∷ words "-m conntrack --ctstate ESTABLISHED,RELATED -j ACCEPT")
    ∷ site_rule filter forward (
        lit "-i"
        ∷ site_interface
        ∷ lit "-o"
        ∷ c.uplink
        ∷ lit "-s"
        ∷ c.service.subnet
        ∷ lit "!"
        ∷ lit "-d"
        ∷ c.service.subnet
        ∷ words "-j ACCEPT")
    ∷ site_rule (lit "nat") (lit "POSTROUTING")
        (lit "-s" ∷ c.service.subnet ∷ lit "-o" ∷ c.uplink ∷ words "-j MASQUERADE")
    ∷ site_rule filter (lit "INPUT") (
        lit "-i"
        ∷ site_interface
        ∷ lit "-s"
        ∷ c.service.subnet
        ∷ words "-p tcp --dport 22 -j ACCEPT")
    ∷ []

module _ {M : Type 0} (sh : Shell M) where
  -- siteOwned
  unfoldable pub site_owned : Run M Bool
  site_owned x =
      let (y, r) = command sh (lit "ip") [] (words "-j link show dev" ++ site_interface ∷ []) x in
      (y, owned_result site_alias sh.link_aliases "epsite0 is owned by another application" r)

  abbrev ip_call : List Text → Run M (Unit {0})
  ip_call r = quietly (command sh (lit "ip") [] r)

  abbrev delete_site : Bool → Run M (Unit {0})
  delete_site false = ret tt
  delete_site true = ip_call (words "link delete" ++ site_interface ∷ [])

  abbrev is_site_tag : Text → Bool
  is_site_tag tag = same tag site_alias

  -- SiteDown
  unfoldable pub site_down : Run M (Unit {0})
  site_down = do
    owned ← site_owned
    delete_site owned
    remove_tagged sh iptables filter forward is_site_tag
    remove_tagged sh iptables filter (lit "INPUT") is_site_tag
    remove_tagged sh iptables (lit "nat") (lit "POSTROUTING") is_site_tag

  abbrev or_site_down : M × Outcome (Unit {0}) → M × Outcome (Unit {0})
  or_site_down (x, done u) = (x, done u)
  or_site_down (x, failed e) = ((site_down x).0, failed e)

  abbrev site_text : SiteConfig → Text
  site_text c =
      lit "[Interface]"
      ++ 10 ∷ lit "PrivateKey = "
      ++ c.private_key
      ++ 10 ∷ lit "[Peer]"
      ++ 10 ∷ lit "PublicKey = "
      ++ c.service.public_key
      ++ 10 ∷ lit "Endpoint = "
      ++ c.service.endpoint
      ++ 10 ∷ lit "AllowedIPs = "
      ++ c.service.subnet
      ++ 10 ∷ lit "PersistentKeepalive = 25"
      ++ 10 ∷ []

  -- SiteUp after the interface has its alias.
  unfoldable pub site_setup : SiteConfig → Run M (Unit {0})
  site_setup c = do
    ip_call (words "address add" ++ c.service.address ∷ lit "dev" ∷ site_interface ∷ [])
    quietly (
        command sh (lit "wg") (site_text c)
          (lit "setconf" ∷ site_interface ∷ lit "/dev/stdin" ∷ []))
    ip_call (words "link set" ++ site_interface ∷ words "mtu 1280 up")
    ip_call (words "-4 route add" ++ c.service.subnet ∷ lit "dev" ∷ site_interface ∷ [])
    quietly (
        command sh (lit "sysctl") [] (
          words "-w net.ipv4.ip_forward=1"
          ++ (lit "net.ipv4.conf." ++ site_interface ++ lit ".rp_filter=2") ∷ []))
    apply_rules sh false (site_rules c)

  abbrev site_named : SiteConfig → M × Outcome (Unit {0}) → M × Outcome (Unit {0})
  site_named c (x, done u) = or_site_down (site_setup c x)
  site_named c (x, failed e) =
      ((ip_call (words "link delete" ++ site_interface ∷ []) x).0, failed e)

  -- SiteUp; the error of CheckRoutes is wrapped in one about the home LAN.
  unfoldable pub site_up : Platform → SiteConfig → Run M (Unit {0})
  site_up g c = do
    of_outcome (validate_site g c)
    site_down
    raw ← command sh (lit "ip") [] (words "-4 route show table all")
    of_outcome (check_routes g c.service.subnet raw)
    ip_call (words "link add" ++ site_interface ∷ words "type wireguard")
    (λ x.
        site_named c
          (ip_call (words "link set dev" ++ site_interface ∷ lit "alias" ∷ site_alias ∷ []) x))

  -- SiteStatus
  unfoldable pub site_status : Text → Run M Status
  site_status key = interface_status sh site_interface key
