-- ===== src/Home.antt =====
-- core/cmd/easyprivacy-node/service.go: the service node at home, which registers with its core and keeps
-- the tunnel of its site up.

pub mod Serve
pub mod Install
use easyprivacy.Platform.{Platform}
use easyprivacy.Link.{
  private_key, authority, rejected, stopped, service_input, got, Event, Result, Identity, Web,
}
use easyprivacy.Link.Request.{request}
use easyprivacy.Link.Login.{and_then, LoginOutputs, client_login}
use easyprivacy.Vpn.Validate.{validate, breaks_line, public_key, Config}
use easyprivacy.Vpn.SiteConfig.{validate_site, SiteConfig}
use easyprivacy.Base.{
  exists, length, ltb, is_empty, not, same, fail_if, require, Option, Text, List, Outcome, lit, ℕ,
  ◌∷◌, [], some, none, ◌||◌, if◌then◌else◌, ◌==◌, failed, done, ◌>>◌, ◌>>=◌,
}
use easyprivacy.Vpn.Types.{ServiceProfile}
use easyprivacy.Vpn.Config.{management_routes}
use easyprivacy.Vpn.Shell.{fields}

-- serviceConfig
pub record ServiceConfig : Type 0 where
  pub schema : ℕ
  pub name : Text
  pub identity : Identity
  pub private_key : Text
  pub uplink : Text
  pub management : Text

module _ (g : Platform) (w : Web) where
  abbrev checked : ServiceConfig → Config
  checked c = record {
    schema = 1;
    name = c.name;
    endpoint = lit "127.0.0.1:51821";
    port = 51821;
    subnet = lit "10.87.0.0/24";
    uplink = c.uplink;
    dns = lit "1.1.1.1" ∷ [];
    private_key = c.private_key;
  }

  -- serviceConfig.validate
  unfoldable pub validate_service : ServiceConfig → Outcome (Unit {0})
  validate_service c = do
    routes ← management_routes g c.management
    fail_if
        (not (c.schema == 1)
          || is_empty (g.trim_space c.name)
          || ltb 80 (length c.name)
          || exists breaks_line c.name)
        "invalid service name"
    address ← authority w c.identity.address
    key ← private_key g w c.identity
    validate g (checked c)

-- The field behind the first `dev` of the fields of a default route.
unfoldable pub device_after : List Text → Option Text
device_after [] = none
device_after (f ∷ []) = none
device_after (f ∷ h ∷ fs) =
    let rest = device_after (h ∷ fs) in if same f (lit "dev") then some h else rest

-- serviceUplink, of what `ip -4 route show default` prints.
unfoldable pub service_uplink : Outcome Text → Outcome Text
service_uplink printed = do
  raw ← printed
  require (device_after (fields raw)) "no IPv4 Internet uplink was detected"

-- json.Unmarshal into the outputs of the calls.
pub record SiteOutputs : Type 0 where
  pub login : LoginOutputs
  pub profile : Text → Outcome ServiceProfile
  pub nothing : Text → Outcome (Unit {0})

module _ (g : Platform) (w : Web) (d : SiteOutputs) where
  -- The deferred logout, whose result is dropped.
  abbrev logged_out {ℓ} :
      {A : Type ℓ} → (now : ℕ) → Identity → Text → List Event × Result A → List Event × Result A
  logged_out now i token (h, r) =
      ((request g w d.nothing now i (lit "POST") (lit "/api/v1/logout") token none h).0, r)

  abbrev site_of : ServiceConfig → ServiceProfile → SiteConfig
  site_of c p = record { service = p; private_key = c.private_key; uplink = c.uplink }

  abbrev validated : SiteConfig → Result SiteConfig
  validated site = elim (validate_site g site) [ done u ↦ got site | failed e ↦ stopped e ]

  abbrev site_result :
      ServiceConfig → List Event × Result ServiceProfile → List Event × Result SiteConfig
  site_result c (h, got p) = (h, validated (site_of c p))
  site_result c (h, stopped e) = (h, stopped e)
  site_result c (h, rejected code m) = (h, rejected code m)

  -- The public half of the private key.
  abbrev site_key : ServiceConfig → Text
  site_key c = public_key g (record (checked g w c) { private_key = c.private_key })

  abbrev register_with :
      (now : ℕ) → ServiceConfig → Text → List Event → List Event × Result SiteConfig
  register_with now c token h = logged_out now c.identity token (
      site_result c (
        request g w d.profile now c.identity (lit "POST") (lit "/api/v1/vpn/service") token
          (some (service_input c.name (site_key c) c.management)) h))

  -- registerSite; all its handshakes are at one time.
  unfoldable pub register_site :
      (now : ℕ) → ServiceConfig → List Event → List Event × Result SiteConfig
  register_site now c h =
      and_then (client_login g w d.login now now c.identity h) (register_with now c)

  -- disconnectSite
  unfoldable pub disconnect_site :
      (now : ℕ) → Identity → List Event → List Event × Result (Unit {0})
  disconnect_site now i h = and_then (client_login g w d.login now now i h) (λ token t.
      logged_out now i token
        (request g w d.nothing now i (lit "POST") (lit "/api/v1/vpn/disconnect") token none t))
