-- ===== src/Home/Install.antt =====
-- core/cmd/easyprivacy-node/service.go: installService, which registers a home with its core and then keeps the
-- configuration, and loadService. What the machine says may depend on what was done to it, a list of events, the
-- last first.
pub mod Steps
pub mod Rollback
use easyprivacy.Platform.{Platform, Decoder}
use easyprivacy.Link.{Identity, Web, Event, Result, got, stopped, rejected}
use easyprivacy.Home.{
  ServiceConfig, SiteOutputs, validate_service, service_uplink, register_site, disconnect_site,
}
use easyprivacy.Vpn.SiteConfig.{SiteConfig}
use easyprivacy.Vpn.Files.{generate_key, DirectoryLook, Look, Loaded, read_private, validated}
use easyprivacy.Vpn.Routes.{check_routes}
use easyprivacy.Vpn.Config.{management_routes, split, member}
use easyprivacy.Net.{Prefix, Addr, is_v4, is_private, addr_text}
use easyprivacy.Base.{
  ◌>>=◌, ◌>>◌, lit, not, join, Bool, is_empty, List, Outcome, Option, Text, Error, ◌++◌, ◌∷◌, [],
  some, none, ◌&&◌, false, if◌then◌else◌, failed, done,
}

-- loadService, of what is at service.json.
unfoldable pub load_service :
    Platform → Web → Decoder ServiceConfig → (broken : Error) → Look → Loaded ServiceConfig
load_service g w d broken look = validated (validate_service g w) (read_private d broken look)

-- The files that are saved: service.json, site.json, and the public info with its name and core.
pub data Saved : Type 0 where
  service_file : ServiceConfig → Saved
  site_file : SiteConfig → Saved
  info_file : (name core : Text) → Saved

pub data Step : Type 0 where
  makes_directory : Option Error → Step
  saves : Saved → Option Error → Step
  opens_info : Option Error → Step
  enables : Option Error → Step

-- What os.Lstat says of service.json.
pub data Presence : Type 0 where
  there : Presence
  absent : Presence
  inaccessible : Error → Presence

-- What installService asks of the machine: the two tables of routes that ip prints, the bytes of a fresh key, the addresses of
-- an interface as text, and the errors of what it does.
pub record Host : Type 0 where
  pub presence : Presence
  pub default_route : Outcome Text
  pub fresh_key : Outcome Text
  pub interface_addresses : Text → Outcome (List Text)
  pub all_routes : Outcome Text
  pub directory : DirectoryLook
  pub make_error : List Step → Option Error
  pub save_error : List Step → Saved → Option Error
  pub open_error : List Step → Option Error
  pub enable_error : List Step → Option Error
  -- the text of an HTTPError
  pub error_of : Text → Error

abbrev pub succeeds : Option Error → Outcome (Unit {0})
succeeds none = done tt
succeeds (some e) = failed e

abbrev not_installed : Presence → Outcome (Unit {0})
not_installed there =
    failed
      "a home identity is already installed; use service-start or revoke the old identity before replacing its configuration"
not_installed absent = done tt
not_installed (inaccessible e) = failed e

module _ (g : Platform) where
  -- The addresses that are named, without the empty ones.
  unfoldable pub named_addresses : List Text → List Text
  named_addresses [] = []
  named_addresses (v ∷ vs) =
      let rest = named_addresses vs in
      if is_empty (g.trim_space v) then rest else g.trim_space v ∷ rest

  abbrev is_home_address : List Text → Option Prefix → Bool
  is_home_address seen none = false
  is_home_address seen (some p) =
      is_v4 p.addr && is_private p.addr && not (member (addr_text p.addr) seen)

  abbrev prefix_text : Option Prefix → Text
  prefix_text none = []
  prefix_text (some p) = addr_text p.addr

  -- The loop over the addresses of the interface: those that are added to the ones seen.
  unfoldable pub home_addresses : (seen : List Text) → List Text → List Text
  home_addresses seen [] = []
  home_addresses seen (v ∷ vs) =
      let p = g.parse_prefix v in
      let rest =
        home_addresses (if is_home_address seen p then prefix_text p ∷ seen else seen) vs in
      if is_home_address seen p then prefix_text p ∷ rest else rest

  abbrev all_addresses : (management : Text) → List Text → Text
  all_addresses management interface =
      let named = named_addresses (split 44 management) in
      join (lit ",") (named ++ home_addresses named interface)

  abbrev uplink_or : Host → Text → Outcome Text
  uplink_or m [] = service_uplink m.default_route
  uplink_or m (c ∷ uplink) = done (c ∷ uplink)

  -- The steps up to the registration.
  unfoldable pub prepare :
      Web → Host → Identity → (name uplink management : Text) → Outcome ServiceConfig
  prepare w m i name uplink management = do
    not_installed m.presence
    device ← uplink_or m uplink
    key ← generate_key g m.fresh_key
    routes ← management_routes g management
    addresses ← m.interface_addresses device
    let c : ServiceConfig = record {
      schema = 1;
      name = name;
      identity = i;
      private_key = key;
      uplink = device;
      management = all_addresses management addresses;
    }
    checked ← validate_service g w c
    done c
