-- ===== src/Home/Install/Steps.antt =====
-- core/cmd/easyprivacy-node/service.go: installService from the registration on, with the disconnection that it
-- defers.
use easyprivacy.Home.Install.{
  Host, Step, makes_directory, saves, opens_info, enables, Saved, service_file, site_file,
  info_file, prepare, succeeds,
}
use easyprivacy.Platform.{Platform}
use easyprivacy.Link.{Identity, Web, Event, Result, got, stopped, rejected}
use easyprivacy.Home.{ServiceConfig, SiteOutputs, register_site, disconnect_site}
use easyprivacy.Vpn.SiteConfig.{SiteConfig}
use easyprivacy.Vpn.Routes.{check_routes}
use easyprivacy.Vpn.Shell.{Run, ◌>>=◌, ◌>>◌, of_outcome}
use easyprivacy.Vpn.Files.{DirectoryLook, private_there, other_there, none_there, unseen_directory}
use easyprivacy.Base.{Text, ℕ, List, Outcome, ◌∷◌, failed, done}

abbrev pub usable : DirectoryLook → Outcome (Unit {0})
usable private_there = done tt
usable other_there = failed "service state must be a private directory"
usable none_there = done tt
usable (unseen_directory e) = failed e

-- An error of CheckRoutes is wrapped.
abbrev pub overlaps : Outcome (Unit {0}) → Outcome (Unit {0})
overlaps (done u) = done u
overlaps (failed e) = failed "the core VPN network overlaps a home network"

module _ (m : Host) where
  unfoldable pub save : Saved → Run (List Step) (Unit {0})
  save v h = (saves v (m.save_error h v) ∷ h, succeeds (m.save_error h v))

  unfoldable pub make_directory : Run (List Step) (Unit {0})
  make_directory h = (makes_directory (m.make_error h) ∷ h, succeeds (m.make_error h))

  unfoldable pub open_info : Run (List Step) (Unit {0})
  open_info h = (opens_info (m.open_error h) ∷ h, succeeds (m.open_error h))

  unfoldable pub enable : Run (List Step) (Unit {0})
  enable h = (enables (m.enable_error h) ∷ h, succeeds (m.enable_error h))

  -- Up to the saving of service.json, behind which the registration stands.
  unfoldable pub persist : Platform → ServiceConfig → SiteConfig → Run (List Step) (Unit {0})
  persist g c site = do
    routes ← of_outcome m.all_routes
    of_outcome (overlaps (check_routes g site.service.subnet routes))
    of_outcome (usable m.directory)
    make_directory
    save (service_file c)

  -- The rest.
  unfoldable pub start : ServiceConfig → SiteConfig → Run (List Step) (Unit {0})
  start c site = do
    save (site_file site)
    save (info_file c.name c.identity.address)
    open_info
    enable

-- The network and the machine.
pub record Place : Type 0 where
  pub network : List Event
  pub machine : List Step

module _ (g : Platform) (w : Web) (d : SiteOutputs) (m : Host) (now later : ℕ) where
  abbrev pub started : List Event → List Step × Outcome (Unit {0}) → Place × Outcome (Unit {0})
  started h (k, r) = (record { network = h; machine = k }, r)

  -- What follows persist: an error undoes the registration, whatever comes of that.
  abbrev pub persisted :
      ServiceConfig
      → SiteConfig
      → List Event
      → List Step × Outcome (Unit {0})
      → Place × Outcome (Unit {0})
  persisted c site h (k, failed e) =
      (record { network = (disconnect_site g w d later c.identity h).0; machine = k }, failed e)
  persisted c site h (k, done u) = started h (start m c site k)

  abbrev pub registered :
      ServiceConfig → List Step → List Event × Result SiteConfig → Place × Outcome (Unit {0})
  registered c k (h, stopped e) = (record { network = h; machine = k }, failed e)
  registered c k (h, rejected code text) =
      (record { network = h; machine = k }, failed (m.error_of text))
  registered c k (h, got site) = persisted c site h (persist m g c site k)

  abbrev pub prepared : Place → Outcome ServiceConfig → Place × Outcome (Unit {0})
  prepared s (failed e) = (s, failed e)
  prepared s (done c) = registered c s.machine (register_site g w d now c s.network)

  -- installService; `now` is the time of the registration and `later` that of the disconnection.
  unfoldable pub install_service :
      Identity → (name uplink management : Text) → Place → Place × Outcome (Unit {0})
  install_service i name uplink management s = prepared s (prepare g w m i name uplink management)
