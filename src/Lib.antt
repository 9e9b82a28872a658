-- ===== src/Lib.antt =====
-- EasyPrivacy: the core that devices are paired with (core/internal/node) and the VPN exit beside it
-- (core/internal/vpn), as the Go code has them.
--
-- The parts. A core keeps device records; a device is paired by a code of eight digits and the
-- account's password, signs in with its key, and asks for a VPN profile. The exit is another process:
-- it reads the authorization records, keeps the WireGuard peers, and configures the machine.
--   Hex             validHexID (core/internal/node/pairing.go), ValidID, and encoding/hex
--   Net             net/netip as the program uses it
--   Strconv         numbers and ports as decimal text
--   Platform        what is taken from libraries: hashes, signatures, text classes, decoders, SPAKE2
--   Node.Devices    DeviceStore (core/internal/node/devices.go): Add, Revoke, List, Active, open, save
--   Node.State      State, NewState, SaveNew and Load (core/internal/node/state.go)
--   Node.Server     Server, allowLogin and readRequest (core/internal/node/server.go, pairing.go)
--   Node.Sessions   login, authenticate, status, logout (core/internal/node/server.go)
--   Node.Pake       core/internal/pake/native.go
--   Node.Pairing    pairing codes and pairingStart (core/internal/node/pairing.go)
--   Node.Enrollment pairingFinish and pairingEnroll (core/internal/node/pairing.go)
--   Node.DeviceAuth core/internal/node/device_auth.go, and the revocation of admin.go
--   Node.VpnApi     core/internal/node/vpn.go
--   Node.Routes     NewServer and Handler (core/internal/node/server.go), which join the handlers
--   Vpn.Types, Vpn.Config, Vpn.Validate   core/internal/vpn/types.go
--   Vpn.Files       LoadConfig, ReadPrivate and SavePrivate (core/internal/vpn/types.go), over a disk
--   Vpn.Client      core/internal/vpn/client.go, by which the core reaches the exit
--   Vpn.Manager, Vpn.Registration, Vpn.Service, Vpn.Loading   core/internal/vpn/manager.go
--   Vpn.Shell, Vpn.Rules, Vpn.Linux       core/internal/vpn/linux.go
--   Vpn.HomeRouting, Vpn.Routes           core/internal/vpn/home_routing.go and routes.go
--   Vpn.SiteConfig, Vpn.Site              core/internal/vpn/site.go
--   Link, Link.Request, Link.Login, Link.Enroll   core/internal/link/client.go, a node's end of pairing
--   Authorization   auth in core/cmd/easyprivacy-node/vpn.go, which joins the two
--   Home, Home.Serve, Home.Install   core/cmd/easyprivacy-node/service.go, the service node at home
--   Setup           core/cmd/easyprivacy-node/vpn_host.go and firewall.go
--   Setup.Answers, Setup.Core   setup and waitReady (core/cmd/easyprivacy-node/main.go)
--   Setup.Checks, Setup.Exit   vpnSetup and enableVPN (core/cmd/easyprivacy-node/vpn.go)
--   Windows         native/windows-vpn/config.go
--   Windows.Services   what the Windows helper asks of the service manager, as events
--   Windows.Approval, Windows.Install   install and privateDirectory (native/windows-vpn/main_windows.go)
--   Windows.Supervisor, Windows.Pipe   the service of native/windows-vpn/main_windows.go and its client
-- The proofs stand in child modules named for what they prove, the runs under Tests.
--
-- How the code is read. A method that holds its mutex throughout is one function from the state to the
-- state and its result. A handler that lets the mutex go and looks at what it saw again (sign-in by
-- password, enrollment, revocation, a VPN profile or service) is one function up to there and one from
-- there on, and statements are about any server in between. Of the other handlers the sections, one
-- function each, are composed without a step of others between them. Clock readings and random values are arguments; readings that
-- follow each other directly are one argument, and 0 is Go's zero time. Times are nanoseconds and
-- numbers are not negative: where Go's are signed, the checks refuse the others. A Go map is an
-- association list; statements are about every list, so about every order of iteration. A call that
-- may fail takes its error as an argument or asks a parameter for it, so every error path is a value.
-- A map of pointers holds objects with a reference number. An error is its message; wrapped errors
-- keep the outer message only. Loops are structural recursion over what they read, and the search for a
-- host has the 253 rounds of the source. The network that a node talks to is a function of the history
-- of connections and calls, so it may behave in any way.
--
-- The machine that a setup or a service works on is likewise a function of the steps taken so far.
-- Loops that the code bounds by a clock take the number of their rounds as an argument, and the
-- statements hold for every number.
--
-- Not modelled: HTTP servers and the matching of patterns, sockets, the flags and commands of the
-- command line (in core/cmd/easyprivacy-node: main.go but for waitReady and setup up to the pairing
-- code at its end, runVPN and cleanupVPN but for auth in vpn.go, setupService and runService in
-- service.go), the elevation of the Windows helper and its tunnel process (elevate and --tunnel in
-- native/windows-vpn/main_windows.go), native/pairing and app.
pub mod Base
pub mod Hex
pub mod Net
pub mod Strconv
pub mod Platform
pub mod Node
pub mod Vpn
pub mod Link
pub mod Home
pub mod Windows
pub mod Authorization
pub mod Setup
pub mod Tests
