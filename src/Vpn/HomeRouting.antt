-- ===== src/Vpn/HomeRouting.antt =====
-- core/internal/vpn/home_routing.go: the routing table of the home exit, and the routes and rules of
-- one peer.
use easyprivacy.Base.{
  is_empty, require, exists, not, same, lit, Text, ◌&&◌, true, false, Bool, List, ◌∷◌, [], ◌++◌,
  if◌then◌else◌, ◌+◌,
}
use easyprivacy.Platform.{Platform}
use easyprivacy.Vpn.Shell.{
  of_outcome, trim_quotes, reject_if, words, command, has_infix, ◌>>=◌, ◌>>◌, Run, Shell, ret,
  quietly,
}
use easyprivacy.Vpn.Validate.{address, interface, Config}
use easyprivacy.Vpn.Types.{Peer}
use easyprivacy.Vpn.Rules.{peer_rules, apply_rules}
use easyprivacy.Vpn.Manager.{home}
use easyprivacy.Vpn.Config.{split}
use easyprivacy.Strconv.{decimal}

abbrev pub home_table : Text
home_table = lit "51844"

abbrev pub route_protocol : Text
route_protocol = lit "242"

abbrev ip : Text
ip = lit "ip"

abbrev in_home_table : Text → Bool
in_home_table line = has_infix (lit " table " ++ home_table ++ lit " ") (lit " " ++ line ++ lit " ")

abbrev is_ours : Text → Bool
is_ours line = has_infix (lit "proto " ++ route_protocol) line

module _ {M : Type 0} (sh : Shell M) (g : Platform) where
  abbrev run_ip : List Text → Run M Text
  run_ip r = command sh ip [] r

  -- prepareHomeRouting
  unfoldable pub prepare_home_routing : Run M (Unit {0})
  prepare_home_routing = do
    raw ← run_ip (words "-N -4 route show table all")
    reject_if
        (exists (λ line. in_home_table line && not (is_ours line)) (split 10 (g.trim_space raw)))
        "routing table 51844 is in use by another application"
    quietly (
        run_ip (
          words "-4 route replace unreachable default metric 32767 table"
          ++ home_table ∷ lit "proto" ∷ route_protocol ∷ []))

  -- The loop of cleanupHomeRouting over the policy rules.
  unfoldable pub remove_policies : List (Text × Text × Text) → Run M (Unit {0})
  remove_policies [] = ret tt
  remove_policies ((priority, table, protocol) ∷ rs) =
      if same (trim_quotes table) home_table && same (trim_quotes protocol) route_protocol
      then quietly (
          run_ip (
            words "-4 rule del priority"
            ++ priority ∷ lit "table" ∷ home_table ∷ lit "protocol" ∷ route_protocol ∷ []))
        >> remove_policies rs
      else remove_policies rs

  -- cleanupHomeRouting
  unfoldable pub cleanup_home_routing : Run M (Unit {0})
  cleanup_home_routing = do
    raw ← run_ip (words "-N -j -4 rule show")
    found ← of_outcome (require (sh.policy_rules raw) "cannot read policy routes")
    remove_policies found
    routes ← run_ip (words "-N -4 route show table all")
    if exists (λ line. in_home_table line && is_ours line) (split 10 routes)
        then quietly (
            run_ip (words "-4 route flush table" ++ home_table ∷ lit "proto" ∷ route_protocol ∷ []))
        else ret tt

  abbrev policy : Text → Config → Peer → List Text
  policy verb c p =
      words "-4 rule"
      ++ verb
        ∷ lit "priority"
        ∷ decimal (18800 + p.host)
        ∷ lit "from"
        ∷ address g c p.host
        ∷ lit "table"
        ∷ home_table
        ∷ lit "protocol"
        ∷ route_protocol
        ∷ []

  abbrev pub goes_home : Peer → Bool
  goes_home p = not p.service && same p.exit_id home

  -- configurePeerRouting with remove
  unfoldable pub remove_peer_routing : Config → Peer → Run M (Unit {0})
  remove_peer_routing c p = do
    apply_rules sh true (peer_rules g c p)
    if goes_home p then quietly (run_ip (policy (lit "del") c p)) else ret tt

  unfoldable pub add_home_policy : Config → Peer → Run M (Unit {0})
  add_home_policy c p = do
    quietly (
        run_ip (
          words "-4 route replace default dev"
          ++ interface ∷ words "metric 1 table"
          ++ home_table ∷ lit "proto" ∷ route_protocol ∷ []))
    raw ← run_ip (words "-4 rule show priority" ++ decimal (18800 + p.host) ∷ [])
    reject_if (not (is_empty (g.trim_space raw))) "home routing policy priority is already in use"
    quietly (run_ip (policy (lit "add") c p))

  -- configurePeerRouting without
  unfoldable pub add_peer_routing : Config → Peer → Run M (Unit {0})
  add_peer_routing c p =
      (if goes_home p then add_home_policy c p else ret tt)
      >> apply_rules sh false (peer_rules g c p)
