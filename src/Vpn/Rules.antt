-- ===== src/Vpn/Rules.antt =====
-- core/internal/vpn/linux.go, home_routing.go and site.go: the firewall rules that the program owns,
-- how they are put in place, and how they are found again by their tag.
use easyprivacy.Base.{
  drop, leb, has_prefix, is_empty, same, not, lit, Text, ◌&&◌, ◌||◌, ◌==◌, true, false, none, some,
  failed, done, Outcome, Option, Bool, ℕ, List, ◌∷◌, [], ◌++◌, if◌then◌else◌,
}
use easyprivacy.Platform.{Platform}
use easyprivacy.Vpn.Shell.{
  fields, trim_quotes, command, words, ◌>>=◌, ◌>>◌, Run, Shell, ret, quietly,
}
use easyprivacy.Vpn.Validate.{address, interface, Config}
use easyprivacy.Vpn.Types.{Peer}
use easyprivacy.Vpn.Config.{split}
use easyprivacy.Vpn.Manager.{home}
use easyprivacy.Strconv.{parse_number, decimal}

pub record Rule : Type 0 where
  pub tool : Text
  pub table : Text
  pub chain : Text
  pub arguments : List Text

-- The makeRule functions: the comment goes before the last two arguments.
unfoldable pub tagged : List Text → List Text → List Text
tagged comment [] = comment
tagged comment (a ∷ []) = comment ++ a ∷ []
tagged comment (a ∷ b ∷ []) = comment ++ a ∷ b ∷ []
tagged comment (a ∷ b ∷ c ∷ r) = a ∷ tagged comment (b ∷ c ∷ r)

abbrev pub comment_of : Text → List Text
comment_of tag = words "-m comment --comment" ++ tag ∷ []

abbrev pub core_tag : Text
core_tag = lit "easyprivacy-vpn-v1"

abbrev core_rule : (tool table chain : Text) → List Text → Rule
core_rule tool table chain r = record {
  tool = tool;
  table = table;
  chain = chain;
  arguments = tagged (comment_of core_tag) r;
}

abbrev pub iptables : Text
iptables = lit "iptables"

abbrev pub ip6tables : Text
ip6tables = lit "ip6tables"

abbrev pub filter : Text
filter = lit "filter"

abbrev pub forward : Text
forward = lit "FORWARD"

-- rules
unfoldable pub rules : Config → List Rule
rules c =
    core_rule iptables filter forward (lit "-i" ∷ interface ∷ words "-j DROP")
    ∷ core_rule iptables filter forward (lit "-o" ∷ interface ∷ words "-j DROP")
    ∷ core_rule iptables filter forward (
        lit "-i"
        ∷ c.uplink
        ∷ lit "-o"
        ∷ interface
        ∷ lit "-d"
        ∷ c.subnet
        ∷ words "-m conntrack --ctstate ESTABLISHED,RELATED -j ACCEPT")
    ∷ core_rule iptables (lit "nat") (lit "POSTROUTING")
        (lit "-s" ∷ c.subnet ∷ lit "-o" ∷ c.uplink ∷ words "-j MASQUERADE")
    ∷ core_rule ip6tables filter forward (lit "-i" ∷ interface ∷ words "-j DROP")
    ∷ core_rule ip6tables filter forward (lit "-o" ∷ interface ∷ words "-j DROP")
    ∷ []

abbrev pub peer_tag : Text
peer_tag = lit "easyprivacy-peer-"

abbrev peer_rule : ℕ → List Text → Rule
peer_rule host r = record {
  tool = iptables;
  table = filter;
  chain = forward;
  arguments = tagged (comment_of (peer_tag ++ decimal host)) r;
}

-- peerRules
unfoldable pub peer_rules : Platform → Config → Peer → List Rule
peer_rules g c p =
    let a = address g c p.host in
    if p.service
    then []
    else if not (same p.exit_id home)
    then peer_rule p.host
        (lit "-i" ∷ interface ∷ lit "-o" ∷ c.uplink ∷ lit "-s" ∷ a ∷ words "-j ACCEPT")
      ∷ []
    else peer_rule p.host
        (lit "-i" ∷ interface ∷ lit "-o" ∷ c.uplink ∷ lit "-s" ∷ a ∷ words "-j DROP")
      ∷ peer_rule p.host (
          lit "-i"
          ∷ interface
          ∷ lit "-o"
          ∷ interface
          ∷ lit "!"
          ∷ lit "-s"
          ∷ c.subnet
          ∷ lit "-d"
          ∷ a
          ∷ words "-m conntrack --ctstate ESTABLISHED,RELATED -j ACCEPT")
      ∷ peer_rule p.host (
          lit "-i"
          ∷ interface
          ∷ lit "-o"
          ∷ interface
          ∷ lit "-s"
          ∷ a
          ∷ lit "!"
          ∷ lit "-d"
          ∷ c.subnet
          ∷ words "-j ACCEPT")
      ∷ []

-- `tag == "easyprivacy-vpn-v1"`, or the tag of a peer whose number parses to a host. strconv.Atoi
-- takes a sign; after a minus sign the number is no host.
abbrev is_host_number : Text → Bool
is_host_number s =
    not (is_empty s) && leb 2 (parse_number 255 0 s) && leb (parse_number 255 0 s) 254

abbrev without_plus : Text → Text
without_plus [] = []
without_plus (c ∷ s) = if c == 43 then s else c ∷ s

unfoldable pub core_match : Text → Bool
core_match tag =
    same tag core_tag || (has_prefix peer_tag tag && is_host_number (without_plus (drop 17 tag)))

module _ {M : Type 0} (sh : Shell M) where
  abbrev base_of : Rule → List Text
  base_of r = words "-w 3 -t" ++ r.table ∷ []

  abbrev change_rule : Bool → Rule → Outcome Text → Run M (Unit {0})
  change_rule true r (failed e) = ret tt
  change_rule true r (done b) =
      quietly (command sh r.tool [] (base_of r ++ lit "-D" ∷ r.chain ∷ r.arguments))
  change_rule false r (done b) = ret tt
  change_rule false r (failed e) =
      quietly (command sh r.tool [] (base_of r ++ lit "-I" ∷ r.chain ∷ lit "1" ∷ r.arguments))

  -- applyRules: a rule is asked for first; an answer of either kind goes on.
  unfoldable pub apply_rules : Bool → List Rule → Run M (Unit {0})
  apply_rules remove [] x = ret tt x
  apply_rules remove (r ∷ rs) x =
      let (y, found) = command sh r.tool [] (base_of r ++ lit "-C" ∷ r.chain ∷ r.arguments) x in
      (change_rule remove r found >> apply_rules remove rs) y

  -- The test of removeTaggedRules on the fields of one line.
  unfoldable pub has_tag : (Text → Bool) → List Text → Bool
  has_tag test [] = false
  has_tag test (f ∷ []) = false
  has_tag test (f ∷ v ∷ fs) =
      let rest = has_tag test (v ∷ fs) in (same f (lit "--comment") && test (trim_quotes v)) || rest

  -- The loop that takes the quotes off what follows each --comment.
  unfoldable pub unquote_comments : Bool → List Text → List Text
  unquote_comments after [] = []
  unquote_comments after (f ∷ fs) =
      let text = if after then trim_quotes f else f in
      text ∷ unquote_comments (same text (lit "--comment")) fs

  abbrev spec_of : Text → List Text → Option (List Text)
  spec_of chain (a ∷ b ∷ c ∷ r) = if same a (lit "-A") && same b chain then some (c ∷ r) else none
  spec_of chain (a ∷ b ∷ []) = none
  spec_of chain (a ∷ []) = none
  spec_of chain [] = none

  abbrev remove_line : (tool table chain : Text) → (Text → Bool) → List Text → Run M (Unit {0})
  remove_line tool table chain test line = elim (spec_of chain line) [
    | none ↦ ret tt
    | some spec ↦
        if has_tag test line
        then quietly (
            command sh tool []
              (unquote_comments false (words "-w 3 -t" ++ table ∷ lit "-D" ∷ chain ∷ spec)))
        else ret tt
  ]

  unfoldable pub remove_lines :
      (tool table chain : Text) → (Text → Bool) → List Text → Run M (Unit {0})
  remove_lines tool table chain test [] = ret tt
  remove_lines tool table chain test (l ∷ ls) =
      remove_line tool table chain test (fields l) >> remove_lines tool table chain test ls

  -- removeTaggedRules
  unfoldable pub remove_tagged : (tool table chain : Text) → (Text → Bool) → Run M (Unit {0})
  remove_tagged tool table chain test = do
    raw ← command sh tool [] (words "-w 3 -t" ++ table ∷ lit "-S" ∷ chain ∷ [])
    remove_lines tool table chain test (split 10 raw)

  -- cleanupCoreRules
  unfoldable pub cleanup_core_rules : Run M (Unit {0})
  cleanup_core_rules = do
    remove_tagged iptables filter forward core_match
    remove_tagged iptables (lit "nat") (lit "POSTROUTING") core_match
    remove_tagged ip6tables filter forward core_match
