-- ===== src/Setup.antt =====
-- core/cmd/easyprivacy-node: the steps of a setup on the machine of the core, vpn_host.go and firewall.go.
pub mod PublicHost
pub mod Firewall
pub mod Answers
pub mod Checks
pub mod Core
pub mod Exit
use easyprivacy.Net.{v6, v4, quad, Addr, in_block, addr_text, is_multicast, is_unspecified}
use easyprivacy.Platform.{Platform}
use easyprivacy.Strconv.{decimal}
use easyprivacy.Base.{
  has_prefix, ltb, lit, not, same, is_empty, exists, Bool, Outcome, Text, Option, ℕ, List, ◌++◌,
  ◌∷◌, [], some, none, ◌||◌, ◌&&◌, if◌then◌else◌, ◌==◌, failed, done,
}
use easyprivacy.Vpn.Validate.{interface}

-- vpnSpecialIPv4: the address and the number of leading bits of each block.
abbrev pub special_blocks : List (ℕ × ℕ)
special_blocks =
    (quad 0 0 0 0, 8)
    ∷ (quad 10 0 0 0, 8)
    ∷ (quad 100 64 0 0, 10)
    ∷ (quad 127 0 0 0, 8)
    ∷ (quad 169 254 0 0, 16)
    ∷ (quad 172 16 0 0, 12)
    ∷ (quad 192 0 0 0, 24)
    ∷ (quad 192 0 2 0, 24)
    ∷ (quad 192 31 196 0, 24)
    ∷ (quad 192 52 193 0, 24)
    ∷ (quad 192 88 99 0, 24)
    ∷ (quad 192 168 0 0, 16)
    ∷ (quad 192 175 48 0, 24)
    ∷ (quad 198 18 0 0, 15)
    ∷ (quad 198 51 100 0, 24)
    ∷ (quad 203 0 113 0, 24)
    ∷ (quad 224 0 0 0, 4)
    ∷ (quad 240 0 0 0, 4)
    ∷ []

-- Addr.IsGlobalUnicast of an IPv4 address
unfoldable pub is_global_unicast : ℕ → Bool
is_global_unicast n =
    not (n == 0)
    && not (n == quad 255 255 255 255)
    && not (in_block (quad 127 0 0 0) 8 n)
    && not (in_block (quad 224 0 0 0) 4 n)
    && not (in_block (quad 169 254 0 0) 16 n)

-- An address that is a candidate.
unfoldable pub is_candidate : ℕ → Bool
is_candidate n = is_global_unicast n && not (exists (λ b. in_block b.0 b.1 n) special_blocks)

abbrev add_once : ℕ → List ℕ → List ℕ
add_once n ns = if exists (λ k. k == n) ns then ns else n ∷ ns

abbrev with_candidate : Addr → List ℕ → List ℕ
with_candidate (v6 n t) ns = ns
with_candidate (v4 n) ns = if is_candidate n then add_once n ns else ns

-- The loop of vpnPublicIPv4Default: the set of candidates.
unfoldable pub candidates : List Addr → List ℕ → List ℕ
candidates [] ns = ns
candidates (a ∷ others) ns = candidates others (with_candidate a ns)

abbrev only_one : List ℕ → Text
only_one [] = []
only_one (n ∷ []) = addr_text (v4 n)
only_one (n ∷ m ∷ ns) = []

-- vpnPublicIPv4Default
unfoldable pub public_default : List Addr → Text
public_default addresses = only_one (candidates addresses [])

-- What detectVPNHost reads of the interface: nothing where it does not exist, is down or is a loopback.
unfoldable pub detect_host :
    Platform → (interface_texts : Option (List Text)) → (uplink : Text) → Text
unfolding public_default
detect_host g texts uplink =
    if is_empty uplink || same uplink interface || has_prefix (lit "wg") uplink
    then []
    else elim texts [ none ↦ [] | some ts ↦ public_default (parsed_addresses ts) ]
  where
    parsed_addresses : List Text → List Addr
    parsed_addresses [] = []
    parsed_addresses (t ∷ ts) =
        let rest = parsed_addresses ts in
        elim (g.parse_prefix t) [ none ↦ rest | some p ↦ p.addr ∷ rest ]

-- The first line of a text, and the text without its last spaces is what TrimSpace gives.
unfoldable pub first_line : Text → Text
first_line [] = []
first_line (c ∷ s) = let rest = first_line s in if c == 10 then [] else c ∷ rest

-- Running ufw: its arguments, and the output with whether it failed.
pub record Ufw (M : Type 0) : Type 0 where
  pub run : List Text → M → M × Outcome Text

-- How configureUFW ends, but for its error texts.
pub data Advice : Type 0 where
  not_installed : Advice
  inactive : Advice
  applied : Advice

module _ {M : Type 0} (g : Platform) (u : Ufw M) where
  abbrev allow_result : M × Outcome Text → M × Outcome Advice
  allow_result (x, done out) = (x, done applied)
  allow_result (x, failed e) = (x, failed "could not allow the port in UFW")

  -- The state that the first line names.
  abbrev of_status : (port : ℕ) → (first : Text) → M → M × Outcome Advice
  of_status port first x =
      if same first (lit "Status: inactive")
      then (x, done inactive)
      else if same first (lit "Status: active")
      then allow_result (u.run (lit "allow" ∷ (decimal port ++ lit "/tcp") ∷ []) x)
      else (
        x,
        failed
            "could not determine UFW status; firewall was not changed; inspect 'sudo ufw status verbose'",
      )

  abbrev with_status : (port : ℕ) → M × Outcome Text → M × Outcome Advice
  with_status port (x, failed e) =
      (x, failed "could not check UFW; inspect 'sudo ufw status verbose'")
  with_status port (x, done status) =
      of_status port (g.trim_space (first_line (g.trim_space status))) x

  -- configureUFW
  unfoldable pub configure_ufw : (port : ℕ) → (available : Bool) → M → M × Outcome Advice
  configure_ufw port available x =
      if ltb port 1024 || ltb 65535 port
      then (x, failed "invalid core port; firewall was not changed")
      else if not available
      then (x, done not_installed)
      else with_status port (u.run (lit "status" ∷ []) x)
