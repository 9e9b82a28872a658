-- ===== src/Windows/Lines.antt =====
-- native/windows-vpn/config.go: the text that Text prints has the lines that are meant, and no others.
use easyprivacy.Windows.{
  allowed_ips, printed_lines, TunnelConfig, private_address, config_text, endpoint_parts,
  routes_accepted, tunnel_v4, valid_key, lines_text,
}
use easyprivacy.Vpn.Config.{split}
use easyprivacy.Base.{
  join, lit, subst, Error, leb, Option-cases, Option, every, some, ◌&&◌, true, inr, inl, done, ap,
  AllOf, List, arith, exists, Bool, Text, ℕ, ◌++◌, ◌∷◌, [], false, ◌∙◌, refl, ◌≡◌, ◌==◌,
}
use easyprivacy.Platform.{Platform}
use easyprivacy.Net.{Addr, Prefix, is_v4}
use easyprivacy.Vpn.Validate.{is_dns_server, breaks_host}

abbrev is_newline : ℕ → Bool
is_newline c = c == 10

-- A text without a newline.
unfoldable pub Plain : Text → Type 0
Plain t = exists is_newline t ≡ false

Plain-append : (a b : Text) → Plain a → Plain b → Plain (a ++ b)
unfolding Plain
Plain-append [] b p q = q
Plain-append (c ∷ a) b p q = let rest = Plain-append a b in ground arith

split-line : (a b : Text) → Plain a → split 10 (a ++ (10 ∷ b)) ≡ a ∷ split 10 b
unfolding split Plain
split-line [] b p = refl
split-line (c ∷ a) b p = let rest = split-line a b in ground arith

-- Lines that are plain are read back.
split-lines_text : (ls : List Text) → AllOf Plain ls → split 10 (lines_text ls) ≡ ls ++ ([] ∷ [])
unfolding split lines_text
split-lines_text [] h = refl
split-lines_text (l ∷ ls) h =
    split-line l (lines_text ls) h.0 ∙ ap (λ (r : List Text). l ∷ r) (split-lines_text ls h.1)

join-Plain : (sep : Text) (ts : List Text) → Plain sep → AllOf Plain ts → Plain (join sep ts)
unfolding join Plain
join-Plain sep [] s h = refl
join-Plain sep (t ∷ []) s h = h.0
join-Plain sep (t ∷ u ∷ ts) s h =
    Plain-append t _ h.0 (Plain-append sep _ s (join-Plain sep (u ∷ ts) s h.1))

-- What the library's parsers and encoder accept and make has no newline. Of addresses this is asked of IPv4 alone: the
-- zone of an IPv6 address may hold any bytes, while a prefix has no zone.
pub record PlainLaws (g : Platform) : Type 0 where
  pub of_base64 : (b : Text) → Plain (g.base64 b)
  pub of_prefix : (t : Text) (p : Prefix) → g.parse_prefix t ≡ some p → Plain t
  pub of_addr : (t : Text) (a : Addr) → g.parse_addr t ≡ some a → is_v4 a ≡ true → Plain t
  pub of_endpoint : (t h p : Text) → g.split_host_port t ≡ some (h, p) → Plain h → Plain p → Plain t

module _ (g : Platform) (laws : PlainLaws g) where
  key-Plain : (key : Text) → valid_key g key ≡ true → Plain key
  key-Plain key h = elim (Option-cases (g.base64_decode key)) [
    | inl n ↦ absurd (ground arith)
    | inr (b, p) ↦ let e : g.base64 b ≡ key = ground arith in subst Plain e (laws.of_base64 b)
  ]

  prefix-Plain : (t : Text) → tunnel_v4 (g.parse_prefix t) ≡ true → Plain t
  prefix-Plain t h = elim (Option-cases (g.parse_prefix t)) [
    | inl n ↦ absurd (ground arith)
    | inr (p, e) ↦ laws.of_prefix t p e
  ]

  address-Plain :
      (private_v6 : Prefix → Bool) (t : Text)
      → private_address g private_v6 (g.parse_prefix t) ≡ true
      → Plain t
  address-Plain private_v6 t h = elim (Option-cases (g.parse_prefix t)) [
    | inl n ↦ absurd (ground arith)
    | inr (p, e) ↦ laws.of_prefix t p e
  ]

  dns-Plain :
      (ts : List Text) → every (λ d. is_dns_server (g.parse_addr d)) ts ≡ true → AllOf Plain ts
  dns-Plain [] h = tt
  dns-Plain (t ∷ ts) h = elim (Option-cases (g.parse_addr t)) [
    | inl n ↦ absurd (ground arith)
    | inr (a, e) ↦ (laws.of_addr t a e (ground arith), dns-Plain ts (ground arith))
  ]

  routes-Plain : (seen ts : List Text) → routes_accepted g seen ts ≡ true → AllOf Plain ts
  unfolding routes_accepted
  routes-Plain seen [] h = tt
  routes-Plain seen (t ∷ ts) h =
      (prefix-Plain t (ground arith), routes-Plain (t ∷ seen) ts (ground arith))

  host-Plain : (h : Text) → exists breaks_host h ≡ false → Plain h
  unfolding Plain
  host-Plain [] e = refl
  host-Plain (c ∷ h) e = let rest = host-Plain h in ground arith

  digits-Plain : (p : Text) → every (λ c. leb 48 c && leb c 57) p ≡ true → Plain p
  unfolding Plain
  digits-Plain [] e = refl
  digits-Plain (c ∷ p) e = let rest = digits-Plain p in ground arith

  endpoint-Plain : (t : Text) → endpoint_parts g (g.split_host_port t) ≡ true → Plain t
  endpoint-Plain t h = elim (Option-cases (g.split_host_port t)) [
    | inl n ↦ absurd (ground arith)
    | inr (e, k) ↦
        laws.of_endpoint t e.0 e.1 k (host-Plain e.0 (ground arith))
          (digits-Plain e.1 (ground arith))
  ]

  -- The checks of Text that the lines rest on.
  record Sound (private_v6 : Prefix → Bool) (c : TunnelConfig) : Type 0 where
    private_ok : valid_key g c.private_key ≡ true
    public_ok : valid_key g c.public_key ≡ true
    endpoint_ok : endpoint_parts g (g.split_host_port c.endpoint) ≡ true
    address_ok : tunnel_v4 (g.parse_prefix c.address) ≡ true
    address_v6_ok : private_address g private_v6 (g.parse_prefix c.address_v6) ≡ true
    dns_ok : every (λ d. is_dns_server (g.parse_addr d)) c.dns ≡ true
    routes_ok : routes_accepted g [] c.management_routes ≡ true

  config_text-Sound :
      (lookup_port : Text → Option Error) (private_v6 : Prefix → Bool) (c : TunnelConfig)
      (text : Text)
      → config_text g lookup_port private_v6 c ≡ done text
      → Sound private_v6 c × (text ≡ lines_text (printed_lines g c))
  unfolding config_text
  config_text-Sound lookup_port private_v6 c text h = (
    record {
      private_ok = ground arith;
      public_ok = ground arith;
      endpoint_ok = ground arith;
      address_ok = ground arith;
      address_v6_ok = ground arith;
      dns_ok = ground arith;
      routes_ok = ground arith;
    },
    ground arith,
  )

  allowed-Plain : (rs : List Text) → AllOf Plain rs → Plain (allowed_ips g rs)
  unfolding Plain
  allowed-Plain [] h = refl
  allowed-Plain (r ∷ rs) h = join-Plain (lit ", ") (r ∷ rs) refl h

  -- The text of an accepted configuration has the twelve lines that are meant and no others, whatever the fields
  -- hold, where what the library's base64 makes, and the prefixes and IPv4 addresses that its parsers accept, have no
  -- newline.
  pub config_text-lines :
      (lookup_port : Text → Option Error) (private_v6 : Prefix → Bool) (c : TunnelConfig)
      (text : Text)
      → config_text g lookup_port private_v6 c ≡ done text
      → split 10 text ≡ printed_lines g c ++ ([] ∷ [])
  unfolding Plain
  config_text-lines lookup_port private_v6 c text h =
      let (s, e) = config_text-Sound lookup_port private_v6 c text h in
      let v4_part = prefix-Plain c.address s.address_ok in
      let v6_part = address-Plain private_v6 c.address_v6 s.address_v6_ok in
      let addresses : Plain (c.address ++ lit ", " ++ c.address_v6) =
        Plain-append (c.address ++ lit ", ") c.address_v6
          (Plain-append c.address (lit ", ") v4_part refl) v6_part in
      let servers = join-Plain (lit ", ") c.dns refl (dns-Plain c.dns s.dns_ok) in
      let routes =
        allowed-Plain c.management_routes (routes-Plain [] c.management_routes s.routes_ok) in
      rw e (
        split-lines_text (printed_lines g c) (
          refl,
          (
            key-Plain c.private_key s.private_ok,
            (
              addresses,
              (
                servers,
                (
                  refl,
                  (
                    refl,
                    (
                      refl,
                      (
                        key-Plain c.public_key s.public_ok,
                        (endpoint-Plain c.endpoint s.endpoint_ok, (routes, (refl, tt))),
                      ),
                    ),
                  ),
                ),
              ),
            ),
          ),
        ))
