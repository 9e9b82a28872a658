-- ===== src/Tests/Home.antt =====
-- core/cmd/easyprivacy-node and native/windows-vpn: runs of the service node, of a tunnel text and of a setup.
use easyprivacy.Tests.Fixtures.{token, key_bytes, first, platform, repeat}
use easyprivacy.Home.Serve.{serve, silent, Machine, Daemon}
use easyprivacy.Home.Serve.Standing.{serve-down, Tracked, Noted, noted}
use easyprivacy.Base.{
  arith, text_discrete, Outcome, same, Text, lit, List, ℕ, ◌++◌, ◌∷◌, [], some, none, false, true,
  inr, ◌⊎◌, ◌↔◌, refl, ◌≡◌, ◌%◌, ◌+◌, if◌then◌else◌, ◌==◌, failed, done,
}
use easyprivacy.Vpn.SiteConfig.{SiteConfig}
use easyprivacy.Home.{SiteOutputs, ServiceConfig}
use easyprivacy.Platform.{Platform}
use easyprivacy.Windows.Lines.{Plain, config_text-lines, PlainLaws}
use easyprivacy.Windows.{printed_lines, lines_text, TunnelConfig}
use easyprivacy.Vpn.Config.{split}
use easyprivacy.Setup.{applied, configure_ufw, candidates}
use easyprivacy.Tests.Link.{node, web}
use easyprivacy.Net.{v6, v4, Addr}
use easyprivacy.Setup.PublicHost.{candidates-Only, Only}
use easyprivacy.Setup.Firewall.{configure_ufw-calls, AllowCalled, status_call, any_ufw}

abbrev pub home_site : SiteConfig
home_site = record {
  service = record {
    profile = record {
      exit_id = lit "home";
      exit_name = lit "Home";
      public_key = key_bytes;
      endpoint = lit "vpn.example:51820";
      address = lit "10.87.0.2/32";
      address_v6 = [];
      dns = [];
      allowed_ips = [];
      mtu = 1280;
      keepalive = 25;
      management_routes = [];
    };
    subnet = lit "10.87.0.0/24";
  };
  private_key = key_bytes;
  uplink = lit "eth0";
}

-- A machine that counts its calls; SiteDown fails on odd counts.
abbrev pub machine : Machine ℕ
machine = record {
  site_up = λ site n. (n + 1, done tt);
  site_down = λ n. (n + 1, if n % 2 == 1 then failed "busy" else done tt);
  site_status = λ key n. (n, failed "down");
  save_site = λ site n. (n, none);
  same_json = λ a b. false;
  publish = λ text st n. n;
  unpublish = λ n. n;
}

abbrev pub service : ServiceConfig
service = record {
  schema = 1;
  name = lit "Home";
  identity = node;
  private_key = key_bytes;
  uplink = lit "eth0";
  management = [];
}

abbrev pub site_outputs : SiteOutputs
site_outputs = record {
  login = record { challenge_id = λ t. done first; access_token = λ t. done token };
  profile = λ t. done home_site.service;
  nothing = λ t. done tt;
}

abbrev running : Daemon (Noted ℕ)
running = record {
  machine = record { machine = 0; standing = some home_site; trouble = false };
  network = [];
  current = home_site;
  active = true;
  next = 0;
  last_message = silent;
}

abbrev served : Noted ℕ
served =
    (serve (noted machine) platform web site_outputs service ((5, 6) ∷ (8, 9) ∷ []) running).machine

running-Tracked : Tracked running
unfolding Tracked
running-Tracked = inr refl

serve-down_example : (served.trouble ≡ true) ⊎ (served.standing ≡ none)
serve-down_example =
    serve-down machine platform web site_outputs service ((5, 6) ∷ (8, 9) ∷ []) running
      running-Tracked

-- A platform that reads no address but the ones below, and encodes keys in full.
abbrev reading : Platform
reading = record platform {
  base64 = λ b. key_bytes;
  base64_decode = λ t. some key_bytes;
  parse_prefix = λ t.
      if same t (lit "10.87.0.2/32")
      then some (record { addr = v4 0x0a570002; bits = 32 })
      else if same t (lit "fd6e::2/128")
      then some (record { addr = v6 2 (lit "fd6e::2"); bits = 128 })
      else none;
  split_host_port =
      λ t. if same t (lit "vpn.example:51820") then some (lit "vpn.example", lit "51820") else none;
}

reading-PlainLaws : PlainLaws reading
unfolding Plain repeat
reading-PlainLaws = record {
  of_base64 = λ b. refl;
  of_prefix = λ t p h. elim (text_discrete t (lit "10.87.0.2/32")) [
    | yes e ↦ rw e refl
    | no n ↦ elim (text_discrete t (lit "fd6e::2/128")) [
      | yes e ↦ rw e refl
      | no m ↦ absurd (ground arith)
    ]
  ];
  of_addr = λ t a h v. elim (text_discrete t (lit "1.1.1.1")) [
    | yes e ↦ rw e refl
    | no n ↦ absurd (ground arith)
  ];
  of_endpoint = λ t h p e x y. elim (text_discrete t (lit "vpn.example:51820")) [
    | yes q ↦ rw q refl
    | no n ↦ absurd (ground arith)
  ];
}

abbrev tunnel : TunnelConfig
tunnel = record {
  private_key = key_bytes;
  public_key = key_bytes;
  endpoint = lit "vpn.example:51820";
  address = lit "10.87.0.2/32";
  address_v6 = lit "fd6e::2/128";
  dns = lit "1.1.1.1" ∷ [];
  mtu = 1280;
  keepalive = 25;
  management_routes = [];
}

config_text-lines_example :
    split 10 (lines_text (printed_lines reading tunnel)) ≡ printed_lines reading tunnel ++ ([] ∷ [])
unfolding easyprivacy.Windows.config_text repeat text_discrete easyprivacy.Vpn.Validate.is_hostname
    easyprivacy.Vpn.Validate.has_double_dot easyprivacy.Net.is_private
    easyprivacy.Net.is_unspecified easyprivacy.Net.is_multicast easyprivacy.Windows.routes_accepted
config_text-lines_example =
    config_text-lines reading reading-PlainLaws (λ p. none) (λ p. true) tunnel
      (lines_text (printed_lines reading tunnel)) refl

abbrev addresses : List Addr
addresses = v4 0x0a000001 ∷ v4 0x5db8d822 ∷ v6 1 (lit "::1") ∷ v4 0x5db8d822 ∷ []

candidates-Only_example : (candidates addresses [] ≡ 0x5db8d822 ∷ []) ↔ Only 0x5db8d822 addresses
candidates-Only_example = candidates-Only 0x5db8d822 addresses

abbrev active_ufw : List (List Text) → List Text → Outcome Text
active_ufw calls call = done (lit "Status: active")

configure_ufw-calls_example :
    let (calls, r) = configure_ufw platform (any_ufw active_ufw) 7444 true [] in
    (((calls ≡ []) ⊎ (calls ≡ status_call ∷ [])) × ¬ (r ≡ done applied))
    ⊎ AllowCalled platform active_ufw 7444 true calls
configure_ufw-calls_example = configure_ufw-calls platform active_ufw 7444 true
