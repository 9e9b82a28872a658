-- ===== src/Link.antt =====
-- core/internal/link/client.go: the identity of a service node, and one request to its core. The
-- network is any: what it does may depend on all that has happened, a list of events, the last first.
pub mod Request
pub mod Login
pub mod Enroll
use easyprivacy.Platform.{Platform}
use easyprivacy.Hex
use easyprivacy.Strconv.{decimal}
use easyprivacy.Base.{
  drop, exists, map, has_prefix, length, same, ltb, is_empty, lit, not, List, Bool, Outcome, Option,
  Error, ℕ, Text, ◌++◌, ◌∷◌, [], some, none, ◌||◌, ◌&&◌, false, true, if◌then◌else◌, ◌==◌, failed,
  done,
}
use easyprivacy.Vpn.Shell.{has_infix}
use easyprivacy.Vpn.Validate.{breaks_line}

pub record Identity : Type 0 where
  pub address : Text
  pub username : Text
  pub fingerprint : Text
  pub device_seed : Text
  pub device_id : Text

-- net/url: what url.Parse finds.
pub record Url : Type 0 where
  pub scheme : Text
  pub host : Text
  pub hostname : Text
  pub port : Text
  pub has_user : Bool
  pub path : Text
  pub query : Text
  pub fragment : Text

pub record Certificate : Type 0 where
  pub raw : Text
  pub not_before : ℕ
  pub not_after : ℕ

-- The JSON objects that the client sends.
pub data Input : Type 0 where
  start_input : (target name key : Text) → Input
  finish_input : (id message proof : Text) → Input
  enroll_input : (id proof username password : Text) → Input
  challenge_input : (device : Text) → Input
  login_input : (device challenge signature : Text) → Input
  service_input : (name key management : Text) → Input

pub record Call : Type 0 where
  pub authority : Text
  pub method : Text
  pub path : Text
  pub token : Text
  pub input : Option Input

-- A response: the body is nothing where reading it fails.
pub record Response : Type 0 where
  pub status : ℕ
  pub body : Option Text

-- A handshake with the certificates of the peer, and a call that was sent over its connection.
pub data Event : Type 0 where
  dialed : Text → List Certificate → Event
  sent : Call → Option Response → Event

-- What the client takes from Go's standard library and from the network: `presents` gives nothing
-- where no handshake begins, `answers` nothing where no response comes or it is a redirect.
pub record Web : Type 0 where
  pub parse_url : Text → Option Url
  pub join_host_port : Text → Text → Text
  pub resolves : Text → Bool
  -- the error of http.NewRequest for a URL
  pub url_error : Text → Option Error
  -- crypto/ed25519: the public half of the key of a seed, and a signature with it
  pub ed25519_public : Text → Text
  pub ed25519_sign : Text → Text → Text
  -- the field `error` of a JSON object, empty where there is none
  pub error_field : Text → Text
  pub presents : List Event → Text → Option (List Certificate)
  pub answers : List Event → Call → Option Response

-- The result of a request: an output, an error of the client, or an HTTPError.
pub data Result {ℓ} (A : Type ℓ) : Type ℓ where
  got : A → Result A
  stopped : Error → Result A
  rejected : ℕ → Text → Result A

-- "\r\n\x00 /\\"
abbrev breaks_authority : ℕ → Bool
breaks_authority c = breaks_line c || c == 32 || c == 47 || c == 92

abbrev with_scheme : Text → Text
with_scheme a = if has_infix (lit "://") a then a else lit "https://" ++ a

module _ (w : Web) where
  abbrev authority_of : Option Url → Outcome Text
  authority_of none = failed "enter a core hostname or IP with its management port"
  authority_of (some u) =
      if not (same u.scheme (lit "https"))
        || is_empty u.hostname
        || u.has_user
        || not (is_empty u.path)
        || not (is_empty u.query)
        || not (is_empty u.fragment)
        || exists breaks_authority u.host
      then failed "enter a core hostname or IP with its management port"
      else if is_empty u.port
      then done (w.join_host_port u.hostname (lit "7444"))
      else if w.resolves u.host
      then done u.host
      else failed "invalid core address"

  -- Authority
  unfoldable pub authority : Text → Outcome Text
  authority address = authority_of (w.parse_url (with_scheme address))

abbrev decodes_to_hash : Option Text → Bool
decodes_to_hash none = false
decodes_to_hash (some b) = length b == 32

-- validPin
unfoldable pub valid_pin : Text → Bool
valid_pin pin =
    has_prefix (lit "SHA256:") pin
    && decodes_to_hash (Hex.decode (drop 7 pin))
    && same pin (map Hex.upper pin)

module _ (g : Platform) (w : Web) where
  abbrev key_of_seed : Identity → Option Text → Outcome Text
  key_of_seed i none = failed "invalid saved device identity"
  key_of_seed i (some seed) =
      if not (length seed == 32)
      then failed "invalid saved device identity"
      else if not (same (Hex.encode (g.sha256 (w.ed25519_public seed))) i.device_id)
          || not (valid_pin i.fingerprint)
      then failed "device identity does not match its saved ID"
      else done seed

  -- PrivateKey: a key is given by its seed.
  unfoldable pub private_key : Identity → Outcome Text
  private_key i = key_of_seed i (g.base64_decode i.device_seed)
