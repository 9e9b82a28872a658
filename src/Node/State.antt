-- ===== src/Node/State.antt =====
-- core/internal/node/state.go: the identity and the account of a core, their checks, and their file.
pub mod RoundTrip
use easyprivacy.Hex
use easyprivacy.Platform.{Platform, Decoder}
use easyprivacy.Base.{
  suc, zero, Text, Bool, ℕ, Option, some, none, Outcome, done, failed, Error, lit, ◌++◌, ◌∷◌, [],
  ◌&&◌, ◌||◌, not, ltb, leb, ◌==◌, if◌then◌else◌, length, every, exists, is_empty, map, false, ◌+◌,
  ◌>>=◌, ◌>>◌, fail_if, require,
}
use easyprivacy.Vpn.Validate.{breaks_line, is_alnum}
use easyprivacy.Strconv.{decimal, port_number}

pub record State : Type 0 where
  pub schema_version : ℕ
  pub name : Text
  pub listen : Text
  pub username : Text
  pub salt : Text
  pub password_hash : Text
  pub certificate_pem : Text
  pub private_key_pem : Text

-- Fingerprint
abbrev fingerprint_of : Platform → Option Text → Text
fingerprint_of g none = []
fingerprint_of g (some block) = lit "SHA256:" ++ map Hex.upper (Hex.encode (g.sha256 block))

unfoldable pub fingerprint : Platform → State → Text
fingerprint g s = fingerprint_of g (g.pem_decode s.certificate_pem)

abbrev is_name_char : ℕ → Bool
is_name_char c = is_alnum c || c == 95 || c == 45

-- ValidUsername: ^[a-zA-Z0-9_-]{1,64}$
unfoldable pub valid_username : Text → Bool
valid_username t = not (is_empty t) && leb (length t) 64 && every is_name_char t

abbrev starts_rune : ℕ → Bool
starts_rune c = ltb c 128 || leb 192 c

-- utf8.RuneCountInString of valid UTF-8: the bytes that do not continue a character.
unfoldable pub rune_count : Text → ℕ
rune_count [] = 0
rune_count (c ∷ s) = let rest = rune_count s in if starts_rune c then rest + 1 else rest

-- ValidatePassword
unfoldable pub validate_password : Platform → Text → Outcome (Unit {0})
validate_password g t =
    fail_if (not (g.valid_utf8 t) || ltb (rune_count t) 15 || ltb 1024 (length t))
      "use a password or passphrase of at least 15 characters (at most 1024 bytes)"

-- What the libraries give to NewState: the salt, and the certificate with its key, both as PEM.
pub record Issued : Type 0 where
  pub salt : Outcome Text
  pub certificate : Outcome (Text × Text)

abbrev pub port_fits : ℕ → Bool
port_fits p = leb 1024 p && leb p 65535

-- NewState; a port that is negative is refused as one below 1024 is.
unfoldable pub new_state :
    Platform → Issued → (name : Text) (port : ℕ) (username password : Text) → Outcome State
new_state g issued name port username password = do
  fail_if (is_empty (g.trim_space name) || ltb 80 (length name) || exists breaks_line name)
      "enter a core name between 1 and 80 characters"
  fail_if (not (port_fits port)) "choose a port between 1024 and 65535"
  fail_if (not (valid_username username))
      "username must contain 1-64 letters, numbers, underscores or hyphens"
  validate_password g password
  salt ← issued.salt
  hash ← require (g.pbkdf2 password salt) "password hashing failed"
  certificate ← issued.certificate
  done (record {
    schema_version = 1;
    name = g.trim_space name;
    listen = 58 ∷ decimal port;
    username = username;
    salt = salt;
    password_hash = hash;
    certificate_pem = certificate.0;
    private_key_pem = certificate.1;
  })

-- Certificate: the leaf's validity at `now`; NotAfter itself is outside.
unfoldable pub check_certificate : Platform → (now : ℕ) → State → Outcome (Unit {0})
check_certificate g now s = do
  validity ← g.key_pair s.certificate_pem s.private_key_pem
  fail_if (ltb now validity.0 || leb validity.1 now)
      "core certificate is outside its validity period; administrator action is required"

-- What the file system says of the state directory, for SaveNew.
pub data SaveDirectory : Type 0 where
  relative : SaveDirectory
  cannot_make : Error → SaveDirectory
  not_private : SaveDirectory
  usable : SaveDirectory

-- SaveNew: `fault` is the error of the first step that fails before the link is made, and `file` is what
-- stands under core.json. A link never replaces a file.
unfoldable pub save_new :
    SaveDirectory → Option Error → (raw : Text) → (file : Option Text) → Option Text × Option Error
save_new relative fault raw file = (file, some "state directory must be an absolute path")
save_new (cannot_make e) fault raw file = (file, some e)
save_new not_private fault raw file =
    (file, some "state directory must be private and must not be a symbolic link")
save_new usable (some e) raw file = (file, some e)
save_new usable none raw (some old) =
    (some old, some "publish core identity (existing installations are preserved)")
save_new usable none raw none = (some (raw ++ 10 ∷ []), none)

-- What Lstat says of a path.
pub data PathState : Type 0 where
  missing : Error → PathState
  exposed : PathState
  private_path : PathState

abbrev check_path : PathState → Outcome (Unit {0})
check_path (missing e) = failed e
check_path exposed =
    failed "core state must not be symlinked, group-writable, or accessible to other users"
check_path private_path = done tt

-- io.LimitReader(file, 16385)
unfoldable pub take : ℕ → Text → Text
take zero t = []
take (suc n) [] = []
take (suc n) (c ∷ t) = c ∷ take n t

abbrev decoded_state : Decoder State → Option (State × Text) → Outcome State
decoded_state d none = failed "read core state"
decoded_state d (some (s, rest)) =
    if d.at_end rest then done s else failed "unexpected trailing or excessive core state"

abbrev accepted_port : Option (Text × Text) → Bool
accepted_port none = false
accepted_port (some (host, text)) = is_empty host && in_range (port_number text)
  where
    in_range : Option ℕ → Bool
    in_range none = false
    in_range (some p) = port_fits p

-- Load
unfoldable pub load :
    Platform → Decoder State → (now : ℕ) (directory path : PathState) → Outcome Text → Outcome State
load g d now directory path file = do
  check_path directory
  check_path path
  raw ← file
  s ← decoded_state d (d.decode (take 16385 raw))
  fail_if
      (not (s.schema_version == 1)
        || not (valid_username s.username)
        || not (length s.salt == 16)
        || not (length s.password_hash == 32)
        || is_empty (g.trim_space s.name))
      "invalid core state"
  fail_if (not (accepted_port (g.split_host_port s.listen))) "invalid core listening port"
  check_certificate g now s
  done s
