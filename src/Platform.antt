-- ===== src/Platform.antt =====
-- What the core takes from Go's standard library and from the native pairing library: hashes,
-- signatures, text classes and decoders are parameters of the model, with no law attached.
use easyprivacy.Base.{Outcome, Text, Bool, Option, ℕ}
use easyprivacy.Net.{Prefix, Addr}

-- A JSON decoder for one request or record type: the value and what follows it, and the test that
-- only blanks follow.
pub record Decoder {ℓ} (A : Type ℓ) : Type ℓ where
  pub decode : Text → Option (A × Text)
  pub at_end : Text → Bool

pub record Platform : Type 0 where
  -- crypto/sha256, crypto/hmac with SHA-256, crypto/pbkdf2 (password, salt) and crypto/ed25519
  -- (key, message, signature)
  pub sha256 : Text → Text
  pub hmac : Text → Text → Text
  pub pbkdf2 : Text → Text → Option Text
  pub ed25519_verify : Text → Text → Text → Bool
  -- strings.TrimSpace, utf8.ValidString, and strings.ContainsFunc with unicode.IsControl
  pub trim_space : Text → Text
  pub valid_utf8 : Text → Bool
  pub has_control : Text → Bool
  -- mime.ParseMediaType, the type only
  pub media_type : Text → Option Text
  -- encoding/base64: StdEncoding.EncodeToString and DecodeString
  pub base64 : Text → Text
  pub base64_decode : Text → Option Text
  -- crypto/ecdh: the public half of an X25519 key
  pub x25519_public : Text → Text
  -- netip.ParseAddr and netip.ParsePrefix, and net.SplitHostPort: the host and the port
  pub parse_addr : Text → Option Addr
  pub parse_prefix : Text → Option Prefix
  pub split_host_port : Text → Option (Text × Text)
  -- the spake2 crate: the message of a fresh state (role, code, context, seed), and the key from the
  -- peer's message
  pub spake_message : ℕ → Text → Text → Text → Text
  pub spake_finish : ℕ → Text → Text → Text → Text → Option Text
  -- encoding/pem: the bytes of the first block; crypto/tls and crypto/x509: NotBefore and NotAfter of
  -- the leaf of a certificate with its key
  pub pem_decode : Text → Option Text
  pub key_pair : Text → Text → Outcome (ℕ × ℕ)
