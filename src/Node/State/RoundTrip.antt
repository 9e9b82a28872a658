-- ===== src/Node/State/RoundTrip.antt =====
-- core/internal/node/state.go: a state that NewState made and SaveNew stored is the one that Load reads.
-- The JSON codec, the address functions and the certificate are the platform's.
use easyprivacy.Base.{
  ◌++◌, length-append, none, ap, [], refl, ◌≤◌, suc, zero, Option-cases, Outcome-cases, inr, inl,
  exists, length, arith, not, ltb, Bool, ◌||◌, is_empty, ◌∷◌, some, ℕ, Text, ◌≡◌, done, false, true,
}
use easyprivacy.Platform.{Decoder, Platform}
use easyprivacy.Node.State.{
  usable, save_new, accepted_port, private_path, check_certificate, load, take, rune_count,
  validate_password, valid_username, port_fits, State, Issued, new_state,
}
use easyprivacy.Strconv.{decimal}
use easyprivacy.Vpn.Validate.{breaks_line}
use easyprivacy.Strconv.RoundTrip.{port_number-decimal}

-- What NewState makes of accepted input.
abbrev built : Platform → Text → ℕ → Text → Text → Text → Text × Text → State
built g name port username salt hash certificate = record {
  schema_version = 1;
  name = g.trim_space name;
  listen = 58 ∷ decimal port;
  username = username;
  salt = salt;
  password_hash = hash;
  certificate_pem = certificate.0;
  private_key_pem = certificate.1;
}

module _ (g : Platform) (issued : Issued) (name : Text) (port : ℕ) (username password : Text) where
  -- The first three tests of new_state.
  abbrev input_refused : Bool
  input_refused =
      (is_empty (g.trim_space name) || ltb 80 (length name) || exists breaks_line name)
      || not (port_fits port)
      || not (valid_username username)

  abbrev bad_password : Bool
  bad_password =
      not (g.valid_utf8 password) || ltb (rune_count password) 15 || ltb 1024 (length password)

  record Made (s : State) : Type 0 where
    pub named : is_empty (g.trim_space name) ≡ false
    pub fits : port_fits port ≡ true
    pub user : valid_username username ≡ true
    pub salt_text : Text
    pub salted : issued.salt ≡ done salt_text
    pub hash : Text
    pub hashed : g.pbkdf2 password salt_text ≡ some hash
    pub certificate : Text × Text
    pub certified : issued.certificate ≡ done certificate
    pub is_built : built g name port username salt_text hash certificate ≡ s

  accepted_input :
      (s : State)
      → new_state g issued name port username password ≡ done s
      → (input_refused ≡ false) × (bad_password ≡ false)
  unfolding new_state validate_password
  accepted_input s h = ground arith

  new_state-Made : (s : State) → new_state g issued name port username password ≡ done s → Made s
  unfolding new_state validate_password
  new_state-Made s h = elim (Outcome-cases issued.salt) [
    | inr (e, a) ↦ absurd (ground arith)
    | inl (salt, a) ↦ elim (Option-cases (g.pbkdf2 password salt)) [
      | inl b ↦ absurd (ground arith)
      | inr (hash, b) ↦ elim (Outcome-cases issued.certificate) [
        | inr (e, c) ↦ absurd (ground arith)
        | inl (certificate, c) ↦ record {
          named = ground arith;
          fits = ground arith;
          user = ground arith;
          salt_text = salt;
          salted = a;
          hash = hash;
          hashed = b;
          certificate = certificate;
          certified = c;
          is_built = ground arith;
        }
      ]
    ]
  ]

take-all : (n : ℕ) (t : Text) → length t ≤ n → take n t ≡ t
unfolding take
take-all zero [] h = refl
take-all zero (c ∷ t) h = absurd (omega arith)
take-all (suc n) [] h = refl
take-all (suc n) (c ∷ t) h = ap (λ (u : Text). c ∷ u) (take-all n t (omega arith))

-- The tests of Load on what it decoded.
record Sound (g : Platform) (now : ℕ) (s : State) : Type 0 where
  pub schema : s.schema_version ≡ 1
  pub user : valid_username s.username ≡ true
  pub salted : length s.salt ≡ 16
  pub hashed : length s.password_hash ≡ 32
  pub named : is_empty (g.trim_space s.name) ≡ false
  pub listens : accepted_port (g.split_host_port s.listen) ≡ true
  pub valid : check_certificate g now s ≡ done tt

load-Sound :
    (g : Platform) (d : Decoder State) (now : ℕ) (s : State) (file rest : Text)
    → Sound g now s
    → length file ≤ 16385
    → d.decode file ≡ some (s, rest)
    → d.at_end rest ≡ true
    → load g d now private_path private_path (done file) ≡ done s
unfolding load check_certificate
load-Sound g d now s file rest m fits reads ends = rw (
  take-all 16385 file fits,
  reads,
  ends,
  m.schema,
  m.user,
  m.salted,
  m.hashed,
  m.named,
  m.listens,
  m.valid,
)

built-Sound :
    (g : Platform) (now : ℕ) (issued : Issued) (name : Text) (port : ℕ) (username password : Text)
    (s : State)
    → Made g issued name port username password s
    → g.trim_space (g.trim_space name) ≡ g.trim_space name
    → g.split_host_port (58 ∷ decimal port) ≡ some ([], decimal port)
    → length s.salt ≡ 16
    → length s.password_hash ≡ 32
    → check_certificate g now s ≡ done tt
    → Sound g now s
built-Sound g now issued name port username password s m trims splits salts hashes valid =
    let back = port_number-decimal port (ground arith) in
    record {
      schema = rw (← m.is_built);
      user = rw (← m.is_built) m.user;
      salted = salts;
      hashed = hashes;
      named = rw (← m.is_built, trims, m.named);
      listens = rw (← m.is_built, splits, back, m.fits);
      valid = valid;
    }

-- The state that NewState makes for accepted input is what Load gives back from the file under which
-- SaveNew published its JSON text, where trimming twice trims once, the listening address splits into
-- no host and its port, the salt has 16 bytes and the hash 32, the certificate is within its validity,
-- the text has at most 16384 bytes, and the decoder reads the file as the state and then blanks.
pub load-new_state :
    (g : Platform) (d : Decoder State) (now : ℕ) (issued : Issued) (name : Text) (port : ℕ)
    (username password : Text) (s : State) (raw file rest : Text)
    → new_state g issued name port username password ≡ done s
    → (save_new usable none raw none).0 ≡ some file
    → g.trim_space (g.trim_space name) ≡ g.trim_space name
    → g.split_host_port (58 ∷ decimal port) ≡ some ([], decimal port)
    → length s.salt ≡ 16
    → length s.password_hash ≡ 32
    → check_certificate g now s ≡ done tt
    → length raw ≤ 16384
    → d.decode file ≡ some (s, rest)
    → d.at_end rest ≡ true
    → load g d now private_path private_path (done file) ≡ done s
unfolding save_new
load-new_state g d now issued name port username password s raw file rest made saved trims splits
      salts hashes valid fits reads ends =
    let m = new_state-Made g issued name port username password s made in
    let sound =
      built-Sound g now issued name port username password s m trims splits salts hashes valid in
    let size = length-append raw (10 ∷ []) in
    let same_file : raw ++ 10 ∷ [] ≡ file = cc in
    let short : length file ≤ 16385 = rw (← same_file) (omega (arith, size)) in
    load-Sound g d now s file rest sound short reads ends
