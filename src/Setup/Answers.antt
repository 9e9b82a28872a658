-- ===== src/Setup/Answers.antt =====
-- core/cmd/easyprivacy-node/main.go: the answers that setup asks for, and the state that it makes of them.
use easyprivacy.Platform.{Platform}
use easyprivacy.Node.State.{State, Issued, new_state, port_fits, valid_username, validate_password}
use easyprivacy.Base.{
  bind-done, fail_if-done, arith, false, true, inr, inl, refl, Bool, Text, Option, Outcome, Error,
  List, ℕ, lit, same, not, is_empty, ◌∷◌, [], some, none, failed, done, ◌>>=◌, ◌>>◌, fail_if,
  if◌then◌else◌, ◌≡◌, ◌⊎◌,
}

-- What os.Lstat says of core.json.
pub data StateFile : Type 0 where
  configured : StateFile
  not_configured : StateFile
  unseen : Error → StateFile

-- What setup is given: each list holds what the lines of one question read, and its end is the end of the input.
-- `port_of` is strconv.Atoi, nothing for a number below zero too, which is refused as the others are.
pub record Inputs : Type 0 where
  pub is_terminal : Bool
  pub state_file : StateFile
  pub is_installed : Bool
  pub is_root : Bool
  pub has_group : Bool
  pub group_id : Outcome ℕ
  pub name_line : Outcome Text
  pub port_lines : List (Outcome Text)
  pub username_lines : List (Outcome Text)
  pub password_lines : List (Outcome Text)
  pub end_of_input : Error
  pub port_of : Text → Option ℕ
  pub listen_error : ℕ → Option Error
  pub issued : Issued

abbrev unconfigured : StateFile → Outcome (Unit {0})
unconfigured configured =
    failed
      "this core is already configured; use 'easyprivacy-node identity' to display its fingerprint"
unconfigured not_configured = done tt
unconfigured (unseen e) = failed e

abbrev free_port : Option Error → Outcome (Unit {0})
free_port none = done tt
free_port (some e) = failed "port is unavailable; rerun setup and choose another port"

module _ (g : Platform) (x : Inputs) where
  -- ask, behind the reading of the line
  abbrev answer : (fallback line : Text) → Text
  answer fallback line = if is_empty (g.trim_space line) then fallback else g.trim_space line

  abbrev accept_port : Outcome ℕ → Option ℕ → Outcome ℕ
  accept_port rest none = rest
  accept_port rest (some p) = if port_fits p then done p else rest

  unfoldable pub ask_port : List (Outcome Text) → Outcome ℕ
  ask_port [] = failed x.end_of_input
  ask_port (failed e ∷ ls) = failed e
  ask_port (done t ∷ ls) =
      let rest = ask_port ls in accept_port rest (x.port_of (answer (lit "7444") t))

  unfoldable pub ask_username : List (Outcome Text) → Outcome Text
  ask_username [] = failed x.end_of_input
  ask_username (failed e ∷ ls) = failed e
  ask_username (done t ∷ ls) =
      let rest = ask_username ls in
      if valid_username (answer [] t) then done (answer [] t) else rest

  -- An acceptable password is asked for again; `typed` is one that waits for that.
  unfoldable pub ask_password : (typed : Option Text) → List (Outcome Text) → Outcome Text
  ask_password typed [] = failed x.end_of_input
  ask_password typed (failed e ∷ ls) = failed e
  ask_password none (done p ∷ ls) =
      let again = ask_password none ls in
      let confirmed = ask_password (some p) ls in
      elim (validate_password g p) [ failed e ↦ again | done u ↦ confirmed ]
  ask_password (some p) (done q ∷ ls) =
      let again = ask_password none ls in if same p q then done p else again

  abbrev group_of_core : Outcome (Unit {0})
  group_of_core =
      if not x.is_installed
      then done tt
      else if not x.is_root
      then failed "run setup with sudo"
      else if not x.has_group
      then failed "install the EasyPrivacy Ubuntu package before running setup"
      else (x.group_id >>= λ id. done tt)

  -- setup up to NewState
  unfoldable pub asked_state : Outcome State
  asked_state = do
    fail_if (not x.is_terminal)
        "setup needs an interactive terminal; passwords are never accepted on the command line"
    unconfigured x.state_file
    group_of_core
    name ← x.name_line
    port ← ask_port x.port_lines
    free_port (x.listen_error port)
    username ← ask_username x.username_lines
    password ← ask_password none x.password_lines
    new_state g x.issued (answer (lit "My EasyPrivacy Core") name) port username password

  -- The text is read twice, one reading right behind the other.
  abbrev pub Twice : Text → List (Outcome Text) → Type 0
  Twice p (done a ∷ done b ∷ ls) = ((a ≡ p) × (b ≡ p)) ⊎ Twice p (done b ∷ ls)
  Twice p (_ ∷ ls) = Twice p ls
  Twice p [] = ⊥

  -- What stands behind a state that setup made.
  pub record Asked (s : State) : Type 0 where
    pub first_setup : x.state_file ≡ not_configured
    pub name : Text
    pub port : ℕ
    pub free : x.listen_error port ≡ none
    pub username : Text
    pub password : Text
    pub typed_twice : Twice password x.password_lines
    pub made : new_state g x.issued name port username password ≡ done s

  longer : (p : Text) (r : Outcome Text) (ls : List (Outcome Text)) → Twice p ls → Twice p (r ∷ ls)
  longer p (failed e) ls t = t
  longer p (done a) [] t = t
  longer p (done a) (failed e ∷ ls) t = t
  longer p (done a) (done b ∷ ls) t = inr t

  either_way :
      (o : Outcome (Unit {0})) (again confirmed : Outcome Text) (p : Text)
      → elim o [ failed e ↦ again | done u ↦ confirmed ] ≡ done p
      → (again ≡ done p) ⊎ (confirmed ≡ done p)
  either_way (failed e) again confirmed p h = inl h
  either_way (done u) again confirmed p h = inr h

  matching :
      (b : Bool) (a p : Text) (again : Outcome Text)
      → (if b then done a else again) ≡ done p
      → ((b ≡ true) × (a ≡ p)) ⊎ (again ≡ done p)
  matching true a p again h = inl (refl, ground (arith, h))
  matching false a p again h = inr h

  abbrev Seen : Option Text → Text → List (Outcome Text) → Type 0
  Seen none p ls = Twice p ls
  Seen (some a) p ls = Twice p (done a ∷ ls)

  ask_password-Seen :
      (typed : Option Text) (ls : List (Outcome Text)) (p : Text)
      → ask_password typed ls ≡ done p
      → Seen typed p ls
  unfolding ask_password
  ask_password-Seen none [] p h = absurd (ground arith)
  ask_password-Seen (some a) [] p h = absurd (ground arith)
  ask_password-Seen none (failed e ∷ ls) p h = absurd (ground arith)
  ask_password-Seen (some a) (failed e ∷ ls) p h = absurd (ground arith)
  ask_password-Seen none (done b ∷ ls) p h =
      elim (either_way (validate_password g b) (ask_password none ls) (ask_password (some b) ls) p
        h) [
          | inl again ↦ longer p (done b) ls (ask_password-Seen none ls p again)
          | inr confirmed ↦ ask_password-Seen (some b) ls p confirmed
        ]
  ask_password-Seen (some a) (done b ∷ ls) p h =
      elim (matching (same a b) a p (ask_password none ls) h) [
        | inl (t, e) ↦ inl (e, ground (arith, t, e))
        | inr again ↦ inr (longer p (done b) ls (ask_password-Seen none ls p again))
      ]

  first_time : (f : StateFile) → unconfigured f ≡ done tt → f ≡ not_configured
  first_time configured h = absurd (ground arith)
  first_time not_configured h = refl
  first_time (unseen e) h = absurd (ground arith)

  free_to_listen : (o : Option Error) → free_port o ≡ done tt → o ≡ none
  free_to_listen none h = refl
  free_to_listen (some e) h = absurd (ground arith)

  pub asked_state-Asked : (s : State) → asked_state ≡ done s → Asked s
  unfolding asked_state
  asked_state-Asked s h =
      let (t, h1) = fail_if-done (not x.is_terminal) _ _ s h in
      let (u, f, h2) = bind-done (unconfigured x.state_file) _ s h1 in
      let (v, q, h3) = bind-done group_of_core _ s h2 in
      let (name, n, h4) = bind-done x.name_line _ s h3 in
      let (port, p, h5) = bind-done (ask_port x.port_lines) _ s h4 in
      let (w, l, h6) = bind-done (free_port (x.listen_error port)) _ s h5 in
      let (username, k, h7) = bind-done (ask_username x.username_lines) _ s h6 in
      let (password, r, h8) = bind-done (ask_password none x.password_lines) _ s h7 in
      record {
        first_setup = first_time x.state_file f;
        name = answer (lit "My EasyPrivacy Core") name;
        port = port;
        free = free_to_listen (x.listen_error port) l;
        username = username;
        password = password;
        typed_twice = ask_password-Seen none x.password_lines password r;
        made = h8;
      }
