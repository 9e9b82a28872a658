-- ===== src/Windows/Approval.antt =====
-- native/windows-vpn/main_windows.go: privateDirectory, and what install makes sure of before it asks the service
-- manager for anything.
use easyprivacy.Windows.Services.{Host}
use easyprivacy.Windows.Supervisor.{same_sid}
use easyprivacy.Base.{
  ap, ◌∙◌, arith, Bool, Text, Option, Outcome, Error, same, not, some, none, true, false, ◌>>=◌,
  ◌>>◌, refl, ◌≡◌, failed, done, if◌then◌else◌, fail_if, fail_if-done, bind-done,
}

-- windows.CreateDirectory: of a directory that is there already, whether it is a reparse point, and the text of
-- its security descriptor, each nothing where the call fails.
pub data Creation : Type 0 where
  made : Creation
  already_there : (is_reparse_point : Option Bool) (descriptor : Option Text) → Creation
  not_made : Error → Creation

-- What install takes from Windows. `descriptor` is the text of the descriptor that privateSDDL is parsed to, and
-- `canonical` the text of the SID that a text names.
pub record Machine : Type 0 where
  pub host : Host
  pub is_elevated : Bool
  pub canonical : Text → Option Text
  pub directories : Outcome (Text × Text)
  pub descriptor : Outcome Text
  pub path_error : Text → Option Error
  pub creation : Text → Creation
  pub own_path : Outcome Text
  pub file_content : Text → Outcome Text
  pub driver : Text
  -- strings.ReplaceAll(s, "D:PAI", "D:P")
  pub without_auto_inherited : Text → Text

module _ (m : Machine) where
  abbrev same_descriptor : Text → Option Text → Bool
  same_descriptor wanted none = false
  same_descriptor wanted (some actual) = same (m.without_auto_inherited actual) wanted

  abbrev is_plain : Option Bool → Bool
  is_plain none = false
  is_plain (some reparse) = not reparse

  abbrev pub is_private : Text → Creation → Outcome (Unit {0})
  is_private wanted made = done tt
  is_private wanted (not_made e) = failed e
  is_private wanted (already_there reparse actual) =
      if not (is_plain reparse)
      then failed "refusing an unsafe VPN installation directory"
      else fail_if (not (same_descriptor wanted actual))
          "VPN installation directory does not have the required private permissions"

  abbrev no_error : Option Error → Outcome (Unit {0})
  no_error none = done tt
  no_error (some e) = failed e

  -- privateDirectory
  unfoldable pub private_directory : (path : Text) → Outcome (Unit {0})
  private_directory path = do
    wanted ← m.descriptor
    no_error (m.path_error path)
    is_private wanted (m.creation path)

  -- The part of install before the service manager: the two directories, and the content of the program itself.
  unfoldable pub approved : (owner : Text) → Outcome ((Text × Text) × Text)
  approved owner = do
    fail_if (not m.is_elevated) "Windows administrator approval is required"
    fail_if (not (same_sid owner (m.canonical owner))) "invalid installation owner"
    paths ← m.directories
    private_directory paths.0
    private_directory paths.1
    self ← m.own_path
    raw ← m.file_content self
    done (paths, raw)

-- What install was made sure of: it is run by an administrator, the owner is a SID in its own text, both directories
-- are private, and the program itself was read.
pub record Approved (m : Machine) (owner : Text) (paths : Text × Text) (raw : Text) : Type 0 where
  pub elevated : m.is_elevated ≡ true
  pub is_sid : same_sid owner (m.canonical owner) ≡ true
  pub located : m.directories ≡ done paths
  pub private_programs : private_directory m paths.0 ≡ done tt
  pub private_data : private_directory m paths.1 ≡ done tt
  pub self : Text
  pub itself : m.own_path ≡ done self
  pub content : m.file_content self ≡ done raw

of_negation : (b : Bool) → not b ≡ false → b ≡ true
of_negation true h = refl
of_negation false h = absurd (ground arith)

same_result :
    (paths a : Text × Text) (raw b : Text) (o : Outcome ((Text × Text) × Text))
    → o ≡ done (a, b)
    → o ≡ done (paths, raw)
    → (a ≡ paths) × (b ≡ raw)
same_result paths a raw b o h k = (ground (arith, h, k), ground (arith, h, k))

pub approved-Approved :
    (m : Machine) (owner : Text) (paths : Text × Text) (raw : Text)
    → approved m owner ≡ done (paths, raw)
    → Approved m owner paths raw
unfolding approved
approved-Approved m owner paths raw h =
    let (e, h1) = fail_if-done (not m.is_elevated) _ _ (paths, raw) h in
    let (i, h2) = fail_if-done (not (same_sid owner (m.canonical owner))) _ _ (paths, raw) h1 in
    let (a, l, h3) = bind-done m.directories _ (paths, raw) h2 in
    let (u, p, h4) = bind-done (private_directory m a.0) _ (paths, raw) h3 in
    let (v, q, h5) = bind-done (private_directory m a.1) _ (paths, raw) h4 in
    let (self, o, h6) = bind-done m.own_path _ (paths, raw) h5 in
    let (b, c, h7) = bind-done (m.file_content self) _ (paths, raw) h6 in
    let r = same_result paths a raw b (done (a, b)) refl h7 in
    record {
      elevated = of_negation m.is_elevated e;
      is_sid = of_negation (same_sid owner (m.canonical owner)) i;
      located = rw⁻¹ r.0 l;
      private_programs = rw⁻¹ r.0 p;
      private_data = rw⁻¹ r.0 q;
      self = self;
      itself = o;
      content = c ∙ ap (λ x. done x) r.1;
    }
