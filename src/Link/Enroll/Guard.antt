-- ===== src/Link/Enroll/Guard.antt =====
-- core/internal/link/client.go: a call whose input is a function of the password, and what is the same for all
-- passwords.
use easyprivacy.Platform.{Platform}
use easyprivacy.Base.{
  arith, lit, Outcome, Text, ℕ, Bool, Error, List, Option, ◌++◌, ◌∷◌, [], some, false, true, failed,
  done, inr, inl, ◌⊎◌, refl, ◌≡◌, Bool-cases, Option-cases, Outcome-cases, is_empty,
}
use easyprivacy.Link.{
  authority, sent, dialed, stopped, rejected, got, Identity, Input, Certificate, Event, Result,
  Response, Web, valid_pin,
}
use easyprivacy.Link.Request.{request, verify_connection}
use easyprivacy.Link.Request.Policy.{Pinned, verified-Pinned}
use easyprivacy.Link.Login.{and_then, stop_if, of_outcome}

-- The history is the same for every password.
abbrev pub Same : (Text → List Event) → Type 0
Same r = (k : List Event) × ((q : Text) → r q ≡ k)

-- The histories differ in one last call at most, whose input alone depends on the password: over one connection, to a
-- peer that shows the pinned certificate.
pub record LastCall (g : Platform) (now : ℕ) (pin path : Text) (input : Text → Input)
    (h : List Event) (r : Text → List Event) : Type 0 where
  pub authority : Text
  pub certificates : List Certificate
  pub pinned : Pinned g now pin certificates
  pub history :
      (q : Text)
      → (answer : Option Response) × (r q
          ≡ sent
              (record {
                authority = authority;
                method = lit "POST";
                path = path;
                token = [];
                input = some (input q);
              })
              answer
            ∷ dialed authority certificates
            ∷ h)

-- What holds of a constant history holds behind a test, a value and a call, where it holds behind what follows them.
module _ {A : Type 0} (G : (Text → List Event) → Type 0)
    (same : (k : List Event) → G (λ q. k)) where
  pub behind_call :
      {B : Type 0} (m : List Event × Result B) (f : Text → B → List Event → List Event × Result A)
      → ((b : B) → m.1 ≡ got b → G (λ q. (f q b m.0).0))
      → G (λ q. (and_then m (f q)).0)
  behind_call (h, got b) f k = k b refl
  behind_call (h, stopped e) f k = same h
  behind_call (h, rejected c t) f k = same h

  pub behind_value :
      {B : Type 0} (o : Outcome B) (f : Text → B → List Event → List Event × Result A)
      (h : List Event)
      → ((b : B) → o ≡ done b → G (λ q. (f q b h).0))
      → G (λ q. (and_then (of_outcome o h) (f q)).0)
  behind_value (done b) f h k = k b refl
  behind_value (failed e) f h k = same h

  pub behind_test :
      (test : Bool) (e : Error) (f : Text → List Event → List Event × Result A) (h : List Event)
      → (test ≡ false → G (λ q. (f q h).0))
      → G (λ q. (and_then (stop_if test e h) (λ u. f q)).0)
  behind_test true e f h k = same h
  behind_test false e f h k = k refl

-- The end of a chain adds nothing.
pub ending_same :
    {A : Type 0} {B : Type 0} (m : List Event × Result B)
    (f : B → List Event → List Event × Result A)
    → ((b : B) (h : List Event) → (f b h).0 ≡ h)
    → (and_then m f).0 ≡ m.0
ending_same (h, got b) f k = k b h
ending_same (h, stopped e) f k = refl
ending_same (h, rejected c t) f k = refl

module _ (g : Platform) (w : Web) {A : Type 0} (parse : Text → Outcome A) where
  -- A call under a pin, of which only the input depends on the password.
  pub request-LastCall :
      (now : ℕ) (i : Identity) (path : Text) (input : Text → Input) (h : List Event)
      → valid_pin i.fingerprint ≡ true
      → is_empty i.fingerprint ≡ false
      → let r = λ (q : Text). (request g w parse now i (lit "POST") path [] (some (input q)) h).0 in
        Same r ⊎ LastCall g now i.fingerprint path input h r
  unfolding request
  request-LastCall now i path input h v e = elim (Outcome-cases (authority w i.address)) [
    | inr (x, p) ↦ inl (h, λ q. rw p refl)
    | inl (a, p) ↦ elim (Option-cases (w.url_error (lit "https://" ++ a ++ path))) [
      | inr (x, u) ↦ inl (h, λ q. ground (arith, p, u, e, v))
      | inl u ↦ elim (Option-cases (w.presents h a)) [
        | inl n ↦ inl (h, λ q. ground (arith, p, u, e, v, n))
        | inr (cs, n) ↦ elim (Bool-cases (verify_connection g now i.fingerprint cs)) [
          | inr f ↦ inl (dialed a cs ∷ h, λ q. ground (arith, p, u, e, v, n, f))
          | inl t ↦ inr (record {
            authority = a;
            certificates = cs;
            pinned = verified-Pinned g now i.fingerprint cs e v t;
            history = λ q. (
              w.answers (dialed a cs ∷ h) (record {
                authority = a;
                method = lit "POST";
                path = path;
                token = [];
                input = some (input q);
              }),
              ground (arith, p, u, e, v, n, t),
            );
          })
        ]
      ]
    ]
  ]
