-- ===== src/Link/Request/Policy.antt =====
-- core/internal/link/client.go: what Request sends, and to whom.
use easyprivacy.Platform.{Platform}
use easyprivacy.Link.Request.{read_answer, certificate_pin, public_call, verify_connection, request}
use easyprivacy.Base.{
  none, some, done, lit, Option-cases, not, Bool-cases, Bool, ◌++◌, ◌||◌, ◌&&◌, Outcome-cases,
  arith, is_empty, Outcome, Option, List, Text, ℕ, ◌∷◌, [], false, true, inr, inl, ◌⊎◌, refl, ◌≡◌,
  ◌≤◌,
}
use easyprivacy.Link.{
  got, authority, sent, dialed, Response, Event, valid_pin, Identity, Input, Certificate, Call, Web,
}

-- The two tests on the pin.
abbrev refuses : (pin method path token : Text) → Bool
refuses pin method path token =
    (is_empty pin && not (public_call method path token))
    || (not (is_empty pin) && not (valid_pin pin))

module _ (g : Platform) where
  -- The peer may be sent the call: it showed the pinned certificate within its validity, or there is no
  -- pin and the call is a public one.
  pub record Pinned (now : ℕ) (pin : Text) (certificates : List Certificate) : Type 0 where
    pub leaf : Certificate
    pub others : List Certificate
    pub shown : certificates ≡ leaf ∷ others
    pub sound : valid_pin pin ≡ true
    pub of_pin : certificate_pin g leaf ≡ pin
    pub begun : leaf.not_before ≤ now
    pub not_over : now ≤ leaf.not_after

  unfoldable pub Cleared : (now : ℕ) (pin : Text) → Call → List Certificate → Type 0
  Cleared now pin c certificates =
      ((pin ≡ []) × (public_call c.method c.path c.token ≡ true)) ⊎ Pinned now pin certificates

  -- One call was sent, over a connection that was made for it.
  pub record Sent (now : ℕ) (pin method path token : Text) (input : Option Input) (h r : List Event)
      : Type 0 where
    pub call : Call
    pub certificates : List Certificate
    pub answer : Option Response
    pub history : r ≡ sent call answer ∷ dialed call.authority certificates ∷ h
    pub asked : call ≡ record {
      authority = call.authority;
      method = method;
      path = path;
      token = token;
      input = input;
    }
    pub cleared : Cleared now pin call certificates

  -- What a request may add to the history.
  unfoldable pub Allowed :
      (now : ℕ) (pin method path token : Text) → Option Input → (h r : List Event) → Type 0
  Allowed now pin method path token input h r =
      (r ≡ h)
      ⊎ ((a : Text) × (cs : List Certificate) × (r ≡ dialed a cs ∷ h))
      ⊎ Sent now pin method path token input h r

  pub verified-Pinned :
      (now : ℕ) (pin : Text) (cs : List Certificate)
      → is_empty pin ≡ false
      → valid_pin pin ≡ true
      → verify_connection g now pin cs ≡ true
      → Pinned now pin cs
  unfolding verify_connection
  verified-Pinned now [] cs e v h = absurd (ground arith)
  verified-Pinned now (c ∷ pin) [] e v h = absurd (ground arith)
  verified-Pinned now (c ∷ pin) (leaf ∷ cs) e v h = record {
    leaf = leaf;
    others = cs;
    shown = refl;
    sound = v;
    of_pin = ground arith;
    begun = ground arith;
    not_over = ground arith;
  }

  module _ {ℓ} (w : Web) {A : Type ℓ} (parse : Text → Outcome A) where
    -- A request adds to the history at most one connection and then one call over it. The call is sent only
    -- where the first certificate of the peer has the pinned hash and is within its validity, or where there
    -- is no pin, no token, and the call is one of the two of the pairing exchange.
    pub request-Allowed :
        (now : ℕ) (i : Identity) (method path token : Text) (input : Option Input) (h : List Event)
        → Allowed now i.fingerprint method path token input h
            (request g w parse now i method path token input h).0
    unfolding request Allowed Cleared
    request-Allowed now i method path token input h = elim (Outcome-cases (authority w i.address)) [
      | inr (e, p) ↦ rw p (inl refl)
      | inl (a, p) ↦ elim (Bool-cases (refuses i.fingerprint method path token)) [
        | inl q ↦ inl (ground arith)
        | inr q ↦ elim (Option-cases (w.url_error (lit "https://" ++ a ++ path))) [
          | inr (e, u) ↦ inl (ground arith)
          | inl u ↦ elim (Option-cases (w.presents h a)) [
            | inl n ↦ inl (ground arith)
            | inr (cs, k) ↦ elim (Bool-cases (verify_connection g now i.fingerprint cs)) [
              | inr v ↦ inr (inl (a, cs, ground arith))
              | inl v ↦ inr (
                  inr (record {
                    call = call_of a;
                    certificates = cs;
                    answer = w.answers (dialed a cs ∷ h) (call_of a);
                    history = ground arith;
                    asked = refl;
                    cleared = clearance i.fingerprint cs q v;
                  }))
            ]
          ]
        ]
      ]
    ]
      where
        call_of : Text → Call
        call_of a = record {
          authority = a;
          method = method;
          path = path;
          token = token;
          input = input;
        }

        clearance :
            (pin : Text) (cs : List Certificate)
            → refuses pin method path token ≡ false
            → verify_connection g now pin cs ≡ true
            → ((pin ≡ []) × (public_call method path token ≡ true)) ⊎ Pinned now pin cs
        clearance [] cs q v = inl (refl, ground arith)
        clearance (c ∷ pin) cs q v = inr (verified-Pinned now (c ∷ pin) cs refl (ground arith) v)

    -- A call that was answered with an output.
    pub record Received (a : A) (h r : List Event) : Type ℓ where
      pub call : Call
      pub certificates : List Certificate
      pub answer : Response
      pub raw : Text
      pub history : r ≡ sent call (some answer) ∷ dialed call.authority certificates ∷ h
      pub ok : answer.status ≡ 200
      pub body : answer.body ≡ some raw
      pub read : parse raw ≡ done a

    -- What a result was read from.
    record ReadFrom (a : A) (x : Option Response) : Type ℓ where
      of : Response
      text : Text
      found : x ≡ some of
      status_ok : of.status ≡ 200
      with_body : of.body ≡ some text
      parses : parse text ≡ done a

    read_answer-got : (x : Option Response) (a : A) → read_answer w parse x ≡ got a → ReadFrom a x
    read_answer-got none a e = absurd (ground arith)
    read_answer-got (some x) a e = elim (Option-cases x.body) [
      | inl n ↦ absurd (ground arith)
      | inr (raw, p) ↦ elim (Outcome-cases (parse raw)) [
        | inr (err, q) ↦ absurd (ground arith)
        | inl (b, q) ↦ record {
          of = x;
          text = raw;
          found = refl;
          status_ok = ground arith;
          with_body = p;
          parses = ground arith;
        }
      ]
    ]

    pub request-Received :
        (now : ℕ) (i : Identity) (method path token : Text) (input : Option Input) (h : List Event)
        (a : A)
        → (request g w parse now i method path token input h).1 ≡ got a
        → Received a h (request g w parse now i method path token input h).0
    unfolding request
    request-Received now i method path token input h a e =
        elim (Outcome-cases (authority w i.address)) [
          | inr (err, p) ↦ absurd (ground arith)
          | inl (au, p) ↦ elim (Bool-cases (refuses i.fingerprint method path token)) [
            | inl q ↦ absurd (ground arith)
            | inr q ↦ elim (Option-cases (w.url_error (lit "https://" ++ au ++ path))) [
              | inr (err, u) ↦ absurd (ground arith)
              | inl u ↦ elim (Option-cases (w.presents h au)) [
                | inl n ↦ absurd (ground arith)
                | inr (cs, k) ↦ elim (Bool-cases (verify_connection g now i.fingerprint cs)) [
                  | inr v ↦ absurd (ground arith)
                  | inl v ↦
                      let t = dialed au cs ∷ h in
                      let f = read_answer-got (w.answers t (call_of au)) a (ground arith) in
                      record {
                        call = call_of au;
                        certificates = cs;
                        answer = f.of;
                        raw = f.text;
                        history = ground (arith, f.found);
                        ok = f.status_ok;
                        body = f.with_body;
                        read = f.parses;
                      }
                ]
              ]
            ]
          ]
        ]
      where
        call_of : Text → Call
        call_of au = record {
          authority = au;
          method = method;
          path = path;
          token = token;
          input = input;
        }
