-- ===== src/Link/Enroll/Password.antt =====
-- core/internal/link/client.go: what Enroll has seen of the core when it sends the password.
use easyprivacy.Hex
use easyprivacy.Platform.{Platform}
use easyprivacy.Link.Request.{start_path, finish_path, request}
use easyprivacy.Link.Request.Policy.{request-Received, Received}
use easyprivacy.Link.Enroll.{
  valid_code, protocol, new_identity, enroll_context, pake_exchange, Begin, Finish, proof,
  enroll_identity, enroll_begun, enroll_with_key, check_core, send_password, EnrollOutputs,
  client_enroll,
}
use easyprivacy.Link.Enroll.Guard.{
  Same, LastCall, behind_call, behind_value, behind_test, ending_same, request-LastCall,
}
use easyprivacy.Link.Login.{◌>>◌, return, stop_if}
use easyprivacy.Base.{
  arith, lit, ltb, is_empty, same, not, Bool, Option, List, Text, Outcome, ℕ, ◌∷◌, [], some, ◌||◌,
  ◌∙◌, true, false, inr, inl, ◌⊎◌, refl, ◌≡◌, done,
}
use easyprivacy.Link.{
  valid_pin, Result, enroll_input, start_input, finish_input, Input, authority, Event, Identity,
  Web,
}

module _ (g : Platform) (w : Web) (d : EnrollOutputs) where
  -- The call with the password.
  abbrev pub password_input : Identity → (context : Text) → Begin → (key : Text) → Text → Input
  password_input i context b key q =
      enroll_input b.id (proof g key (lit "enroll") context i.device_id) i.username q

  -- The core has proved that it knows the key of the exchange, and the one call with the password follows.
  pub record Handed (last : ℕ) (i : Identity) (context : Text) (b : Begin) (key : Text)
      (r : Text → List Event) : Type 0 where
    pub prior : List Event
    pub finished : Finish
    pub earlier : List Event
    pub received : Received g w d.finish finished earlier prior
    pub proved : finished.proof ≡ proof g key (lit "core") context i.device_id
    pub handed :
        LastCall g last b.pin
          (lit "/api/v1/pairing/enroll")
          (password_input i context b key)
          prior
          r

  -- The password goes to a core that has proved the key of the exchange, which was agreed on from the code and from a
  -- context with the pin of the core.
  pub record PasswordSent (last : ℕ) (i : Identity) (code name key randomness : Text)
      (r : Text → List Event) : Type 0 where
    pub begun : Begin
    pub keys : Text × Text
    pub agreed :
        pake_exchange g code
          (enroll_context g begun.id i.address name key begun.pin)
          randomness
          begun.message
        ≡ done keys
    pub handed :
        Handed last i (enroll_context g begun.id i.address name key begun.pin) begun keys.1 r

  not_empty : (pin : Text) → valid_pin pin ≡ true → is_empty pin ≡ false
  unfolding valid_pin
  not_empty [] v = ground arith
  not_empty (c ∷ pin) v = refl

  send_password-LastCall :
      (last : ℕ) (context : Text) (i : Identity) (b : Begin) (key : Text) (h : List Event)
      → valid_pin b.pin ≡ true
      → let r = λ (q : Text). (send_password g w d last context q i b key h).0 in
        Same r
        ⊎ LastCall g last b.pin (lit "/api/v1/pairing/enroll") (password_input i context b key) h r
  unfolding send_password
  send_password-LastCall last context i b key h v =
      elim (request-LastCall g w d.device last pinned (lit "/api/v1/pairing/enroll") input h v
        (not_empty b.pin v)) [
          | inl (k, e) ↦ inl (k, λ q. kept q ∙ e q)
          | inr c ↦ inr (record {
            authority = c.authority;
            certificates = c.certificates;
            pinned = c.pinned;
            history = λ q. let (answer, e) = c.history q in (answer, kept q ∙ e);
          })
        ]
    where
      pinned : Identity
      pinned = record i { fingerprint = b.pin }

      input : Text → Input
      input = password_input i context b key

      ending : Text → List Event → List Event × Result Identity
      ending id =
          stop_if (not (same id i.device_id)) "core returned another device identity"
          >> return pinned

      sending : Text → List Event × Result Text
      sending q =
          request g w d.device last pinned (lit "POST") (lit "/api/v1/pairing/enroll") []
            (some (input q)) h

      kept : (q : Text) → (send_password g w d last context q i b key h).0 ≡ (sending q).0
      kept q = unfold send_password in ending_same (sending q) ending (λ id s. ground arith)

  with_key-Handed :
      (now later last : ℕ) (context : Text) (i : Identity) (b : Begin) (keys : Text × Text)
      (h : List Event)
      → valid_pin b.pin ≡ true
      → let r = λ (q : Text). (enroll_with_key g w d now later last context q i b keys h).0 in
        Same r ⊎ Handed last i context b keys.1 r
  unfolding enroll_with_key check_core
  with_key-Handed now later last context i b keys h v =
      behind_call Goal (λ k. inl (k, λ q. refl)) first
        (λ q. check_core g w d later last context q i b keys.1)
        (λ f e.
          behind_test Goal (λ k. inl (k, λ q. refl)) (refused f)
            "pairing code did not verify this core"
            (λ q. send_password g w d last context q i b keys.1) first.0
            (λ t. elim (send_password-LastCall last context i b keys.1 first.0 v) [
              | inl s ↦ inl s
              | inr c ↦ inr (record {
                prior = first.0;
                finished = f;
                earlier = h;
                received =
                    request-Received g w d.finish now i (lit "POST") finish_path [] input h f e;
                proved = proved_by f t;
                handed = c;
              })
            ]))
    where
      input : Option Input
      input = some (finish_input b.id keys.0 (proof g keys.1 (lit "app") context i.device_id))

      first : List Event × Result Finish
      first = request g w d.finish now i (lit "POST") finish_path [] input h

      Goal : (Text → List Event) → Type 0
      Goal r = Same r ⊎ Handed last i context b keys.1 r

      refused : Finish → Bool
      refused f =
          not (same f.id i.device_id)
          || not (same f.proof (proof g keys.1 (lit "core") context i.device_id))
          || not (ltb later f.expires)

      proved_by :
          (f : Finish)
          → refused f ≡ false
          → f.proof ≡ proof g keys.1 (lit "core") context i.device_id
      proved_by f t = ground arith

  abbrev Guarded :
      (last : ℕ) (i : Identity) (code name key randomness : Text) (r : Text → List Event) → Type 0
  Guarded last i code name key randomness r =
      Same r ⊎ PasswordSent last i code name key randomness r

  begun-Guarded :
      (now later last : ℕ) (code name randomness key : Text) (i : Identity) (b : Begin)
      (h : List Event)
      → Guarded last i code name key randomness
          (λ q. (enroll_begun g w d now later last code name q randomness key i b h).0)
  unfolding enroll_begun
  begun-Guarded now later last code name randomness key i b h =
      behind_test Goal (λ k. inl (k, λ q. refl)) refused "invalid pairing response" _ h
        (λ t.
          behind_value Goal (λ k. inl (k, λ q. refl))
            (pake_exchange g code context randomness b.message)
            (λ q keys. enroll_with_key g w d now later last context q i b keys) h
            (λ keys n. elim (with_key-Handed now later last context i b keys h (pinned_by t)) [
              | inl s ↦ inl s
              | inr s ↦ inr (record { begun = b; keys = keys; agreed = n; handed = s })
            ]))
    where
      context : Text
      context = enroll_context g b.id i.address name key b.pin

      Goal : (Text → List Event) → Type 0
      Goal r = Guarded last i code name key randomness r

      refused : Bool
      refused = not (same b.protocol protocol) || not (Hex.valid_id b.id) || not (valid_pin b.pin)

      pinned_by : refused ≡ false → valid_pin b.pin ≡ true
      pinned_by t = ground arith

  identity-Guarded :
      (begin now later last : ℕ) (code name randomness key : Text) (i : Identity) (h : List Event)
      → Guarded last i code name key randomness
          (λ q. (enroll_identity g w d begin now later last code name q randomness key i h).0)
  unfolding enroll_identity
  identity-Guarded begin now later last code name randomness key i h =
      behind_call (Guarded last i code name key randomness) (λ k. inl (k, λ q. refl))
        (request g w d.begin begin i (lit "POST") start_path []
          (some (start_input i.address name key)) h)
        (λ q b. enroll_begun g w d now later last code name q randomness key i b)
        (λ b e.
          begun-Guarded now later last code name randomness key i b
            (request g w d.begin begin i (lit "POST") start_path []
              (some (start_input i.address name key)) h).0)

  -- The history that Enroll leaves is the same whatever the password is; or it is the same but for one last call, whose
  -- input alone depends on the password, over a connection whose certificate has the pin that is part of the context
  -- of the exchange, right after the core has answered with the proof that the key agreed on from the pairing code
  -- gives for that context.
  pub client_enroll-Guarded :
      (drawn : Outcome Text) (begin now later last : ℕ)
      (randomness address code name username : Text) (h : List Event)
      → let r = λ (q : Text).
        (client_enroll g w d drawn begin now later last randomness address code name username q
          h).0 in
        Same r
        ⊎ ((a : Text) × (seed : Text) × (authority w address ≡ done a)
            × (drawn ≡ done seed)
            × PasswordSent last
                (new_identity g w a username seed)
                code
                name
                (w.ed25519_public seed)
                randomness
                r)
  unfolding client_enroll
  client_enroll-Guarded drawn begin now later last randomness address code name username h =
      behind_value Goal (λ k. inl (k, λ q. refl)) (authority w address) _ h
        (λ a p.
          behind_test Goal (λ k. inl (k, λ q. refl)) (not (valid_code code))
            "enter the eight-digit pairing code" _ h
            (λ t.
              behind_value Goal (λ k. inl (k, λ q. refl)) drawn
                (λ q seed.
                  enroll_identity g w d begin now later last code name q randomness
                    (w.ed25519_public seed) (new_identity g w a username seed))
                h
                (λ seed n.
                  elim (identity-Guarded begin now later last code name randomness
                    (w.ed25519_public seed) (new_identity g w a username seed) h) [
                      | inl s ↦ inl s
                      | inr s ↦ inr (a, seed, p, n, s)
                    ])))
    where
      Goal : (Text → List Event) → Type 0
      Goal r =
          Same r
          ⊎ ((a : Text) × (seed : Text) × (authority w address ≡ done a)
              × (drawn ≡ done seed)
              × PasswordSent last (new_identity g w a username seed) code name
                  (w.ed25519_public seed) randomness r)
