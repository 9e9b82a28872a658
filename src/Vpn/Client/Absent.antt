-- ===== src/Vpn/Client/Absent.antt =====
-- core/internal/vpn/client.go and core/internal/node/device_auth.go: what a revocation needs of the
-- exit.
use easyprivacy.Hex.{valid_id}
use easyprivacy.Platform.{Platform}
use easyprivacy.Node.Server.{Server}
use easyprivacy.Node.Devices.{revoke}
use easyprivacy.Node.DeviceAuth.{removal_result, revoke_locked, forget_device}
use easyprivacy.Node.Pairing.{clear_pairings}
use easyprivacy.Vpn.Client.{
  read_body, Client, Socket, Asked, Answer, request, no_output, peer_path, read_answer, error_in,
  unless_absent, client_remove, socket_control,
}
use easyprivacy.Base.{
  ap, same, sym, ltb, Bool-cases, Error, subst, ℕ, ◌∙◌, refl, ◌⊎◌, ◌↔◌, ◌==◌, Option-cases, arith,
  is_empty, lit, length, List, Option, Text, ◌++◌, some, none, false, true, inr, inl, ◌≡◌, ◌≤◌,
}

module _ (w : Socket) (c : Client) (id : Text) (h : List Asked) where
  -- The exit answered the removal of the device.
  pub record Confirmed : Type 0 where
    pub raw : Text
    pub is_url : w.url_error (lit "http://local" ++ peer_path id) ≡ none
    pub answered :
        w.answers h c.socket_path (lit "DELETE") (peer_path id) none
        ≡ some (record { status = 200; body = some raw })
    pub short : length raw ≤ 16384

  -- There is a marker of the exit's setup to look for, and it is not there.
  pub record NeverSetUp : Type 0 where
    pub configured : is_empty c.config_marker ≡ false
    pub missing :
        w.is_missing (request w c no_output (lit "DELETE") (peer_path id) none h).0 c.config_marker
        ≡ true

read_body_sound :
    (w : Socket) (status : ℕ) (raw : Text)
    → error_in (read_body w no_output status (some raw)) ≡ none
    → (status ≡ 200) × (length raw ≤ 16384)
read_body_sound w status raw e = elim (Bool-cases (ltb 16384 (length raw))) [
  | inl t ↦ absurd (ground (arith, e, t))
  | inr f ↦ elim (Bool-cases (status == 200)) [
    | inl t ↦ ground arith
    | inr g ↦ absurd (ground (arith, e, f, g))
  ]
]

read_answer_sound :
    (w : Socket) (a : Option Answer)
    → error_in (read_answer w no_output a) ≡ none
    → (raw : Text) × (a ≡ some (record { status = 200; body = some raw })) × (length raw ≤ 16384)
read_answer_sound w none e = absurd (ground (arith, e))
read_answer_sound w (some a) e = elim (Option-cases a.body) [
  | inl n ↦ absurd (ground (arith, e, n))
  | inr (raw, p) ↦
      let (q, l) =
        read_body_sound w a.status raw
          (subst (λ b. error_in (read_body w no_output a.status b) ≡ none) p e) in
      (raw, λ i. some (record { status = q i; body = p i }), l)
]

read_answer-done :
    (w : Socket) (raw : Text)
    → length raw ≤ 16384
    → error_in (read_answer w no_output (some (record { status = 200; body = some raw }))) ≡ none
read_answer-done w raw l = ground arith

unless_absent_sound :
    (w : Socket) (c : Client) (r : List Asked × Option Error)
    → (unless_absent w c r).1 ≡ none
    → (r.1 ≡ none)
      ⊎ ((is_empty c.config_marker ≡ false) × (w.is_missing r.0 c.config_marker ≡ true))
unless_absent_sound w c (t, none) e = inl refl
unless_absent_sound w c (t, some x) e = elim (Bool-cases (is_empty c.config_marker)) [
  | inl y ↦ absurd (ground (arith, e, y))
  | inr n ↦ elim (Bool-cases (w.is_missing t c.config_marker)) [
    | inl m ↦ inr (n, m)
    | inr m ↦ absurd (ground (arith, e, n, m))
  ]
]

unless_absent-done :
    (w : Socket) (c : Client) (r : List Asked × Option Error)
    → (r.1 ≡ none)
      ⊎ ((is_empty c.config_marker ≡ false) × (w.is_missing r.0 c.config_marker ≡ true))
    → (unless_absent w c r).1 ≡ none
unless_absent-done w c (t, none) a = refl
unless_absent-done w c (t, some x) (inl e) = absurd (ground (arith, e))
unless_absent-done w c (t, some x) (inr (n, m)) = rw (n, m) refl

module _ (w : Socket) (c : Client) (id : Text) (h : List Asked) where
  abbrev removal : List Asked × Option Error
  removal =
      let (t, o) = request w c no_output (lit "DELETE") (peer_path id) none h in (t, error_in o)

  removal_sound : removal.1 ≡ none → Confirmed w c id h
  unfolding request
  removal_sound e = elim (Option-cases (w.url_error (lit "http://local" ++ peer_path id))) [
    | inr (x, p) ↦ absurd (ground (arith, e, p))
    | inl p ↦
        let sent : removal.1
            ≡ error_in (
                read_answer w no_output
                  (w.answers h c.socket_path (lit "DELETE") (peer_path id) none)) =
          rw p refl in
        let (raw, q, l) = read_answer_sound w _ (sym sent ∙ e) in
        record { raw = raw; is_url = p; answered = q; short = l }
  ]

  removal-done : Confirmed w c id h → removal.1 ≡ none
  unfolding request
  removal-done f = rw (f.is_url, f.answered) (read_answer-done w f.raw f.short)

  -- Remove gives no error exactly where the device's identity is well formed, and the exit confirmed the
  -- removal or was never set up.
  client_remove_iff :
      ((client_remove w c id h).1 ≡ none)
      ↔ ((valid_id id ≡ true) × (Confirmed w c id h ⊎ NeverSetUp w c id h))
  unfolding client_remove
  client_remove_iff = elim (Bool-cases (valid_id id)) [
    | inr f ↦ (λ e. absurd (ground (arith, e, f)), λ v. absurd (ground (arith, v.0, f)))
    | inl t ↦ (
      λ e.
          let r : (unless_absent w c removal).1 ≡ none = ground arith in
          (
            t,
            elim (unless_absent_sound w c removal r) [
              | inl s ↦ inl (removal_sound s)
              | inr (n, m) ↦ inr (record { configured = n; missing = m })
            ],
          ),
      λ v. rw t (
          unless_absent-done w c removal
            (elim v.1 [ inl f ↦ inl (removal-done f) | inr n ↦ inr (n.configured, n.missing) ])),
    )
  ]

removal_result-none : (e : Option Error) → removal_result e ≡ none → e ≡ none
removal_result-none none p = refl
removal_result-none (some x) p = absurd (ground (arith, p))

module _ (w : Socket) (c : Client) (g : Platform) where
  forget_device-vpn : (id : Text) (s : Server (List Asked)) → (forget_device g id s).vpn ≡ s.vpn
  unfolding forget_device clear_pairings
  forget_device-vpn id s = elim (Option-cases s.code) [
    | inl n ↦ ground arith
    | inr (x, p) ↦ elim (Bool-cases (same x.creator id)) [
      | inl y ↦ ground arith
      | inr n ↦ ground arith
    ]
  ]

  forgotten-vpn :
      (fault : Option Error) (id : Text) (h : List Asked) (s : Server (List Asked))
      → s.vpn ≡ some h
      → (forget_device g id (record s { devices = (revoke fault id s.devices).0 })).vpn ≡ some h
  forgotten-vpn fault id h s v = forget_device-vpn id _ ∙ v

  -- Once the record is written, the error is that of the client.
  revoke_locked-removal :
      (fault : Option Error) (id : Text) (h : List Asked) (s : Server (List Asked))
      → s.vpn ≡ some h
      → (revoke fault id s.devices).1 ≡ none
      → (revoke_locked g (socket_control w c) fault id s).1
        ≡ removal_result (client_remove w c id h).1
  unfolding revoke_locked socket_control
  revoke_locked-removal fault id h s v p = rw (p, forgotten-vpn fault id h s v) refl

  -- With the client of a control socket as its exit, the revocation of a device gives no error exactly
  -- where its record could be written, its identity is well formed, and either the exit confirmed with
  -- status 200 that the device is removed, or the marker of the exit's setup is absent.
  pub revoke_locked-confirmed :
      (fault : Option Error) (id : Text) (h : List Asked) (s : Server (List Asked))
      → s.vpn ≡ some h
      → ((revoke_locked g (socket_control w c) fault id s).1 ≡ none) ↔ (
          ((revoke fault id s.devices).1 ≡ none)
          × (valid_id id ≡ true)
          × (Confirmed w c id h ⊎ NeverSetUp w c id h))
  unfolding revoke_locked socket_control
  revoke_locked-confirmed fault id h s v = elim (Option-cases (revoke fault id s.devices).1) [
    | inr (x, p) ↦ (λ e. absurd (ground (arith, e, p)), λ r. absurd (ground (arith, r.0, p)))
    | inl p ↦
        let same_error = revoke_locked-removal fault id h s v p in
        let removed = client_remove_iff w c id h in
        (
          λ e.
              let (valid, r) = removed.0 (removal_result-none _ (sym same_error ∙ e)) in
              (p, valid, r),
          λ r. same_error ∙ ap removal_result (removed.1 (r.1, r.2)),
        )
  ]
