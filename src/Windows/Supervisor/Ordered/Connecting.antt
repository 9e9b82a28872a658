-- ===== src/Windows/Supervisor/Ordered/Connecting.antt =====
-- native/windows-vpn/main_windows.go: connect.
use easyprivacy.Windows.Supervisor.Ordered.{
  says_running, content, halted, heard_running, Ordered, Checked, Leaves, Halted,
  connect_manager-Leaves, stop_tunnel-Leaves,
}
use easyprivacy.Windows.Services.{
  begun, already_running, not_begun, start_service, Starting, create_service, write_private,
  in_directory, is_running, Opening, tunnel, opens, waits, Event, is_stopped, missing, opened,
  refused, open_service, query, connect_manager, wait,
}
use easyprivacy.Windows.{TunnelConfig, config_text}
use easyprivacy.Windows.Supervisor.{
  launch, connect, started, await_start, or_create, Setting, stop_tunnel,
}
use easyprivacy.Vpn.Shell.{of_outcome, ◌>>=◌, weaken-Ensures, and_then-Ensures}
use easyprivacy.Base.{
  lit, ap, Option-cases, Bool-cases, Outcome-cases, inl, ◌∙◌, ℕ, Text, List, Outcome, inr, refl,
  suc, zero, ◌∷◌, [], some, true, ◌≡◌, failed, done,
}

module _ (x : Setting) (directory : Text) where
  -- The file holds the text, and the tunnel is halted.
  abbrev Prepared : Text → List Event → Type 0
  Prepared text h = (halted h ≡ true) × (content h ≡ some text)

  write_private-Leaves :
      (text : Text) (h : List Event)
      → Ordered x directory h
      → halted h ≡ true
      → Checked x directory text
      → Leaves x directory
          (λ u t. Prepared text t)
          (write_private x.host (in_directory directory (lit "EasyPrivacy.conf")) text h)
  unfolding write_private
  write_private-Leaves text h o q k =
      let file = in_directory directory (lit "EasyPrivacy.conf") in
      elim (Bool-cases (x.host.is_unsafe h file)) [
        | inl y ↦ rw y (o, tt)
        | inr f ↦ elim (Option-cases (x.host.write_error h file text)) [
          | inl n ↦ rw (f, n) (((refl, q, k), o), (q, refl))
          | inr (e, p) ↦ rw (f, p) (((refl, q, k), o), tt)
        ]
      ]

  opened-Prepared :
      (a : Opening) (text : Text) (h : List Event)
      → Prepared text h
      → Prepared text (opens tunnel a ∷ h)
  opened-Prepared missing text h p = (refl, p.1)
  opened-Prepared opened text h p = p
  opened-Prepared (refused e) text h p = p

  created-Leaves :
      (program file text : Text) (h : List Event)
      → Ordered x directory h
      → Prepared text h
      → Leaves x directory
          (λ u t. Prepared text t)
          (create_service x.host tunnel program (lit "--tunnel" ∷ file ∷ []) h)
  unfolding create_service
  created-Leaves program file text h o p =
      elim (Option-cases (x.host.creation_error h tunnel program (lit "--tunnel" ∷ file ∷ []))) [
        | inl n ↦ rw n ((tt, o), p)
        | inr (e, f) ↦ rw f ((tt, o), tt)
      ]

  or_create-Leaves :
      (program file text : Text) (a : Opening) (h : List Event)
      → Ordered x directory h
      → Prepared text h
      → Leaves x directory (λ u t. Prepared text t) (or_create x.host program file a h)
  or_create-Leaves program file text opened h o p = (o, p)
  or_create-Leaves program file text missing h o p = created-Leaves program file text h o p
  or_create-Leaves program file text (refused e) h o p = created-Leaves program file text h o p

  -- The tunnel runs, from the file.
  abbrev Runs : Text → List Event → Type 0
  Runs text h = (heard_running h ≡ true) × (content h ≡ some text)

  query-Runs :
      (text : Text) (h : List Event)
      → Ordered x directory h
      → content h ≡ some text
      → Leaves x directory
          (λ u t. (heard_running t ≡ is_running u) × (content t ≡ some text))
          (query x.host tunnel h)
  unfolding query
  query-Runs text h o c = elim (Outcome-cases (x.host.state_of h tunnel)) [
    | inl (u, p) ↦ rw p ((tt, o), (ap says_running p, c))
    | inr (e, p) ↦ rw p ((tt, o), tt)
  ]

  await_start-Leaves :
      (n : ℕ) (text : Text) (h : List Event)
      → Ordered x directory h
      → content h ≡ some text
      → Leaves x directory (λ u t. Runs text t) (await_start x.host n h)
  unfolding await_start wait
  await_start-Leaves zero text h o c = (o, tt)
  await_start-Leaves (suc n) text h o c =
      and_then-Ensures (Ordered x directory)
        (λ u t. (heard_running t ≡ is_running u) × (content t ≡ some text)) (λ u t. Runs text t)
        (query x.host tunnel h) _ (query-Runs text h o c)
        (λ u t p q. elim (Bool-cases (is_running u)) [
          | inl y ↦ rw y (p, (q.0 ∙ y, q.1))
          | inr f ↦ elim (Bool-cases (is_stopped u)) [
            | inl y ↦ rw (f, y) (p, tt)
            | inr g ↦ rw (f, g) (await_start-Leaves n text (waits ∷ t) (tt, p) q.1)
          ]
        ])

  started-Leaves :
      (a : Starting) (text : Text) (h : List Event)
      → Ordered x directory h
      → content h ≡ some text
      → Leaves x directory (λ u t. Runs text t) (started x.host a h)
  started-Leaves begun text h o c = await_start-Leaves 100 text h o c
  started-Leaves already_running text h o c = (o, tt)
  started-Leaves (not_begun e) text h o c = (o, tt)

  started_service-Leaves :
      (text : Text) (h : List Event)
      → Ordered x directory h
      → Prepared text h
      → Checked x directory text
      → Leaves x directory (λ u t. Runs text t) ((start_service x.host tunnel >>= started x.host) h)
  unfolding start_service
  started_service-Leaves text h o p k =
      started-Leaves (x.host.starting h tunnel) text _ ((p.0, (text, p.1, k)), o) p.1

  abbrev file : Text
  file = in_directory directory (lit "EasyPrivacy.conf")

  launch-Leaves :
      (program text : Text) (h : List Event)
      → Ordered x directory h
      → Prepared text h
      → Checked x directory text
      → Leaves x directory (λ u t. Runs text t) (launch x program file h)
  unfolding open_service
  launch-Leaves program text h o p k =
      and_then-Ensures (Ordered x directory) (λ u t. Prepared text t) (λ u t. Runs text t)
        (connect_manager x.host h) _
        (connect_manager-Leaves x directory (Prepared text) h o (λ e. p))
        (λ u t q r.
          let a = x.host.opening t tunnel in
          and_then-Ensures (Ordered x directory) (λ v b. Prepared text b) (λ v b. Runs text b)
            (or_create x.host program file a (opens tunnel a ∷ t)) _
            (or_create-Leaves program file text a _ (tt, q) (opened-Prepared a text t r))
            (λ v b y z. started_service-Leaves text b y z k))

  of_outcome-Leaves :
      {A : Type 0} (o : Outcome A) (P : List Event → Type 0) (h : List Event)
      → Ordered x directory h
      → P h
      → Leaves x directory (λ a t. (o ≡ done a) × P t) (of_outcome o h)
  of_outcome-Leaves (failed e) P h o p = (o, tt)
  of_outcome-Leaves (done a) P h o p = (o, (refl, p))

  -- The tunnel runs from the text of the configuration.
  abbrev pub Connected : TunnelConfig → List Event → Type 0
  Connected c h =
      (text : Text) × (config_text x.platform x.lookup_port x.private_v6 c ≡ done text)
      × (heard_running h ≡ true)
      × (content h ≡ some text)

  pub connect-Leaves :
      (c : TunnelConfig) (h : List Event)
      → Ordered x directory h
      → Leaves x directory (λ u t. Connected c t) (connect x directory c h)
  unfolding connect
  connect-Leaves c h o =
      and_then-Ensures (Ordered x directory)
        (λ text t. (config_text x.platform x.lookup_port x.private_v6 c ≡ done text) × Unit {0})
        (λ u t. Connected c t) _ _
        (of_outcome-Leaves (config_text x.platform x.lookup_port x.private_v6 c) (λ t. Unit {0}) h o
          tt)
        (λ text t q r.
          and_then-Ensures (Ordered x directory) (Halted x directory) (λ u b. Connected c b)
            (stop_tunnel x.host t) _ (stop_tunnel-Leaves x directory t q)
            (λ u b y z.
              let k : Checked x directory text = record { config = c; printed = r.0 } in
              and_then-Ensures (Ordered x directory) (λ v d. Prepared text d) (λ v d. Connected c d)
                (write_private x.host file text b) _ (write_private-Leaves text b y z k)
                (λ v d m n.
                  and_then-Ensures (Ordered x directory)
                    (λ paths e. (x.directories ≡ done paths) × Prepared text e)
                    (λ v e. Connected c e) _ _
                    (of_outcome-Leaves x.directories (Prepared text) d m n)
                    (λ paths e i j.
                      weaken-Ensures (Ordered x directory) (λ v t. Runs text t)
                        (λ v t. Connected c t) _
                        (launch-Leaves (in_directory paths.0 (lit "easyprivacy-vpn.exe")) text e i
                          j.1 k)
                        (λ v t runs. (text, r.0, runs.0, runs.1))))))
