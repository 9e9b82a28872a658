-- ===== src/Windows/Supervisor/Ordered/Serving.antt =====
-- native/windows-vpn/main_windows.go: the calls and requests that reach the supervisor.
use easyprivacy.Windows.Supervisor.Ordered.{
  content, halted, last_removal, Ordered, Leaves, Halted, stop_tunnel-Leaves,
}
use easyprivacy.Windows.Supervisor.Ordered.Connecting.{Connected, connect-Leaves}
use easyprivacy.Windows.Services.{Event, remove_file, removes, in_directory}
use easyprivacy.Windows.{TunnelConfig}
use easyprivacy.Windows.Supervisor.{
  in_directories, same_sid, with_owner, connect_decoded, Setting, stop_tunnel, disconnect, handle,
  serve, execute, Adapter, PipeCall, asks_status, asks_connect, asks_disconnect, reports, respond,
  TunnelStatus, Incoming, interrogates, ends, other_command, server_ended, calls,
}
use easyprivacy.Vpn.Shell.{and_then-Ensures, Ensures-holds}
use easyprivacy.Node.Server.{decode_body}
use easyprivacy.Base.{
  lit, Error, ◌⊎◌, subst, Bool-cases, arith, Bool, Option-cases, Outcome, Option, Text, List, ◌∷◌,
  [], some, none, true, inr, inl, refl, ◌≡◌, failed, done,
}

respond-keeps : (a : Adapter) (r : List Event × Outcome (Unit {0})) → (respond a r).0 ≡ r.0
respond-keeps a (h, done u) = refl
respond-keeps a (h, failed e) = refl

respond-reports :
    (a : Adapter) (r : List Event × Outcome (Unit {0})) (st : TunnelStatus)
    → (respond a r).1 ≡ reports st
    → r.1 ≡ done tt
respond-reports a (h, done u) st p = refl
respond-reports a (h, failed e) st p = absurd (ground arith)

module _ (x : Setting) (directory : Text) where
  -- The tunnel is halted, and its file was removed last, unless that failed.
  abbrev pub Forgotten : Unit {0} → List Event → Type 0
  Forgotten u h =
      (halted h ≡ true)
      × (e : Option Error) × (last_removal h
          ≡ some (in_directory directory (lit "EasyPrivacy.conf"), e))
      × ((content h ≡ none) ⊎ ¬ (e ≡ none))

  forgotten :
      (e : Option Error) (h : List Event)
      → halted h ≡ true
      → Forgotten tt (removes (in_directory directory (lit "EasyPrivacy.conf")) e ∷ h)
  forgotten none h q = (q, none, refl, inl refl)
  forgotten (some e) h q = (q, some e, refl, inr (λ n. absurd (ground arith)))

  disconnect-Leaves :
      (h : List Event)
      → Ordered x directory h
      → Leaves x directory Forgotten (disconnect x directory h)
  unfolding remove_file
  disconnect-Leaves h o =
      let file = in_directory directory (lit "EasyPrivacy.conf") in
      and_then-Ensures (Ordered x directory) (Halted x directory) Forgotten (stop_tunnel x.host h) _
        (stop_tunnel-Leaves x directory h o)
        (λ u t p q. ((tt, p), forgotten (x.host.removal_error t file) t q))

  -- What a call promises where it is answered with a status.
  abbrev pub Promised : PipeCall → List Event → Type 0
  Promised asks_status h = Unit
  Promised (asks_connect body) h =
      (c : TunnelConfig) × (decode_body x.decoder 4096 body ≡ some c) × Connected x directory c h
  Promised asks_disconnect h = Forgotten tt h

  done-Leaves :
      (Q : Unit {0} → List Event → Type 0) (r : List Event × Outcome (Unit {0}))
      → Leaves x directory Q r
      → r.1 ≡ done tt
      → Q tt r.0
  done-Leaves Q (h, done u) l e = l.1
  done-Leaves Q (h, failed e) l p = absurd (ground arith)

  handle-Ordered :
      (a : Adapter) (call : PipeCall) (h : List Event)
      → Ordered x directory h
      → Ordered x directory (handle x directory a call h).0
  unfolding handle
  handle-Ordered a asks_status h o = o
  handle-Ordered a (asks_connect body) h o = elim (Option-cases (decode_body x.decoder 4096 body)) [
    | inl n ↦ rw n o
    | inr (c, p) ↦
        rw (p, respond-keeps)
          (Ensures-holds (Ordered x directory) (λ u t. Connected x directory c t) _
            (connect-Leaves x directory c h o))
  ]
  handle-Ordered a asks_disconnect h o =
      rw respond-keeps (Ensures-holds (Ordered x directory) Forgotten _ (disconnect-Leaves h o))

  connect_decoded-Promised :
      (a : Adapter) (config : Option TunnelConfig) (h : List Event) (st : TunnelStatus)
      → Ordered x directory h
      → (connect_decoded x directory a config h).1 ≡ reports st
      → (c : TunnelConfig) × (config ≡ some c)
        × Connected x directory c (connect_decoded x directory a config h).0
  connect_decoded-Promised a none h st o p = absurd (ground arith)
  connect_decoded-Promised a (some c) h st o p = (
    c,
    refl,
    rw respond-keeps (
        done-Leaves (λ u t. Connected x directory c t) _ (connect-Leaves x directory c h o)
          (respond-reports a _ st p)),
  )

  -- From a history in order, a call that is answered with a status keeps its promise: behind connect, Windows said
  -- last that the tunnel is running, and the file holds the text of the configuration that was decoded and passed
  -- every check; behind disconnect, the tunnel is halted and the file was removed last, unless its removal failed, which
  -- is no error of the call.
  pub handle-Promised :
      (a : Adapter) (call : PipeCall) (h : List Event) (st : TunnelStatus)
      → Ordered x directory h
      → (handle x directory a call h).1 ≡ reports st
      → Promised call (handle x directory a call h).0
  unfolding handle
  handle-Promised a asks_status h st o p = tt
  handle-Promised a (asks_connect body) h st o p =
      connect_decoded-Promised a (decode_body x.decoder 4096 body) h st o p
  handle-Promised a asks_disconnect h st o p =
      rw respond-keeps (done-Leaves Forgotten _ (disconnect-Leaves h o) (respond-reports a _ st p))

  serve-Ordered :
      (is : List Incoming) (h : List Event)
      → Ordered x directory h
      → Ordered x directory (serve x directory is h).0
  unfolding serve
  serve-Ordered [] h o = o
  serve-Ordered (interrogates ∷ is) h o = serve-Ordered is h o
  serve-Ordered (other_command ∷ is) h o = serve-Ordered is h o
  serve-Ordered (ends ∷ is) h o =
      Ensures-holds (Ordered x directory) (Halted x directory) _
        (stop_tunnel-Leaves x directory h o)
  serve-Ordered (server_ended ∷ is) h o = o
  serve-Ordered (calls a c ∷ is) h o = serve-Ordered is _ (handle-Ordered a c h o)

module _ (x : Setting) (canonical : Text → Option Text) (listens : Text → Bool) where
  with_owner-Ordered :
      (directory : Text) (owner : Option Text) (is : List Incoming)
      → Ordered x directory (with_owner x canonical listens directory owner is []).0
  with_owner-Ordered directory none is = tt
  with_owner-Ordered directory (some sid) is =
      let served = serve-Ordered x directory is [] tt in
      elim (Bool-cases (same_sid sid (canonical sid))) [
        | inr f ↦ rw f tt
        | inl y ↦ elim (Bool-cases (listens sid)) [
          | inr f ↦ rw (y, f) tt
          | inl z ↦ rw (y, z) served
        ]
      ]

  in_directories-Ordered :
      (owner : Option Text) (is : List Incoming) (o : Outcome (Text × Text)) (paths : Text × Text)
      → o ≡ done paths
      → Ordered x paths.1 (in_directories x owner canonical listens o is []).0
  in_directories-Ordered owner is (failed e) paths p = absurd (ground arith)
  in_directories-Ordered owner is (done q) paths p =
      let same_paths : q ≡ paths = ground arith in
      subst (λ r. Ordered x r.1 (with_owner x canonical listens q.1 owner is []).0) same_paths
        (with_owner-Ordered q.1 owner is)

  -- In every run of the supervisor, whatever calls reach it and whatever Windows answers: a file is written only
  -- where it is that of the tunnel, with the text of a configuration that passed every check, and while the
  -- tunnel is halted; and the tunnel is started only while it is halted and such a text was the last to be
  -- written.
  pub execute-Ordered :
      (owner : Option Text) (is : List Incoming) (paths : Text × Text)
      → x.directories ≡ done paths
      → Ordered x paths.1 (execute x owner canonical listens is []).0
  unfolding execute
  execute-Ordered owner is paths e = in_directories-Ordered owner is x.directories paths e
