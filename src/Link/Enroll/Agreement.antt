-- ===== src/Link/Enroll/Agreement.antt =====
-- core/internal/link/client.go with core/internal/node/pairing.go: the exchange of a node and its core.
use easyprivacy.Node.Pake
use easyprivacy.Platform.{Platform}
use easyprivacy.Node.Pairing.{
  purge_pairings, new_exchange, creator_active, max_attempts, StartInput, begin_exchange,
  pairing_mac, pairing_context, start_locked,
}
use easyprivacy.Link.Enroll.{pake_exchange, proof, enroll_context}
use easyprivacy.Node.Server.{
  Exchange, Enrollment, second, pairing_proof, PairingExchange, PakeState, Server, pairing_started,
  PairingCode, reply,
}
use easyprivacy.Base.{
  ◌∙◌, ◌*◌, lookup-insert, delete, same_refl, same, lit, lookup, [], List, insert, leb, ltb, not,
  arith, ◌||◌, false, suc, ◌==◌, ◌∷◌, ◌≤◌, done, every, length, ℕ, Text, some, true, refl, ◌≡◌, ◌<◌,
  ◌+◌,
}
use easyprivacy.Node.State.{fingerprint}
use easyprivacy.Node.Pake.{remove_state, max_states, is_digit, find_state}
use easyprivacy.Node.Enrollment.{new_enrollment, FinishInput, finish_locked}
use easyprivacy.Node.Devices.{device_id}

-- The node and the core compute the same contexts and proofs.
context-agrees :
    (g : Platform) (id target name key pin : Text)
    → enroll_context g id target name key pin ≡ pairing_context g id target name key pin
unfolding enroll_context pairing_context
context-agrees g id target name key pin = refl

proof-agrees :
    (g : Platform) (key role context device : Text)
    → proof g key role context device ≡ pairing_mac g key role context device
unfolding proof pairing_mac
proof-agrees g key role context device = refl

-- What the native library holds once an exchange is begun.
abbrev begun_state : (role : ℕ) (code context seed : Text) → PakeState
begun_state role code context seed = record {
  role = role;
  code = code;
  context = context;
  seed = seed;
}

pake-started :
    (g : Platform) (role : ℕ) (code context seed : Text) (states : List (ℕ × PakeState)) (k : ℕ)
    → role ≤ 1
    → length code ≡ 8
    → every is_digit code ≡ true
    → length states < max_states
    → length (g.spake_message role code context seed) ≡ 33
    → Pake.start g role code context seed (record { states = states; next = suc k }) ≡ (
      record { states = (suc k, begun_state role code context seed) ∷ states; next = suc k + 1 },
      done (record { handle = suc k; message = g.spake_message role code context seed }),
    )
unfolding Pake.start
pake-started g role code context seed states k low eight digits room sized =
    let fits : (not (length code == 8) || ltb 1 role) ≡ false = ground arith in
    let accepted : (ltb 1 role
          || not (every is_digit code)
          || leb max_states (length states)
          || not (length (g.spake_message role code context seed) == 33))
        ≡ false =
      ground arith in
    rw (fits, accepted) refl

module _ {V : Type 0} (g : Platform) where
  -- The core can begin an exchange: a code that is not used up, whose creator is authorized, and room for
  -- a state in the native table, whose handles are positive.
  pub record CanStart (now : ℕ) (c : PairingCode) (s : Server V) : Type 0 where
    pub code : s.code ≡ some c
    pub in_time : now < c.expires_at
    pub unused : c.attempts < max_attempts
    pub authorized : creator_active g c s ≡ true
    pub eight : length c.code ≡ 8
    pub digits : every is_digit c.code ≡ true
    pub states : List (ℕ × PakeState)
    pub last : ℕ
    pub native : (purge_pairings g now s).native ≡ record { states = states; next = suc last }
    pub room : length states < max_states

  abbrev context_of : (id : Text) → StartInput → Server V → Text
  context_of id i s = pairing_context g id i.target i.name i.public_key (fingerprint g s.state)

  -- What the core has after the first call.
  begun_server :
      (now k : ℕ) (states : List (ℕ × PakeState)) (id seed : Text) (i : StartInput)
      (c : PairingCode) (u : Server V)
      → Server V
  begun_server now k states id seed i c u =
      let context = pairing_context g id i.target i.name i.public_key (fingerprint g u.state) in
      let used : PairingCode = record c { attempts = c.attempts + 1 } in
      record u {
        code = some used;
        native = record {
          states = (suc k, begun_state 1 c.code context seed) ∷ states;
          next = suc k + 1;
        };
        pairings =
            insert id
              (new_exchange now context i c
                (record { handle = suc k; message = g.spake_message 1 c.code context seed }))
              u.pairings;
      }

  begin_exchange-begun :
      (now : ℕ) (id seed : Text) (i : StartInput) (c : PairingCode) (states : List (ℕ × PakeState))
      (k : ℕ) (u : Server V)
      → u.native ≡ record { states = states; next = suc k }
      → creator_active g c u ≡ true
      → length c.code ≡ 8
      → every is_digit c.code ≡ true
      → length states < max_states
      → length (g.spake_message 1 c.code (context_of id i u) seed) ≡ 33
      → begin_exchange g now id seed i c u ≡ (
        begun_server now k states id seed i c u,
        reply (
            pairing_started id
              (g.spake_message 1 c.code (context_of id i u) seed)
              (fingerprint g u.state)),
      )
  unfolding begin_exchange begun_server
  begin_exchange-begun now id seed i c states k u native creator eight digits room sized =
      let low : 1 ≤ 1 = omega arith in
      let begun : Pake.start g 1 c.code (context_of id i u) seed u.native ≡ (
        record {
          states = (suc k, begun_state 1 c.code (context_of id i u) seed) ∷ states;
          next = suc k + 1;
        },
        done (record {
          handle = suc k;
          message = g.spake_message 1 c.code (context_of id i u) seed;
        }),
      ) =
        rw native
          (pake-started g 1 c.code (context_of id i u) seed states k low eight digits room sized) in
      rw creator (ground (arith, begun))

  start_locked-begin :
      (now : ℕ) (id seed : Text) (i : StartInput) (c : PairingCode) (s : Server V)
      → CanStart now c s
      → start_locked g now id seed i s ≡ begin_exchange g now id seed i c (purge_pairings g now s)
  unfolding start_locked
  start_locked-begin now id seed i c s m =
      let code : (purge_pairings g now s).code ≡ some c = unfold purge_pairings in m.code in
      let live = m.in_time in let spare = m.unused in ground arith

  -- The last call of the exchange, where everything fits.
  finish_locked-accepted :
      (now k : ℕ) (f : FinishInput) (p : PairingExchange) (c : PairingCode) (q : PakeState)
      (key : Text) (t : Server V)
      → lookup f.id t.pairings ≡ some p
      → t.code ≡ some c
      → c.generation ≡ p.generation
      → now < c.expires_at
      → now < p.expires_at
      → creator_active g c t ≡ true
      → p.pake.handle ≡ suc k
      → find_state (suc k) t.native.states ≡ some q
      → length f.message ≡ 33
      → g.spake_finish q.role q.code q.context q.seed f.message ≡ some key
      → length key ≡ 32
      → length f.proof ≡ 32
      → f.proof ≡ pairing_mac g key (lit "app") p.context (device_id g p.public_key)
      → let (u, r) = finish_locked g now f t in
        (r
          ≡ reply (
              pairing_proof
                (device_id g p.public_key)
                (pairing_mac g key (lit "core") p.context (device_id g p.public_key))
                c.expires_at))
        × (lookup f.id u.enrollments ≡ some (new_enrollment g t.next_ref p c key))
  unfolding finish_locked
  finish_locked-accepted now k f p c q key t exchange code generation live fresh creator handle
        state sized agreed long short mac =
      let key_found : Pake.finish g p.pake f.message t.native
          ≡ (record t.native { states = remove_state (suc k) t.native.states }, done key) =
        unfold Pake.finish in ground arith in
      let same_generation : same c.generation p.generation ≡ true =
        rw generation (same_refl p.generation) in
      let same_proof : same f.proof
            (pairing_mac g key (lit "app") p.context (device_id g p.public_key))
          ≡ true =
        rw mac (same_refl _) in
      let still : creator_active g c (record t { pairings = delete f.id t.pairings }) ≡ true =
        unfold creator_active in creator in
      (
        ground (arith, still, key_found),
        ground (
          arith,
          still,
          key_found,
          lookup-insert f.id f.id (new_enrollment g t.next_ref p c key) t.enrollments,
        ),
      )

pake_exchange-done :
    (g : Platform) (code context seed peer key : Text)
    → length code ≡ 8
    → every is_digit code ≡ true
    → length (g.spake_message 0 code context seed) ≡ 33
    → length peer ≡ 33
    → g.spake_finish 0 code context seed peer ≡ some key
    → length key ≡ 32
    → pake_exchange g code context seed peer ≡ done (g.spake_message 0 code context seed, key)
unfolding pake_exchange Pake.finish find_state
pake_exchange-done g code context seed peer key eight digits sized long agreed short =
    rw (pake-started g 0 code context seed [] 0 (omega arith) eight digits (omega arith) sized)
      (ground (arith, agreed))

module _ {V : Type 0} (g : Platform) where
  -- Where the core can begin an exchange, the two SPAKE2 messages have 33 bytes and give both sides one key of
  -- 32 bytes, and a proof has 32 bytes, the core answers the first call; the node agrees on the key from the
  -- answer; and, in time, the core accepts the node's proof of it, answers with the proof that the node expects,
  -- and keeps the hash of the proof with which the node is to enroll.
  pub pairing-accepted :
      (now later : ℕ) (id seed randomness key : Text) (i : StartInput) (c : PairingCode)
      (s : Server V)
      → CanStart g now c s
      → later < c.expires_at
      → later < now + 30 * second
      → let context = enroll_context g id i.target i.name i.public_key (fingerprint g s.state) in
        let device = device_id g i.public_key in
        let theirs = g.spake_message 1 c.code context seed in
        let mine = g.spake_message 0 c.code context randomness in
        length theirs ≡ 33
        → length mine ≡ 33
        → g.spake_finish 0 c.code context randomness theirs ≡ some key
        → g.spake_finish 1 c.code context seed mine ≡ some key
        → length key ≡ 32
        → length (proof g key (lit "app") context device) ≡ 32
        → let (t, begun) = start_locked g now id seed i s in
          let (u, finished) =
            finish_locked g later
              (record { id = id; message = mine; proof = proof g key (lit "app") context device })
              t in
          (begun ≡ reply (pairing_started id theirs (fingerprint g s.state)))
          × (pake_exchange g c.code context randomness theirs ≡ done (mine, key))
          × (finished
              ≡ reply (pairing_proof device (proof g key (lit "core") context device) c.expires_at))
          × ((p : Enrollment) × (lookup id u.enrollments ≡ some p)
              × (p.proof_hash ≡ g.sha256 (proof g key (lit "enroll") context device)))
  unfolding pairing_context enroll_context purge_pairings proof pairing_mac
  pairing-accepted now later id seed randomness key i c s m live fresh theirs mine ours agreed short
        sized =
      let u = purge_pairings g now s in
      let creator : creator_active g c u ≡ true = unfold creator_active in m.authorized in
      let context = context_of g id i s in
      let x : Exchange = record {
        handle = suc m.last;
        message = g.spake_message 1 c.code context seed;
      } in
      let p = new_exchange now context i c x in
      let used : PairingCode = record c { attempts = c.attempts + 1 } in
      let t = begun_server g now m.last m.states id seed i c u in
      let device = device_id g i.public_key in
      let f : FinishInput = record {
        id = id;
        message = g.spake_message 0 c.code context randomness;
        proof = pairing_mac g key (lit "app") context device;
      } in
      let began =
        start_locked-begin g now id seed i c s m
        ∙ begin_exchange-begun g now id seed i c m.states m.last u m.native creator m.eight m.digits
            m.room theirs in
      let stored : lookup id t.pairings ≡ some p =
        unfold begun_server in ground (arith, lookup-insert id id p u.pairings) in
      let creator2 : creator_active g used t ≡ true =
        unfold begun_server creator_active in m.authorized in
      let early : later < p.expires_at = unfold new_exchange in ground arith in
      let finished =
        finish_locked-accepted g later m.last f p used (begun_state 1 c.code context seed) key t
          stored (unfold begun_server in refl) (unfold new_exchange in refl) live early creator2
          (unfold new_exchange in refl) (unfold begun_server find_state in ground arith) mine agreed
          short sized (unfold new_exchange in refl) in
      rw began (
        refl,
        pake_exchange-done g c.code context randomness (g.spake_message 1 c.code context seed) key
            m.eight m.digits mine theirs ours short,
        unfold new_exchange in finished.0,
        (
          new_enrollment g t.next_ref p used key,
          finished.1,
          unfold new_enrollment new_exchange in refl,
        ),
      )
