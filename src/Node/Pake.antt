-- ===== src/Node/Pake.antt =====
-- core/internal/pake/native.go, over the table of native/pairing/src/lib.rs. The SPAKE2 group
-- operations are the platform's.
use easyprivacy.Platform.{Platform}
use easyprivacy.Node.Server.{Exchange, Native, PakeState}
use easyprivacy.Base.{
  every, length, not, leb, Outcome, ltb, List, Bool, Option, Text, ℕ, ◌∷◌, [], some, none, ◌||◌,
  ◌&&◌, ◌+◌, suc, zero, if◌then◌else◌, ◌==◌, failed, done,
}

abbrev pub max_states : ℕ
max_states = 256

abbrev pub is_digit : ℕ → Bool
is_digit c = leb 48 c && leb c 57

-- states.get(&handle)
unfoldable pub find_state : ℕ → List (ℕ × PakeState) → Option PakeState
find_state h [] = none
find_state h ((i, p) ∷ ps) = if i == h then some p else find_state h ps

-- states.remove(&handle)
unfoldable pub remove_state : ℕ → List (ℕ × PakeState) → List (ℕ × PakeState)
remove_state h [] = []
remove_state h ((i, p) ∷ ps) =
    let rest = remove_state h ps in if i == h then rest else (i, p) ∷ rest

abbrev pake_state : ℕ → Text → Text → Text → PakeState
pake_state role code context seed = record {
  role = role;
  code = code;
  context = context;
  seed = seed;
}

module _ (g : Platform) where
  abbrev outbound : PakeState → Text
  outbound p = g.spake_message p.role p.code p.context p.seed

  -- ep_pake_start: the handle, 0 where it fails, and the message.
  abbrev native_start : PakeState → Native → Native × ℕ × Text
  native_start p n =
      if ltb 1 p.role
        || not (every is_digit p.code)
        || leb max_states (length n.states)
        || not (length (outbound p) == 33)
      then (n, 0, [])
      else (record { states = (n.next, p) ∷ n.states; next = n.next + 1 }, n.next, outbound p)

  abbrev started : Native × ℕ × Text → Native × Outcome Exchange
  started (n, zero, m) = (n, failed "could not start pairing")
  started (n, suc h, m) = (n, done (record { handle = suc h; message = m }))

  -- Start; `seed` is the randomness that the native library draws.
  unfoldable pub start : (role : ℕ) (code context seed : Text) → Native → Native × Outcome Exchange
  start role code context seed n =
      if not (length code == 8) || ltb 1 role
      then (n, failed "invalid pairing parameters")
      else started (native_start (pake_state role code context seed) n)

  abbrev finished : Option Text → Outcome Text
  finished none = failed "pairing failed"
  finished (some key) = if length key == 32 then done key else failed "pairing failed"

  abbrev native_finish : Text → Option PakeState → Option Text
  native_finish peer none = none
  native_finish peer (some p) = g.spake_finish p.role p.code p.context p.seed peer

  -- Close: frees the handle once.
  unfoldable pub close : Exchange → Native → Native
  close e n = if e.handle == 0 then n else record n { states = remove_state e.handle n.states }

  -- Finish: the state is consumed, also where it fails, and the exchange is closed by it.
  unfoldable pub finish : Exchange → Text → Native → Native × Outcome Text
  unfolding close
  finish e peer n =
      if not (length peer == 33) || e.handle == 0
      then (close e n, failed "invalid pairing message")
      else (
        record n { states = remove_state e.handle n.states },
        finished (native_finish peer (find_state e.handle n.states)),
      )
