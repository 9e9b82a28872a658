-- ===== src/Node/Enrollment.antt =====
-- core/internal/node/pairing.go: the end of an exchange, which verifies the core to the device, and
-- the enrollment of the device with the account's password.
pub mod Budget
pub mod Access
use easyprivacy.Platform.{Platform, Decoder}
use easyprivacy.Node.Devices.{DeviceStore, Device, add, device_id}
use easyprivacy.Node.Pairing.{pairing_mac, creator_active, clear_pairings, max_attempts}
use easyprivacy.Node.Pake
use easyprivacy.Node.Server.{
  pairing_proof, enrolled, before, allow_login, read_request, Request, Reply, PairingCode, Server,
  PairingExchange, Enrollment, refuse, reply,
}
use easyprivacy.Base.{
  insert, lit, leb, length, ltb, same, lookup, delete, not, Outcome, Error, Bool, Option, ℕ, Text,
  some, none, ◌||◌, ◌&&◌, false, true, inr, inl, ◌⊎◌, ◌+◌, if◌then◌else◌, ◌==◌, failed, done,
}
use easyprivacy.Node.Sessions.{release_slot, password_slots, password_matches, Credentials}

-- The input of pairingFinish.
pub record FinishInput : Type 0 where
  pub id : Text
  pub message : Text
  pub proof : Text

-- The input of pairingEnroll.
pub record EnrollInput : Type 0 where
  pub id : Text
  pub proof : Text
  pub credentials : Credentials

-- What pairingEnroll holds while it works on the password.
pub record Ticket : Type 0 where
  pub input : EnrollInput
  pub pending : Enrollment

abbrev proof_accepted : Platform → EnrollInput → Enrollment → Bool
proof_accepted g i p =
    not (leb max_attempts p.attempts)
    && length i.proof == 32
    && same (g.sha256 i.proof) p.proof_hash

-- s.enrollments[input.ID] == p
abbrev still_pending : Enrollment → Option Enrollment → Bool
still_pending p none = false
still_pending p (some q) = q.ref == p.ref

-- The enrollment that pairingFinish opens. Of its proof only the hash is kept.
unfoldable pub new_enrollment :
    Platform → (ref : ℕ) → PairingExchange → PairingCode → (key : Text) → Enrollment
new_enrollment g ref p c key = record {
  ref = ref;
  public_key = p.public_key;
  name = p.name;
  generation = p.generation;
  expires_at = c.expires_at;
  proof_hash = g.sha256 (pairing_mac g key (lit "enroll") p.context (device_id g p.public_key));
  attempts = 0;
}

module _ {V : Type 0} (g : Platform) where
  -- The end of pairingFinish: the proof of the app, and the enrollment that it opens.
  abbrev prove_exchange :
      FinishInput → PairingExchange → PairingCode → Outcome Text → Server V → Server V × Reply
  prove_exchange i p c (failed e) s = (s, refuse 401 "Pairing failed. Check the code.")
  prove_exchange i p c (done key) s =
      let id = device_id g p.public_key in
      if not (length i.proof == 32)
        || not (same i.proof (pairing_mac g key (lit "app") p.context id))
      then (s, refuse 401 "Pairing failed. Check the code.")
      else (
        record s {
          enrollments = insert i.id (new_enrollment g s.next_ref p c key) s.enrollments;
          next_ref = s.next_ref + 1;
        },
        reply (pairing_proof id (pairing_mac g key (lit "core") p.context id) c.expires_at),
      )

  -- The exchange is closed on every way out; Pake.finish has closed it already.
  abbrev close_exchange : PairingExchange → Server V → Server V
  close_exchange p s = record s { native = Pake.close g p.pake s.native }

  abbrev finish_exchange :
      (now : ℕ) → FinishInput → PairingExchange → Option PairingCode → Server V → Server V × Reply
  finish_exchange now i p none s =
      (close_exchange p s, refuse 401 "Pairing code or exchange expired.")
  finish_exchange now i p (some c) s =
      if not (same c.generation p.generation)
        || not (before now c.expires_at)
        || not (before now p.expires_at)
      then (close_exchange p s, refuse 401 "Pairing code or exchange expired.")
      else if not (creator_active g c s)
      then (close_exchange p s, refuse 401 "Pairing authorization was revoked.")
      else let (n, key) = Pake.finish g p.pake i.message s.native in
        prove_exchange i p c key (record s { native = n })

  abbrev take_exchange :
      (now : ℕ) → FinishInput → Option PairingExchange → Server V → Server V × Reply
  take_exchange now i none s = (s, refuse 401 "Pairing failed. Create a new code and try again.")
  take_exchange now i (some p) s =
      finish_exchange now i p s.code (record s { pairings = delete i.id s.pairings })

  -- pairingFinish under the lock
  unfoldable pub finish_locked : (now : ℕ) → FinishInput → Server V → Server V × Reply
  finish_locked now i s = take_exchange now i (lookup i.id s.pairings) s

  abbrev finish_checked : (now : ℕ) → FinishInput ⊎ Reply → Server V → Server V × Reply
  finish_checked now (inr r) s = (s, r)
  finish_checked now (inl i) s = finish_locked now i s

  -- pairingFinish
  unfoldable pub pairing_finish :
      Decoder FinishInput → (now : ℕ) → Request → Server V → Server V × Reply
  pairing_finish d now r s = finish_checked now (read_request g d r) s

  -- enrollmentValidLocked, where both pointers are set
  abbrev valid_under : (now : ℕ) → Enrollment → PairingCode → Server V → Bool
  valid_under now p c s =
      same p.generation c.generation
      && before now p.expires_at
      && before now c.expires_at
      && creator_active g c s

  -- enrollmentValidLocked
  unfoldable pub enrollment_valid : (now : ℕ) → Option Enrollment → Server V → Bool
  enrollment_valid now none s = false
  enrollment_valid now (some p) s = elim s.code [ none ↦ false | some c ↦ valid_under now p c s ]

  abbrev accepted_pending :
      (now : ℕ) → EnrollInput → Option Enrollment → Server V → Option Enrollment
  accepted_pending now i none s = none
  accepted_pending now i (some p) s =
      if enrollment_valid now (some p) s && proof_accepted g i p then some p else none

  abbrev reserve : EnrollInput → Option Enrollment → Server V → Server V × (Ticket ⊎ Reply)
  reserve i none s = (
    s,
    inr (refuse 410 "Core verification expired or is invalid. Verify the core with a new code."),
  )
  reserve i (some p) s =
      let q = record p { attempts = p.attempts + 1 } in
      if ltb s.busy_slots password_slots
      then (
        record s { busy_slots = s.busy_slots + 1; enrollments = insert i.id q s.enrollments },
        inl (record { input = i; pending = q }),
      )
      else (s, inr (refuse 429 "Sign-in is busy. Try again shortly."))

  -- pairingEnroll, its first critical section: an attempt and a password slot are reserved.
  unfoldable pub enroll_locked : (now : ℕ) → EnrollInput → Server V → Server V × (Ticket ⊎ Reply)
  enroll_locked now i s = reserve i (accepted_pending now i (lookup i.id s.enrollments) s) s

  abbrev enroll_checked : (now : ℕ) → EnrollInput ⊎ Reply → Server V → Server V × (Ticket ⊎ Reply)
  enroll_checked now (inr r) s = (s, inr r)
  enroll_checked now (inl i) s =
      if ltb 64 (length i.credentials.username) || ltb 1024 (length i.credentials.password)
      then (s, inr (refuse 400 "Invalid sign-in request."))
      else enroll_locked now i s

  -- pairingEnroll up to the password work.
  unfoldable pub enroll_begin :
      Decoder EnrollInput → (now later : ℕ) → Request → Server V → Server V × (Ticket ⊎ Reply)
  enroll_begin d now later r s =
      let (t, allowed) = allow_login g now r.remote s in
      if allowed
      then enroll_checked later (read_request g d r) t
      else (t, inr (refuse 429 "Too many sign-in attempts. Try again shortly."))

  abbrev pub committed : Server V → DeviceStore × Outcome Device → Server V × Reply
  committed s (store, failed e) = (
    record s { devices = store },
    refuse 409
        "Could not save this device. Check the core device records or create a fresh device identity.",
  )
  committed s (store, done d) =
      (record (clear_pairings g s) { devices = store; code = none }, reply (enrolled d.id))

  -- pairingEnroll, its second critical section: everything is checked again before the device is
  -- recorded. `fault` is what the write of the record meets.
  unfoldable pub commit_locked : Option Error → (now : ℕ) → Ticket → Server V → Server V × Reply
  commit_locked fault now k s =
      if not (still_pending k.pending (lookup k.input.id s.enrollments))
        || not (enrollment_valid now (some k.pending) s)
      then (s, refuse 410 "Core verification expired. Verify the core with a new code.")
      else committed s (add g fault now k.pending.name k.pending.public_key s.devices)

  abbrev pub enroll_judged :
      Option Error → (now : ℕ) → Ticket → Option Bool → Server V → Server V × Reply
  enroll_judged fault now k none s = (s, refuse 500 "Sign-in is temporarily unavailable.")
  enroll_judged fault now k (some false) s = (s, refuse 401 "Incorrect username or password.")
  enroll_judged fault now k (some true) s = commit_locked fault now k s

  -- pairingEnroll from the password work on. The slot is given back when the handler returns.
  unfoldable pub enroll_finish : Option Error → (now : ℕ) → Ticket → Server V → Server V × Reply
  enroll_finish fault now k s =
      let (t, answer) =
        enroll_judged fault now k (password_matches g s.state k.input.credentials) s in
      (release_slot t, answer)
