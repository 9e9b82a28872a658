-- ===== src/Node/Devices/Refinement.antt =====
-- core/internal/node/devices.go: what the store promises of authorizations, without keys, names or a file.
use mathlib.Core.Path.{fun_ext}
use easyprivacy.Platform.{Platform}
use easyprivacy.Node.Devices.{new_device, revoke, add, device_id, Device, DeviceStore}
use easyprivacy.Base.{
  Option-cases, same_refl, lookup-insert, text_discrete, sym, arith, is_none, subst, List, Bool,
  Outcome, ◌∷◌, [], false, true, refl, failed, done, Outcome-cases, ℕ, Error, same, lookup, Option,
  Text, some, none, inr, inl, ◌≡◌, if◌then◌else◌,
}
use easyprivacy.Node.Devices.Invariant.{
  revoke-done, revoke-failed, add-done, add-failed, step, run, Revoked, Added, revokes, adds,
  Action,
}

-- What the store says of an identity.
pub data Access : Type 0 where
  unknown : Access
  allowed : Access
  barred : Access

abbrev pub View : Type 0
View = Text → Access

abbrev pub access_of : Option Device → Access
access_of none = unknown
access_of (some d) = if d.revoked then barred else allowed

unfoldable pub view : DeviceStore → View
view s id = access_of (lookup id s.devices)

-- A view with another answer for one identity.
abbrev pub with_access : Text → Access → View → View
with_access id a v j = if same id j then a else v j

abbrev is_done : Outcome Device → Bool
is_done (done d) = true
is_done (failed e) = false

module _ (g : Platform) where
  -- Whether a call returns without an error.
  unfoldable pub succeeds : DeviceStore → Action → Bool
  succeeds s (adds fault now name key) = is_done (add g fault now name key s).1
  succeeds s (revokes fault id) = is_none (revoke fault id s).1

  -- The specification of a call and its success. A call that fails changes nothing; an Add that succeeds
  -- allows an identity that was unknown; a Revoke that succeeds bars one that was allowed or is barred.
  pub data Serves : View → Action → Bool → View → Type 0 where
    refused : {v : View} {a : Action} → Serves v a false v
    enrolls :
        {v : View} {fault : Option Error} {now : ℕ} {name key : Text}
        → v (device_id g key) ≡ unknown
        → Serves v (adds fault now name key) true (with_access (device_id g key) allowed v)
    bars :
        {v : View} {fault : Option Error} {id : Text}
        → ¬ (v id ≡ unknown)
        → Serves v (revokes fault id) true (with_access id barred v)

  -- The calls of a history, each with whether it returned without an error.
  unfoldable pub outcomes : DeviceStore → List Action → List (Action × Bool)
  outcomes s [] = []
  outcomes s (a ∷ h) = (a, succeeds s a) ∷ outcomes (step g s a) h

  -- Histories of the specification, in which each call has its success.
  pub data Runs : View → List (Action × Bool) → View → Type 0 where
    finished : {v : View} → Runs v [] v
    continues :
        {v w x : View} {a : Action} {ok : Bool} {h : List (Action × Bool)}
        → Serves v a ok w
        → Runs w h x
        → Runs v ((a, ok) ∷ h) x

  add-view :
      (now : ℕ) (name key : Text) (s t : DeviceStore)
      → Added g now name key s t
      → view t ≡ with_access (device_id g key) allowed (view s)
  unfolding view
  add-view now name key s t a = fun_ext (λ j.
      rw a.inserted
        (ground (arith, lookup-insert (device_id g key) j (new_device g name key now) s.devices)))

  add-Serves :
      (fault : Option Error) (now : ℕ) (name key : Text) (s : DeviceStore)
      → Serves
          (view s)
          (adds fault now name key)
          (succeeds s (adds fault now name key))
          (view (add g fault now name key s).0)
  unfolding succeeds
  add-Serves fault now name key s = elim (Outcome-cases (add g fault now name key s).1) [
    | inr (e, p) ↦ rw p (
        subst (λ t. Serves (view s) (adds fault now name key) false (view t))
          (sym (add-failed g fault now name key s e p)) refused)
    | inl (d, p) ↦
        let a = (add-done g fault now name key s d p).0 in
        rw p (
          subst (Serves (view s) (adds fault now name key) true) (sym (add-view now name key s _ a))
            (enrolls (free a)))
  ]
    where
      free : {t : DeviceStore} → Added g now name key s t → view s (device_id g key) ≡ unknown
      free a = unfold view in rw a.was_free refl

  revoke-view :
      (id : Text) (d : Device) (s t : DeviceStore)
      → Revoked id d s t
      → view t ≡ with_access id barred (view s)
  unfolding view
  revoke-view id d s t r = fun_ext (λ j. elim (text_discrete id j) [
    | yes p ↦ rw (← p, r.marked) (ground (arith, same_refl id))
    | no n ↦ let other : same id j ≡ false = ground arith in rw (r.others j other, other) refl
  ])

  revoke-Serves :
      (fault : Option Error) (id : Text) (s : DeviceStore)
      → Serves
          (view s)
          (revokes fault id)
          (succeeds s (revokes fault id))
          (view (revoke fault id s).0)
  unfolding succeeds
  revoke-Serves fault id s = elim (Option-cases (revoke fault id s).1) [
    | inr (e, p) ↦ rw p (
        subst (λ t. Serves (view s) (revokes fault id) false (view t))
          (sym (revoke-failed fault id s e p)) refused)
    | inl p ↦
        let (d, r) = revoke-done fault id s p in
        rw p (
          subst (Serves (view s) (revokes fault id) true) (sym (revoke-view id d s _ r))
            (bars (known d r.known)))
  ]
    where
      known : (d : Device) → lookup id s.devices ≡ some d → ¬ (view s id ≡ unknown)
      known d k = unfold view in rw k (ground arith)

  -- Every history of Add and Revoke, with the success that each call reports, is one of the specification: seen as
  -- what it says of each identity, the store is as it was behind a call that returns an error, and changes from
  -- unknown to allowed behind an Add that returns none, and to barred behind such a Revoke.
  pub run-Runs :
      (h : List Action) (s : DeviceStore) → Runs (view s) (outcomes s h) (view (run g s h))
  unfolding run step outcomes
  run-Runs [] s = finished
  run-Runs (adds fault now name key ∷ h) s =
      continues (add-Serves fault now name key s) (run-Runs h _)
  run-Runs (revokes fault id ∷ h) s = continues (revoke-Serves fault id s) (run-Runs h _)
