-- ===== src/Base/Maps.antt =====
-- Go maps with string keys, as association lists. Go leaves the order of an iteration open: the
-- order of the list is one such order, and every statement is about every list.
use Prim.Native.Nat.{◌<◌, suc, ◌≤◌}
use mathlib.Core.Path.{◌≡◌, refl, subst₂}
use mathlib.Core.Bool.{Bool, true, false}
use mathlib.Core.Option.{Option, none, some}
use mathlib.Core.List.{List, [], ◌∷◌}
use native.Mathlib.Omega.{arith}
use easyprivacy.Base.Tests.{if◌then◌else◌, is_some}
use easyprivacy.Base.Lists.{length}
use easyprivacy.Base.Bytes.{Text, same, text_discrete}

abbrev pub Dict {ℓ} : Type ℓ → Type ℓ
Dict V = List (Text × V)

module _ {ℓ} {V : Type ℓ} where
  -- v, ok := m[k]
  unfoldable pub lookup : Text → Dict V → Option V
  lookup k [] = none
  lookup k ((j, v) ∷ m) = if same j k then some v else lookup k m

  -- m[k] = v
  unfoldable pub insert : Text → V → Dict V → Dict V
  insert k v [] = (k, v) ∷ []
  insert k v ((j, w) ∷ m) = if same j k then (k, v) ∷ m else (j, w) ∷ insert k v m

  -- delete(m, k)
  unfoldable pub delete : Text → Dict V → Dict V
  delete k [] = []
  delete k ((j, v) ∷ m) = let rest = delete k m in if same j k then rest else (j, v) ∷ rest

  -- A loop over the map that deletes the entries which fail the test.
  unfoldable pub retain : (Text → V → Bool) → Dict V → Dict V
  retain p [] = []
  retain p ((j, v) ∷ m) = let rest = retain p m in if p j v then (j, v) ∷ rest else rest

  -- Some entry passes the test.
  unfoldable pub any : (Text → V → Bool) → Dict V → Bool
  any p [] = false
  any p ((j, v) ∷ m) = if p j v then true else any p m

  -- Every entry has the property.
  abbrev pub All {κ} : (Text → V → Type κ) → Dict V → Type κ
  All P [] = Unit
  All P ((j, v) ∷ m) = P j v × All P m

  -- No entry under the key.
  abbrev pub Lacks : Text → Dict V → Type 0
  Lacks k [] = Unit
  Lacks k ((j, v) ∷ m) = ¬ (j ≡ k) × Lacks k m

  -- No two entries have the same key: what a Go map guarantees.
  abbrev pub IsMap : Dict V → Type 0
  IsMap [] = Unit
  IsMap ((j, v) ∷ m) = Lacks j m × IsMap m

  pub lookup-insert :
      (k j : Text) (v : V) (m : Dict V)
      → lookup j (insert k v m) ≡ (if same k j then some v else lookup j m)
  unfolding lookup insert
  lookup-insert k j v [] = refl
  lookup-insert k j v ((i, w) ∷ m) = ground (arith, lookup-insert k j v m)

  pub lookup-delete :
      (k j : Text) (m : Dict V) → lookup j (delete k m) ≡ (if same k j then none else lookup j m)
  unfolding lookup delete
  lookup-delete k j [] = ground arith
  lookup-delete k j ((i, w) ∷ m) = ground (arith, lookup-delete k j m)

  pub Lacks-lookup : (k : Text) (m : Dict V) → Lacks k m → lookup k m ≡ none
  unfolding lookup
  Lacks-lookup k [] h = refl
  Lacks-lookup k ((i, w) ∷ m) h = ground (arith, Lacks-lookup k m h.1)

  pub lookup-Lacks : (k : Text) (m : Dict V) → lookup k m ≡ none → Lacks k m
  unfolding lookup
  lookup-Lacks k [] h = tt
  lookup-Lacks k ((i, w) ∷ m) h = ground (arith, lookup-Lacks k m)

  pub lookup-retain :
      (k : Text) (p : Text → V → Bool) (m : Dict V)
      → IsMap m
      → lookup k (retain p m)
        ≡ elim (lookup k m) [ none ↦ none | some v ↦ if p k v then some v else none ]
  unfolding lookup retain
  lookup-retain k p [] h = refl
  lookup-retain k p ((i, w) ∷ m) h = ground (arith, lookup-retain k p m h.1, Lacks-lookup i m h.0)

  -- What a lookup finds has passed the test, also where keys were to repeat.
  pub size-insert :
      (k : Text) (v : V) (m : Dict V)
      → length (insert k v m) ≡ (if is_some (lookup k m) then length m else suc (length m))
  unfolding lookup insert
  size-insert k v [] = refl
  size-insert k v ((i, w) ∷ m) = ground (arith, size-insert k v m)

  pub size-delete : (k : Text) (m : Dict V) → length (delete k m) ≤ length m
  unfolding delete
  size-delete k [] = omega arith
  size-delete k ((i, w) ∷ m) = ground (arith, size-delete k m)

  pub size-retain : (p : Text → V → Bool) (m : Dict V) → length (retain p m) ≤ length m
  unfolding retain
  size-retain p [] = omega arith
  size-retain p ((i, w) ∷ m) = ground (arith, size-retain p m)

module _ {ℓ} {V : Type ℓ} where
  Lacks-insert : (j k : Text) (v : V) (m : Dict V) → ¬ (k ≡ j) → Lacks j m → Lacks j (insert k v m)
  unfolding insert
  Lacks-insert j k v [] n h = (n, tt)
  Lacks-insert j k v ((i, w) ∷ m) n h = ground (arith, Lacks-insert j k v m n h.1)

  pub insert-IsMap : (k : Text) (v : V) (m : Dict V) → IsMap m → IsMap (insert k v m)
  unfolding insert
  insert-IsMap k v [] h = (tt, tt)
  insert-IsMap k v ((i, w) ∷ m) h = ground (arith, insert-IsMap k v m h.1, Lacks-insert i k v m)

  Lacks-delete : (j k : Text) (m : Dict V) → Lacks j m → Lacks j (delete k m)
  unfolding delete
  Lacks-delete j k [] h = tt
  Lacks-delete j k ((i, w) ∷ m) h = ground (arith, Lacks-delete j k m h.1)

  pub delete-IsMap : (k : Text) (m : Dict V) → IsMap m → IsMap (delete k m)
  unfolding delete
  delete-IsMap k [] h = tt
  delete-IsMap k ((i, w) ∷ m) h = ground (arith, delete-IsMap k m h.1, Lacks-delete i k m h.0)

  Lacks-retain : (j : Text) (p : Text → V → Bool) (m : Dict V) → Lacks j m → Lacks j (retain p m)
  unfolding retain
  Lacks-retain j p [] h = tt
  Lacks-retain j p ((i, w) ∷ m) h = ground (arith, Lacks-retain j p m h.1)

  pub retain-IsMap : (p : Text → V → Bool) (m : Dict V) → IsMap m → IsMap (retain p m)
  unfolding retain
  retain-IsMap p [] h = tt
  retain-IsMap p ((i, w) ∷ m) h = ground (arith, retain-IsMap p m h.1, Lacks-retain i p m h.0)

module _ {ℓ κ} {V : Type ℓ} (P : Text → V → Type κ) where
  pub All-lookup : (k : Text) {v : V} (m : Dict V) → All P m → lookup k m ≡ some v → P k v
  unfolding lookup
  All-lookup k [] h e = cc
  All-lookup k {v} ((i, w) ∷ m) h e = elim (text_discrete i k) [
    | yes p ↦ subst₂ P p (found p) h.0
    | no n ↦ All-lookup k m h.1 (ground arith)
  ]
    where
      found : i ≡ k → w ≡ v
      found p = ground arith

  pub All-insert : (k : Text) (v : V) (m : Dict V) → P k v → All P m → All P (insert k v m)
  unfolding insert
  All-insert k v [] p h = (p, tt)
  All-insert k v ((i, w) ∷ m) p h = ground (arith, All-insert k v m p h.1)

  pub All-delete : (k : Text) (m : Dict V) → All P m → All P (delete k m)
  unfolding delete
  All-delete k [] h = tt
  All-delete k ((i, w) ∷ m) h = ground (arith, All-delete k m h.1)

  pub All-retain : (p : Text → V → Bool) (m : Dict V) → All P m → All P (retain p m)
  unfolding retain
  All-retain p [] h = tt
  All-retain p ((i, w) ∷ m) h = ground (arith, All-retain p m h.1)

  -- What is kept has passed the test.
  pub All-retain_of :
      (p : Text → V → Bool) (m : Dict V)
      → ((k : Text) (v : V) → p k v ≡ true → P k v)
      → All P (retain p m)
  unfolding retain
  All-retain_of p [] f = tt
  All-retain_of p ((i, w) ∷ m) f = ground (arith, f i w, All-retain_of p m f)

module _ {ℓ} {V : Type ℓ} where
  -- Undoing the insertion of a new key.
  pub delete-insert : (k : Text) (v : V) (m : Dict V) → Lacks k m → delete k (insert k v m) ≡ m
  unfolding delete insert
  delete-insert k v [] h = ground arith
  delete-insert k v ((i, w) ∷ m) h = ground (arith, delete-insert k v m h.1)

  -- Putting back what an insertion has replaced.
  pub insert-insert :
      (k : Text) (v w : V) (m : Dict V) → lookup k m ≡ some v → insert k v (insert k w m) ≡ m
  unfolding lookup insert
  insert-insert k v w [] h = cc
  insert-insert k v w ((i, x) ∷ m) h = ground (arith, insert-insert k v w m)

  pub size-insert_le : (k : Text) (v : V) (m : Dict V) → length (insert k v m) ≤ suc (length m)
  size-insert_le k v m = ground (arith, size-insert k v m)

  -- Deleting a key that is there makes the map smaller.
  pub size-delete_lt :
      (k : Text) (v : V) (m : Dict V) → lookup k m ≡ some v → length (delete k m) < length m
  unfolding lookup delete
  size-delete_lt k v [] h = cc
  size-delete_lt k v ((i, w) ∷ m) h = ground (arith, size-delete_lt k v m, size-delete k m)

  -- Writing to a key that is there does not make it larger.
  pub size-insert-some :
      (k : Text) (v w : V) (m : Dict V) → lookup k m ≡ some w → length (insert k v m) ≡ length m
  size-insert-some k v w m h = ground (arith, size-insert k v m)
