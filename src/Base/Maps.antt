-- ===== src/Base/Maps.antt =====
-- Go's maps with string keys, as association lists. The order of the list is the order in which
-- `range` visits the entries; Go leaves that order open, and no theorem fixes it.
use Prim.Native.String.{String}
use mathlib.Core.Path.{◌≡◌, refl, subst₂}
use mathlib.Core.Bool.{Bool}
use mathlib.Core.Logic.{inl, inr}
use mathlib.Core.List.{List, [], ◌∷◌}
use mathlib.Core.Option.{Option, none, some}
use native.Mathlib.Omega.{arith}
use text.Mathlib.Text.{◌==◌}
use text.Mathlib.TextEquality.{eq_iff}
use icy_easy_send.Base.Tests.{if◌then◌else◌, String-cases}

abbrev pub Map {ℓ} : Type ℓ → Type ℓ
Map V = List (String × V)

module _ {ℓ} {V : Type ℓ} where
  -- v, ok := m[k]
  unfoldable pub lookup : String → Map V → Option V
  lookup k [] = none
  lookup k ((j, v) ∷ m) = if j == k then some v else lookup k m

  -- m[key] = value
  unfoldable pub insert : String → V → Map V → Map V
  insert key value [] = (key, value) ∷ []
  insert key value ((k, old) ∷ rest) =
      let others = insert key value rest in
      if k == key then (key, value) ∷ rest else (k, old) ∷ others

  -- delete(m, k)
  unfoldable pub delete : String → Map V → Map V
  delete k [] = []
  delete k ((j, v) ∷ m) = let rest = delete k m in if j == k then rest else (j, v) ∷ rest

  -- m[k] where the zero value stands for a missing key
  abbrev pub or_zero : V → Option V → V
  or_zero d none = d
  or_zero d (some v) = v

  pub lookup-insert :
      (key asked : String) (value : V) (m : Map V)
      → lookup asked (insert key value m) ≡ (if key == asked then some value else lookup asked m)
  unfolding lookup insert
  lookup-insert key asked value [] = refl
  lookup-insert key asked value ((k, old) ∷ rest) =
      ground
        (arith, lookup-insert key asked value rest, eq_iff key asked, eq_iff k key, eq_iff k asked)

  pub lookup-delete :
      (k j : String) (m : Map V) → lookup j (delete k m) ≡ (if k == j then none else lookup j m)
  unfolding lookup delete
  lookup-delete k j [] = ground arith
  lookup-delete k j ((i, v) ∷ m) =
      ground (arith, lookup-delete k j m, eq_iff i k, eq_iff i j, eq_iff k j)

  -- No key stands twice.
  abbrev pub HasUniqueKeys : Map V → Type ℓ
  HasUniqueKeys [] = Unit
  HasUniqueKeys ((k, v) ∷ m) = (lookup k m ≡ none) × HasUniqueKeys m

  pub insert-HasUniqueKeys :
      (k : String) (v : V) (m : Map V) → HasUniqueKeys m → HasUniqueKeys (insert k v m)
  unfolding insert lookup
  insert-HasUniqueKeys k v [] u = (refl, tt)
  insert-HasUniqueKeys k v ((j, w) ∷ m) u =
      ground (arith, eq_iff j k, eq_iff k j, lookup-insert k j v m, insert-HasUniqueKeys k v m u.1)

  pub delete-HasUniqueKeys : (k : String) (m : Map V) → HasUniqueKeys m → HasUniqueKeys (delete k m)
  unfolding delete lookup
  delete-HasUniqueKeys k [] u = tt
  delete-HasUniqueKeys k ((j, w) ∷ m) u =
      ground (arith, eq_iff k j, lookup-delete k j m, delete-HasUniqueKeys k m u.1)

  -- Every entry of the map has the property.
  abbrev pub AllEntries {κ} : (String → V → Type κ) → Map V → Type κ
  AllEntries P [] = Unit
  AllEntries P ((k, v) ∷ m) = P k v × AllEntries P m

  -- The entries whose value passes the test.
  unfoldable pub retain : (V → Bool) → Map V → Map V
  retain p [] = []
  retain p ((k, v) ∷ m) = let rest = retain p m in if p v then (k, v) ∷ rest else rest

  abbrev pub keep_if : (V → Bool) → Option V → Option V
  keep_if p none = none
  keep_if p (some v) = if p v then some v else none

  pub lookup-retain :
      (p : V → Bool) (k : String) (m : Map V)
      → HasUniqueKeys m
      → lookup k (retain p m) ≡ keep_if p (lookup k m)
  unfolding lookup retain
  lookup-retain p k [] u = refl
  lookup-retain p k ((j, v) ∷ m) u = ground (arith, eq_iff j k, lookup-retain p k m u.1)

  pub retain-HasUniqueKeys :
      (p : V → Bool) (m : Map V) → HasUniqueKeys m → HasUniqueKeys (retain p m)
  unfolding retain
  retain-HasUniqueKeys p [] u = tt
  retain-HasUniqueKeys p ((j, v) ∷ m) u =
      ground (arith, lookup-retain p j m u.1, retain-HasUniqueKeys p m u.1)

  pub retain-AllEntries {κ} :
      (P : String → V → Type κ) (p : V → Bool) (m : Map V)
      → AllEntries P m
      → AllEntries P (retain p m)
  unfolding retain
  retain-AllEntries P p [] a = tt
  retain-AllEntries P p ((j, v) ∷ m) a = ground (arith, retain-AllEntries P p m a.1)

  pub delete-AllEntries {κ} :
      (P : String → V → Type κ) (k : String) (m : Map V)
      → AllEntries P m
      → AllEntries P (delete k m)
  unfolding delete
  delete-AllEntries P k [] a = tt
  delete-AllEntries P k ((j, v) ∷ m) a = ground (arith, delete-AllEntries P k m a.1)

  pub insert-AllEntries {κ} :
      (P : String → V → Type κ) (k : String) (v : V) (m : Map V)
      → P k v
      → AllEntries P m
      → AllEntries P (insert k v m)
  unfolding insert
  insert-AllEntries P k v [] h a = (h, tt)
  insert-AllEntries P k v ((j, w) ∷ m) h a = ground (arith, insert-AllEntries P k v m h a.1)

  -- What holds of every entry holds of the one that a lookup finds.
  pub AllEntries-lookup {κ} :
      (P : String → V → Type κ) (k : String) (v : V) (m : Map V)
      → AllEntries P m
      → lookup k m ≡ some v
      → P k v
  unfolding lookup
  AllEntries-lookup P k v [] a h = absurd (ground arith)
  AllEntries-lookup P k v ((j, w) ∷ m) a h = elim (String-cases j k) [
    | inl (e, t) ↦ subst₂ P e (found (rw t at h)) a.0
    | inr (n, t) ↦ AllEntries-lookup P k v m a.1 (rw t at h)
  ]
    where
      found : some w ≡ some v → w ≡ v
      found q = cc q
