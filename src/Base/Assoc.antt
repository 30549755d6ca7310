-- ===== src/Base/Assoc.antt =====
-- A Go map with text keys, as an association list, with the laws of its operations.
use Prim.Native.String.{String}
use mathlib.Core.Path.{◌≡◌, refl}
use mathlib.Core.Logic.{◌≢◌}
use mathlib.Core.Bool.{Bool, false}
use mathlib.Core.Option.{Option, none, some}
use mathlib.Core.List.{List, [], ◌∷◌}
use native.Mathlib.Omega.{arith}
use text.Mathlib.Text.{◌==◌}
use text.Mathlib.TextEquality.{eq_iff}
use package.servion.Base.Tests.{if◌then◌else◌}

-- The value if it passes the test.
abbrev pub only {ℓ} : {A : Type ℓ} → (A → Bool) → Option A → Option A
only p none = none
only p (some a) = if p a then some a else none

module _ {ℓ} {V : Type ℓ} where
  -- v, ok := m[key]
  unfoldable pub find : String → List (String × V) → Option V
  find key [] = none
  find key ((k, v) ∷ m) = if k == key then some v else find key m

  -- m[key] = v
  unfoldable pub put : String → V → List (String × V) → List (String × V)
  put key v [] = (key, v) ∷ []
  put key v ((k, w) ∷ m) = if k == key then (key, v) ∷ m else (k, w) ∷ put key v m

  -- delete(m, key)
  unfoldable pub erase : String → List (String × V) → List (String × V)
  erase key [] = []
  erase key ((k, v) ∷ m) = let rest = erase key m in if k == key then rest else (k, v) ∷ rest

  -- for k, v := range m { if !p(v) { delete(m, k) } }
  unfoldable pub keep : (V → Bool) → List (String × V) → List (String × V)
  unfolding erase
  keep p [] = []
  keep p ((k, v) ∷ m) = let rest = keep p m in if p v then (k, v) ∷ rest else erase k rest

  pub find-put :
      (key name : String) (v : V) (m : List (String × V))
      → find name (put key v m) ≡ (if key == name then some v else find name m)
  unfolding find put
  find-put key name v [] = refl
  find-put key name v ((k, w) ∷ m) =
      ground (arith, eq_iff key name, eq_iff k key, eq_iff k name, find-put key name v m)

  pub find-erase :
      (key name : String) (m : List (String × V))
      → find name (erase key m) ≡ (if key == name then none else find name m)
  unfolding find erase
  find-erase key name [] = ground arith
  find-erase key name ((k, w) ∷ m) =
      ground (arith, eq_iff key name, eq_iff k key, eq_iff k name, find-erase key name m)

  pub find-keep :
      (p : V → Bool) (name : String) (m : List (String × V))
      → find name (keep p m) ≡ only p (find name m)
  unfolding find keep
  find-keep p name [] = refl
  find-keep p name ((k, v) ∷ m) =
      ground (arith, eq_iff k name, find-erase k name (keep p m), find-keep p name m)

pub str_eq-false : (s t : String) → s ≢ t → (s == t) ≡ false
str_eq-false s t h = ground (arith, eq_iff s t)
