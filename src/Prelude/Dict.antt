-- ===== src/Prelude/Dict.antt =====
-- A JavaScript object as an association list: keys in insertion order, a write to a key that is
-- there keeps its place.
use Prim.Native.String.{String}
use mathlib.Core.Path.{◌≡◌, refl}
use mathlib.Core.Logic.{inl, inr}
use mathlib.Core.Option.{Option, none, some}
use mathlib.Core.List.{List, [], ◌∷◌, ◌++◌}
use native.Mathlib.Omega.{arith}
use text.Mathlib.Text.{◌==◌ as str_eq}
use text.Mathlib.TextEquality.{eq_iff}
use bfrost.Prelude.Tests.{if◌then◌else◌, or_else, is_some, Bool-cases}

module _ {ℓ} {V : Type ℓ} where
  abbrev pub lookup : String → List (String × V) → Option V
  lookup k [] = none
  lookup k ((j, v) ∷ m) = let rest = lookup k m in if str_eq j k then some v else rest

  abbrev pub insert : String → V → List (String × V) → List (String × V)
  insert k v [] = (k, v) ∷ []
  insert k v ((j, w) ∷ m) =
      let rest = insert k v m in if str_eq j k then (k, v) ∷ m else (j, w) ∷ rest

  abbrev pub remove : String → List (String × V) → List (String × V)
  remove k [] = []
  remove k ((j, w) ∷ m) = let rest = remove k m in if str_eq j k then rest else (j, w) ∷ rest

  abbrev pub keys : List (String × V) → List String
  keys [] = []
  keys ((j, w) ∷ m) = j ∷ keys m

  abbrev overlay : List (String × V) → List (String × V) → List (String × V)
  overlay [] b = []
  overlay ((j, w) ∷ a) b = (j, elim (lookup j b) [ none ↦ w | some v ↦ v ]) ∷ overlay a b

  abbrev fresh : List (String × V) → List (String × V) → List (String × V)
  fresh a [] = []
  fresh a ((j, w) ∷ b) =
      let rest = fresh a b in if is_some (lookup j a) then rest else (j, w) ∷ rest

  -- `{ ...a, ...b }`: the keys of `a` in their places with the values of `b`, then the new keys.
  abbrev pub spread : List (String × V) → List (String × V) → List (String × V)
  spread a b = overlay a b ++ fresh a b

module _ {ℓ} {V : Type ℓ} where
  pub lookup-insert :
      (k j : String) (v : V) (m : List (String × V))
      → lookup j (insert k v m) ≡ (if str_eq k j then some v else lookup j m)
  lookup-insert k j v [] = refl
  lookup-insert k j v ((i, w) ∷ m) =
      ground (arith, eq_iff k j, eq_iff i k, eq_iff i j, lookup-insert k j v m)

  pub lookup-remove :
      (k j : String) (m : List (String × V))
      → lookup j (remove k m) ≡ (if str_eq k j then none else lookup j m)
  lookup-remove k j [] = ground arith
  lookup-remove k j ((i, w) ∷ m) =
      ground (arith, eq_iff k j, eq_iff i k, eq_iff i j, lookup-remove k j m)

  lookup-append :
      (j : String) (a b : List (String × V)) → lookup j (a ++ b) ≡ or_else (lookup j a) (lookup j b)
  lookup-append j [] b = refl
  lookup-append j ((i, w) ∷ a) b = ground (arith, lookup-append j a b)

  lookup-overlay :
      (j : String) (a b : List (String × V))
      → lookup j (overlay a b)
        ≡ (if is_some (lookup j a) then or_else (lookup j b) (lookup j a) else none)
  lookup-overlay j [] b = refl
  lookup-overlay j ((i, w) ∷ a) b = elim (Bool-cases (str_eq i j)) [
    | inl e ↦ ground (arith, e, (eq_iff i j).0 e)
    | inr e ↦ rw e (lookup-overlay j a b)
  ]

  lookup-fresh :
      (j : String) (a b : List (String × V))
      → lookup j (fresh a b) ≡ (if is_some (lookup j a) then none else lookup j b)
  lookup-fresh j a [] = ground arith
  lookup-fresh j a ((i, w) ∷ b) = ground (arith, eq_iff i j, lookup-fresh j a b)

  -- The later object wins, key by key.
  pub lookup-spread :
      (j : String) (a b : List (String × V))
      → lookup j (spread a b) ≡ or_else (lookup j b) (lookup j a)
  lookup-spread j a b =
      rw (lookup-append j (overlay a b) (fresh a b), lookup-overlay j a b, lookup-fresh j a b)
        (ground arith)

  pub lookup-insert_same :
      (k : String) (v : V) (m : List (String × V)) → lookup k (insert k v m) ≡ some v
  lookup-insert_same k v m = rw (lookup-insert k k v m) (ground (arith, eq_iff k k))
