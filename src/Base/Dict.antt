-- ===== src/Base/Dict.antt =====
-- A JavaScript `Map` with text keys, as an association list in insertion order.
use mathlib.Core.Path.{◌≡◌, refl}
use mathlib.Core.Logic.{◌≢◌}
use mathlib.Core.List.{List, [], ◌∷◌}
use mathlib.Core.Option.{Option, none, some}
use Prim.Native.String.{String}
use native.Mathlib.Omega.{arith}
use text.Mathlib.TextEquality.{eq_iff}
use pqc_qkd_hybrid_network.Base.Tests.{if◌then◌else◌, str_eq}

module _ {ℓ} {V : Type ℓ} where
  -- `map.get(k)`
  unfoldable pub lookup : String → List (String × V) → Option V
  lookup key [] = none
  lookup key ((at, val) ∷ rest) = if str_eq at key then some val else lookup key rest

  -- `map.set(k, v)`: a key that is present keeps its place.
  unfoldable pub insert : String → V → List (String × V) → List (String × V)
  insert key val [] = (key, val) ∷ []
  insert key val ((at, new) ∷ rest) =
      if str_eq at key then (at, val) ∷ rest else (at, new) ∷ insert key val rest

  pub lookup-insert :
      (rest : List (String × V)) (key at : String) (val : V)
      → lookup at (insert key val rest) ≡ (if str_eq key at then some val else lookup at rest)
  unfolding lookup insert
  lookup-insert [] key at val = refl
  lookup-insert ((here, new) ∷ rest) key at val =
      ground (arith, eq_iff key at, eq_iff here key, eq_iff here at, lookup-insert rest key at val)

  pub lookup-insert_self :
      (key : String) (val : V) (rest : List (String × V))
      → lookup key (insert key val rest) ≡ some val
  lookup-insert_self key val rest = ground (arith, lookup-insert rest key key val, eq_iff key key)

  pub lookup-insert_ne :
      (key at : String) (val : V) (rest : List (String × V))
      → key ≢ at
      → lookup at (insert key val rest) ≡ lookup at rest
  lookup-insert_ne key at val rest h = ground (arith, lookup-insert rest key at val, eq_iff key at)

  -- Writing back what is there changes nothing.
  pub insert-lookup :
      (key : String) (val : V) (rest : List (String × V))
      → lookup key rest ≡ some val
      → insert key val rest ≡ rest
  unfolding lookup insert
  insert-lookup key val [] h = cc
  insert-lookup key val ((at, new) ∷ rest) h = ground (arith, insert-lookup key val rest)

  -- Setting a key twice is setting it once to the last value.
  pub insert-insert :
      (key : String) (val new : V) (rest : List (String × V))
      → insert key new (insert key val rest) ≡ insert key new rest
  unfolding insert
  insert-insert key val new [] = ground (arith, eq_iff key key)
  insert-insert key val new ((at, old) ∷ rest) = ground (arith, insert-insert key val new rest)
