-- ===== src/Routing/Bottleneck.antt =====
-- The bottleneck of a route (`minOrNull` of routing.ts).
use pqc_qkd_hybrid_network.Base.{
  ◌≤◌, ◌≡◌, refl, inl, inr, Option, none, some, List, [], ◌∷◌, length, All, arith, ◌==◌, Bool-cases,
  leb→le, if◌then◌else◌, subst, some_inj,
}
use pqc_qkd_hybrid_network.Base.Int.{ℤ, leb_ℤ, ◌≤ℤ◌}
use pqc_qkd_hybrid_network.Routing.Rank.{known_of, min_from, min_of, min_or_null}

lesser-le : (x y : ℤ) → ((if leb_ℤ x y then x else y) ≤ℤ x) × ((if leb_ℤ x y then x else y) ≤ℤ y)
lesser-le x y = elim (Bool-cases (leb_ℤ x y)) [
  | inl le ↦ rw le (omega arith, leb→le _ _ le)
  | inr gt ↦ rw gt (ground arith, omega arith)
]

min_from-le : (x : ℤ) (ys : List ℤ) → (min_from x ys ≤ℤ x) × All (λ y. min_from x ys ≤ℤ y) ys
unfolding min_from
min_from-le x [] = (omega arith, tt)
min_from-le x (y ∷ ys) =
    let z = if leb_ℤ x y then x else y in
    let (a, b) = min_from-le z ys in
    let (p, q) = lesser-le x y in
    (le_trans (min_from z ys) z x a p, (le_trans (min_from z ys) z y a q, b))
  where
    le_trans : (a b c : ℤ) → a ≤ℤ b → b ≤ℤ c → a ≤ℤ c
    le_trans a b c p q = omega arith

length-known_of : (xs : List (Option ℤ)) → length (known_of xs) ≤ length xs
unfolding known_of
length-known_of [] = omega arith
length-known_of (none ∷ xs) = omega (arith, length-known_of xs)
length-known_of (some x ∷ xs) = omega (arith, length-known_of xs)

-- Where no value is unknown, what all known values have all values have.
known_of-All :
    (P : ℤ → Type 0) (xs : List (Option ℤ))
    → length (known_of xs) ≡ length xs
    → All P (known_of xs)
    → All (λ o. (x : ℤ) × (o ≡ some x) × P x) xs
unfolding known_of
known_of-All P [] e a = tt
known_of-All P (none ∷ xs) e a = absurd (omega (arith, length-known_of xs))
known_of-All P (some x ∷ xs) e a = ((x, refl, a.0), known_of-All P xs (omega arith) a.1)

-- A bottleneck that is given is that of values that are all known, and it is at most each of them.
pub min_or_null_bounds :
    (xs : List (Option ℤ)) (m : ℤ)
    → min_or_null xs ≡ some m
    → All (λ o. (x : ℤ) × (o ≡ some x) × (m ≤ℤ x)) xs
unfolding min_or_null min_of
min_or_null_bounds xs m e = elim (Bool-cases (length (known_of xs) == length xs)) [
  | inr unknown ↦ absurd (cc (rw unknown at e))
  | inl known ↦ known_of-All (λ x. m ≤ℤ x) xs (ground arith) (least (known_of xs) (rw known at e))
]
  where
    least : (ys : List ℤ) → min_of ys ≡ some m → All (λ y. m ≤ℤ y) ys
    least [] h = absurd (cc h)
    least (y ∷ ys) h = subst (λ n. All (λ z. n ≤ℤ z) (y ∷ ys)) (some_inj h) (min_from-le y ys)
