-- ===== src/Etsi004/Next.antt =====
-- What `nextFor` of etsi004.ts returns: the loop ends, at the least index that is not delivered yet.
use pqc_qkd_hybrid_network.Base.{
  ℕ, zero, suc, ◌+◌, ◌≤◌, ◌<◌, ◌≡◌, true, false, none, some, List, [], ◌∷◌, length, arith, ◌==◌,
  if◌then◌else◌, Bool-cases, Option-cases, inl, inr,
}
use pqc_qkd_hybrid_network.Etsi004.Stream.{Side, at_side, Stream, has}
use pqc_qkd_hybrid_network.Etsi004.Read.{next_from, next_for}

-- The list without the first occurrence of a number.
abbrev pub without : ℕ → List ℕ → List ℕ
without a [] = []
without a (x ∷ xs) = if x == a then xs else x ∷ without a xs

pub length-without :
    (a : ℕ) (xs : List ℕ) → has xs a ≡ true → length xs ≡ suc (length (without a xs))
length-without a [] h = cc
length-without a (x ∷ xs) h = ground (arith, length-without a xs)

has-without : (a b : ℕ) (xs : List ℕ) → b < a → has xs b ≡ true → has (without a xs) b ≡ true
has-without a b [] lt h = h
has-without a b (x ∷ xs) lt h = ground (arith, has-without a b xs)

-- A list that holds all numbers below n has n entries at least.
pub le-length_of_covered :
    (n : ℕ) (xs : List ℕ) → ((k : ℕ) → k < n → has xs k ≡ true) → n ≤ length xs
le-length_of_covered zero xs h = omega arith
le-length_of_covered (suc n) xs h = omega (
  arith,
  length-without n xs (h n (omega arith)),
  le-length_of_covered n (without n xs) (λ k lt. has-without n k xs lt (h k (omega arith))),
)

-- Where the loop stops, the index is not delivered and all those that it passed are.
next_from-some :
    (fuel : ℕ) (ds : List ℕ) (i j k : ℕ)
    → next_from fuel ds i ≡ some j
    → (has ds j ≡ false) × (i ≤ k → k < j → has ds k ≡ true)
unfolding next_from
next_from-some zero ds i j k e = cc
next_from-some (suc fuel) ds i j k e = elim (Bool-cases (has ds i)) [
  | inl old ↦ ground (arith, next_from-some fuel ds (i + 1) j k)
  | inr new ↦ ground arith
]

-- Out of fuel, all indices that the loop passed are delivered.
next_from-none :
    (fuel : ℕ) (ds : List ℕ) (i k : ℕ)
    → next_from fuel ds i ≡ none
    → i ≤ k
    → k < i + fuel
    → has ds k ≡ true
unfolding next_from
next_from-none zero ds i k e le lt = absurd (omega arith)
next_from-none (suc fuel) ds i k e le lt = ground (arith, next_from-none fuel ds (i + 1) k)

-- The loop of `nextFor` ends: it returns an index that was not delivered to the side, and every
-- smaller index was.
pub next_for_least :
    (s : Stream) (side : Side)
    → (i : ℕ) × (next_for s side ≡ some i)
      × (has (at_side side s.delivered) i ≡ false)
      × ((k : ℕ) → k < i → has (at_side side s.delivered) k ≡ true)
unfolding next_for
next_for_least s side = elim (Option-cases (next_for s side)) [
  | inl out ↦ absurd (
      omega (
        arith,
        le-length_of_covered (suc (length ds)) ds
            (λ k lt. next_from-none (suc (length ds)) ds 0 k out (omega arith) (omega arith)),
      ))
  | inr (i, e) ↦ (
    i,
    e,
    (next_from-some (suc (length ds)) ds 0 i 0 e).0,
    λ k lt. (next_from-some (suc (length ds)) ds 0 i k e).1 (omega arith) lt,
  )
]
  where
    ds : List ℕ
    ds = at_side side s.delivered
