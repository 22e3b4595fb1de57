-- ===== src/Base/Comparison.antt =====
-- Comparison functions of JavaScript's `sort`: the sign of `compare(a, b)` as an `Ordering`, their
-- laws, and `||` of two of them.
use Prim.Native.Nat.{◌+◌, compare, Ordering}
use mathlib.Core.Path.{◌≡◌}
use mathlib.Core.Bool.{Bool, true, false}
use native.Mathlib.Omega.{arith}
use pqc_qkd_hybrid_network.Base.Int.{ℤ, pos_part, neg_part}
use pqc_qkd_hybrid_network.Base.Sort.{IsPreorder}

-- The sign of the opposite number.
abbrev pub opposite : Ordering → Ordering
opposite Ordering.lt = Ordering.gt
opposite Ordering.eq = Ordering.eq
opposite Ordering.gt = Ordering.lt

-- `compare(a, b) || other`
abbrev pub or_next : Ordering → Ordering → Ordering
or_next Ordering.eq o = o
or_next Ordering.lt o = Ordering.lt
or_next Ordering.gt o = Ordering.gt

-- `compare(a, b) <= 0`
abbrev pub is_le : Ordering → Bool
is_le Ordering.gt = false
is_le Ordering.eq = true
is_le Ordering.lt = true

-- What `sort` asks of a comparison function.
pub record IsComparison {ℓ} {A : Type ℓ} (cmp : A → A → Ordering) : Type ℓ where
  pub flips : (a b : A) → cmp b a ≡ opposite (cmp a b)
  pub trans : (a b c : A) → is_le (cmp a b) ≡ true → is_le (cmp b c) ≡ true → is_le (cmp a c) ≡ true

module _ {ℓ} {A : Type ℓ} where
  pub IsComparison-IsPreorder :
      (cmp : A → A → Ordering) → IsComparison cmp → IsPreorder (λ a b. is_le (cmp a b))
  IsComparison-IsPreorder cmp h = record {
    total = λ a b. ground (arith, h.flips a b);
    trans = h.trans;
  }

  -- The next comparison decides where the first finds no difference.
  pub or_next-IsComparison :
      (f g : A → A → Ordering)
      → IsComparison f
      → IsComparison g
      → IsComparison (λ a b. or_next (f a b) (g a b))
  or_next-IsComparison f g hf hg = record {
    flips = λ a b. ground (arith, hf.flips a b, hg.flips a b);
    trans = λ a b c p q. ground (
      arith,
      hf.trans a b c,
      hf.trans b c a,
      hf.trans c a b,
      hf.flips a b,
      hf.flips a c,
      hf.flips b c,
      hg.trans a b c,
    );
  }

  -- Comparison of a key.
  pub key-IsComparison {κ} :
      {K : Type κ} (cmp : K → K → Ordering) (key : A → K)
      → IsComparison cmp
      → IsComparison (λ a b. cmp (key a) (key b))
  key-IsComparison cmp key h = record {
    flips = λ a b. h.flips (key a) (key b);
    trans = λ a b c. h.trans (key a) (key b) (key c);
  }

-- `a - b` of two counts
pub compare-IsComparison : IsComparison compare
compare-IsComparison = record { flips = λ a b. ground arith; trans = λ a b c p q. ground arith }

-- `a - b` of two signed numbers
unfoldable pub compare_ℤ : ℤ → ℤ → Ordering
compare_ℤ a b = compare (pos_part a + neg_part b) (pos_part b + neg_part a)

pub compare_ℤ-IsComparison : IsComparison compare_ℤ
unfolding compare_ℤ
compare_ℤ-IsComparison = record { flips = λ a b. ground arith; trans = λ a b c p q. ground arith }
