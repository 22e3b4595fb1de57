-- ===== src/Routing/Order.antt =====
-- The comparison of routes of routing.ts is one that `sort` can use.
use Prim.Native.Nat.{compare, Ordering}
use pqc_qkd_hybrid_network.Base.{◌≡◌, refl, ◌≤◌, String, true, Option, none, some, arith}
use pqc_qkd_hybrid_network.Base.Comparison.{
  is_le, opposite, IsComparison, or_next-IsComparison, key-IsComparison, compare-IsComparison,
  compare_ℤ-IsComparison,
}
use pqc_qkd_hybrid_network.Base.Int.{ℤ}
use pqc_qkd_hybrid_network.Routing.Rank.{RouteChoice, desc, join, compare_routes}

desc-IsComparison : IsComparison desc
unfolding desc
desc-IsComparison = record { flips = flips; trans = trans }
  where
    flips : (a b : Option ℤ) → desc b a ≡ opposite (desc a b)
    flips none none = refl
    flips none (some b) = refl
    flips (some a) none = refl
    flips (some a) (some b) = compare_ℤ-IsComparison.flips b a

    trans :
        (a b c : Option ℤ)
        → is_le (desc a b) ≡ true
        → is_le (desc b c) ≡ true
        → is_le (desc a c) ≡ true
    trans none none c p q = q
    trans none (some b) c p q = absurd (ground arith)
    trans (some a) none none p q = refl
    trans (some a) none (some c) p q = absurd (ground arith)
    trans (some a) (some b) none p q = refl
    trans (some a) (some b) (some c) p q = compare_ℤ-IsComparison.trans c b a q p

-- Fewest hops, then the widest bottleneck in bits and in rate, then the ids: a total preorder, as far
-- as the text comparison of the language is one.
pub compare_routes-IsComparison :
    (collate : String → String → Ordering)
    → IsComparison collate
    → IsComparison (compare_routes collate)
unfolding compare_routes
compare_routes-IsComparison collate h =
    or_next-IsComparison _ _
      (key-IsComparison compare (λ (r : RouteChoice). r.hops) compare-IsComparison)
      (or_next-IsComparison _ _
        (key-IsComparison desc (λ (r : RouteChoice). r.bottleneck_bits) desc-IsComparison)
        (or_next-IsComparison _ _
          (key-IsComparison desc (λ (r : RouteChoice). r.bottleneck_bps) desc-IsComparison)
          (key-IsComparison collate (λ (r : RouteChoice). join "," r.link_ids) h)))

-- A route that does not come after another has no more hops.
pub hops-le :
    (collate : String → String → Ordering) (x y : RouteChoice)
    → is_le (compare_routes collate x y) ≡ true
    → x.hops ≤ y.hops
unfolding compare_routes
hops-le collate x y h = ground arith
