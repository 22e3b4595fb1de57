-- ===== src/Routing/Rank.antt =====
-- Routes and their ranking, of services/webui-frontend/src/lib/sim/protocolLab/routing.ts.
use Prim.Native.Nat.{compare, Ordering}
use Prim.Native.String.{◌++◌ as str_append}
use pqc_qkd_hybrid_network.Base.{
  ℕ, ◌-◌, String, Bool, Option, none, some, List, [], ◌∷◌, map, length, ◌==◌, if◌then◌else◌,
}
use pqc_qkd_hybrid_network.Base.Int.{ℤ, leb_ℤ}
use pqc_qkd_hybrid_network.Base.Sort.{sort}
use pqc_qkd_hybrid_network.Base.Comparison.{is_le, or_next, compare_ℤ}
use pqc_qkd_hybrid_network.Routing.Graph.{SimplePath}

-- Bits are signed, since a store can lie below its threshold; rates are whole numbers of a unit that
-- all links share.
pub record LinkView : Type 0 where
  pub up : Bool
  pub usable : Bool
  pub why : Option String
  pub available_bits : Option ℤ
  pub rate_bps : Option ℤ

pub record RouteChoice : Type 0 where
  pub nodes : List String
  pub link_ids : List String
  pub hops : ℕ
  pub relays : ℕ
  pub bottleneck_bits : Option ℤ
  pub bottleneck_bps : Option ℤ

-- `xs.filter((x): x is number => x !== null)`
unfoldable pub known_of : List (Option ℤ) → List ℤ
known_of [] = []
known_of (none ∷ xs) = known_of xs
known_of (some x ∷ xs) = x ∷ known_of xs

-- `Math.min(x, ...xs)`
unfoldable pub min_from : ℤ → List ℤ → ℤ
min_from x [] = x
min_from x (y ∷ ys) = min_from (if leb_ℤ x y then x else y) ys

unfoldable pub min_of : List ℤ → Option ℤ
unfolding min_from
min_of [] = none
min_of (x ∷ xs) = some (min_from x xs)

-- `minOrNull`: one unknown hop makes the whole bottleneck unknown.
unfoldable pub min_or_null : List (Option ℤ) → Option ℤ
unfolding known_of min_of
min_or_null xs = if length (known_of xs) == length xs then min_of (known_of xs) else none

unfoldable pub describe_route : (String → LinkView) → SimplePath → RouteChoice
describe_route view p = record {
  nodes = p.nodes;
  link_ids = p.link_ids;
  hops = length p.link_ids;
  relays = length p.link_ids - 1;
  bottleneck_bits = min_or_null (map (λ id. (view id).available_bits) p.link_ids);
  bottleneck_bps = min_or_null (map (λ id. (view id).rate_bps) p.link_ids);
}

-- The wider first, and the unknown last.
unfoldable pub desc : Option ℤ → Option ℤ → Ordering
desc none none = Ordering.eq
desc none (some b) = Ordering.gt
desc (some a) none = Ordering.lt
desc (some a) (some b) = compare_ℤ b a

-- `xs.join(separator)`
unfoldable pub join : String → List String → String
join separator [] = ""
join separator (x ∷ []) = x
join separator (x ∷ y ∷ ys) = str_append x (str_append separator (join separator (y ∷ ys)))

unfoldable pub route_key : List String → String
unfolding join
route_key nodes = join "-" nodes

-- `localeCompare` of the language is the parameter.
module _ (collate : String → String → Ordering) where
  unfoldable pub compare_routes : RouteChoice → RouteChoice → Ordering
  unfolding desc join
  compare_routes x y = or_next (compare x.hops y.hops) (
      or_next (desc x.bottleneck_bits y.bottleneck_bits) (
        or_next (desc x.bottleneck_bps y.bottleneck_bps)
          (collate (join "," x.link_ids) (join "," y.link_ids))))

  unfoldable pub rank_routes : List RouteChoice → List RouteChoice
  unfolding compare_routes
  rank_routes = sort (λ x y. is_le (compare_routes x y))
