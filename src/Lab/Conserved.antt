-- ===== src/Lab/Conserved.antt =====
-- A key that the protocol lab (protocolLabSim.ts) relays is taken once from each link of its route, and
-- no link is overdrawn.
use mathlib.Core.Option
use pqc_qkd_hybrid_network.Base.{
  ℕ, zero, suc, ◌+◌, ◌-◌, ◌*◌, ◌≤◌, ◌<◌, ◌≡◌, refl, sym, subst, ◌∙◌, inl, inr, String, Bool, true,
  false, not, none, some, List, [], ◌∷◌, map, length, str_eq, eq_iff, leb→le, All, arith,
  Bool-cases, Option-cases, some_inj, ◌==◌,
}
use pqc_qkd_hybrid_network.Base.Int.{ℤ, pos, leb_ℤ, ◌≤ℤ◌}
use pqc_qkd_hybrid_network.Routing.Graph.{includes}
use pqc_qkd_hybrid_network.Routing.Rank.{min_or_null}
use pqc_qkd_hybrid_network.Routing.Bottleneck.{min_or_null_bounds}
use pqc_qkd_hybrid_network.Routing.Paths.{AreDistinct}
use pqc_qkd_hybrid_network.Lab.Links.{keys, LinkState, change_link}
use pqc_qkd_hybrid_network.Lab.Generate.{stored_total}
use pqc_qkd_hybrid_network.Lab.Routes.{Lab, find_link, view_keys, view_link, view_of}
use pqc_qkd_hybrid_network.Lab.Stream.{take_key, take_keys}

-- The link with an identifier is there and holds a key.
abbrev pub HoldsKey : List LinkState → String → Type 0
HoldsKey links id =
    (l : LinkState) × (find_link id links ≡ some l) × (1 ≤ Option.get_or l.stored_keys 0)

-- A number of keys that covers one key's bits is not zero.
covers-pos : (kb n : ℕ) (x : ℤ) → 0 < kb → some (pos (n * kb)) ≡ some x → pos kb ≤ℤ x → 1 ≤ n
covers-pos kb n x p e le = lem n (omega (arith, subst (λ y. pos kb ≤ℤ y) (sym (some_inj e)) le))
  where
    lem : (n : ℕ) → kb ≤ n * kb → 1 ≤ n
    lem zero h = absurd (omega arith)
    lem (suc n) h = omega arith

view_keys_holds :
    (kb : ℕ) (l : LinkState) (x : ℤ)
    → 0 < kb
    → (view_keys kb l).available_bits ≡ some x
    → pos kb ≤ℤ x
    → 1 ≤ Option.get_or l.stored_keys 0
unfolding view_keys
view_keys_holds kb l x p e le = elim (Option-cases l.gen_bps) [
  | inr (gen, rate) ↦
      covers-pos kb (Option.get_or l.stored_keys 0) x p (rw (rate, view_keys) at e) le
  | inl no_rate ↦ elim (Bool-cases (Option.get_or l.stored_keys 0 == 0)) [
    | inl empty ↦
        let z : some (pos 0) ≡ some x = rw (no_rate, empty, view_keys) at e in
        absurd (omega (arith, subst (λ y. pos kb ≤ℤ y) (sym (some_inj z)) le))
    | inr some_held ↦ ground arith
  ]
]

view_link_holds :
    (lab : Lab) (need : ℕ) (l : LinkState) (x : ℤ)
    → lab.accounting ≡ keys
    → 0 < lab.key_bits
    → (view_link lab need l).available_bits ≡ some x
    → pos lab.key_bits ≤ℤ x
    → 1 ≤ Option.get_or l.stored_keys 0
unfolding view_link
view_link_holds lab need l x counts p e le = elim (Bool-cases l.down) [
  | inl down ↦ let z : none ≡ some x = rw (down, view_link) at e in absurd (cc z)
  | inr up ↦ view_keys_holds lab.key_bits l x p (rw (up, counts, view_link) at e) le
]

view_of_holds :
    (lab : Lab) (need : ℕ) (id : String) (x : ℤ)
    → lab.accounting ≡ keys
    → 0 < lab.key_bits
    → (view_of lab need id).available_bits ≡ some x
    → pos lab.key_bits ≤ℤ x
    → HoldsKey lab.links id
unfolding view_of
view_of_holds lab need id x counts p e le = elim (Option-cases (find_link id lab.links)) [
  | inl gone ↦ let z : none ≡ some x = rw (gone, view_of) at e in absurd (cc z)
  | inr (l, found) ↦ (l, found, view_link_holds lab need l x counts p (rw (found, view_of) at e) le)
]

-- Enough in the bottleneck is a key on every link.
pub enough_holds :
    (lab : Lab) (need : ℕ) (ids : List String)
    → lab.accounting ≡ keys
    → 0 < lab.key_bits
    → not (
        leb_ℤ (pos lab.key_bits) (
          Option.get_or
            (min_or_null (map (λ id. (view_of lab need id).available_bits) ids))
            (pos 0)))
      ≡ false
    → All (HoldsKey lab.links) ids
enough_holds lab need ids counts p e =
    elim (Option-cases (min_or_null (map (λ id. (view_of lab need id).available_bits) ids))) [
      | inl unknown ↦ absurd (none_short (rw unknown at e))
      | inr (m, known) ↦
          each ids m (leb→le _ _ (not_false (rw known at e))) (min_or_null_bounds _ m known)
    ]
  where
    none_short : not (leb_ℤ (pos lab.key_bits) (pos 0)) ≡ false → ⊥
    none_short h = ground arith

    not_false : {b : Bool} → not b ≡ false → b ≡ true
    not_false {b} h = ground arith

    each :
        (ids : List String) (m : ℤ)
        → pos lab.key_bits ≤ℤ m
        → All
            (λ o. (x : ℤ) × (o ≡ some x) × (m ≤ℤ x))
            (map (λ id. (view_of lab need id).available_bits) ids)
        → All (HoldsKey lab.links) ids
    each [] m le a = tt
    each (id ∷ ids) m le ((x, e, at_least), a) =
        (view_of_holds lab need id x counts p e (omega arith), each ids m le a)

-- Taking a key from a link that holds one.
change_link_total :
    (links : List LinkState) (id : String)
    → HoldsKey links id
    → stored_total (change_link id take_key links) + 1 ≡ stored_total links
unfolding change_link stored_total
change_link_total [] id (l, found, h) = absurd (cc found)
change_link_total (l ∷ ls) id (m, found, h) = elim (Bool-cases (str_eq l.id id)) [
  | inl here ↦ rw here (first (rw here at found))
  | inr away ↦ rw away (omega (arith, change_link_total ls id (m, rw away at found, h)))
]
  where
    first :
        some l ≡ some m
        → Option.get_or l.stored_keys 0 - 1 + stored_total ls + 1
          ≡ Option.get_or l.stored_keys 0 + stored_total ls
    first e =
        omega
          (arith, subst (λ (x : LinkState). 1 ≤ Option.get_or x.stored_keys 0) (sym (some_inj e)) h)

-- Links other than the one that changes stay.
pub change_link_other :
    (f : LinkState → LinkState) (links : List LinkState) (id j : String)
    → ((l : LinkState) → (f l).id ≡ l.id)
    → str_eq id j ≡ false
    → find_link j (change_link id f links) ≡ find_link j links
unfolding change_link
change_link_other f [] id j same ne = refl
change_link_other f (l ∷ ls) id j same ne = ground (
  arith,
  same l,
  change_link_other f ls id j same ne,
  eq_iff l.id id,
  eq_iff l.id j,
  eq_iff (f l).id j,
  eq_iff id j,
)

still_hold :
    (links : List LinkState) (id : String) (js : List String)
    → includes js id ≡ false
    → All (HoldsKey links) js
    → All (HoldsKey (change_link id take_key links)) js
unfolding includes
still_hold links id [] ne a = tt
still_hold links id (j ∷ js) ne ((l, found, h), a) = (
  (
    l,
    change_link_other take_key links id j (λ l. refl) (ground (arith, eq_iff id j, eq_iff j id))
        ∙ found,
    h,
  ),
  still_hold links id js (ground arith) a,
)

-- From each link of a list without repetition that holds a key, one key is taken.
pub take_keys_total :
    (ids : List String) (links : List LinkState)
    → AreDistinct ids
    → All (HoldsKey links) ids
    → stored_total (take_keys ids links) + length ids ≡ stored_total links
unfolding take_keys
take_keys_total [] links d a = omega arith
take_keys_total (id ∷ ids) links d a =
    let taken = change_link id take_key links in
    let rest = take_keys_total ids taken d.1 (still_hold links id ids d.0 a.1) in
    omega (arith, rest, change_link_total links id a.0)
