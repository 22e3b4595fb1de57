-- ===== src/Routing/Distinct.antt =====
-- A simple path (routing.ts) crosses no link twice.
use mathlib.Core.List.{Memᴰ}
use pqc_qkd_hybrid_network.Base.{
  ◌≡◌, sym, ap, ◌∙◌, inl, inr, String, true, List, [], ◌∷◌, map, arith, str_eq, eq_iff, Bool-cases,
}
use pqc_qkd_hybrid_network.Routing.Graph.{Link, Graph, Down, SimplePath, Edge, includes}
use pqc_qkd_hybrid_network.Routing.Hops.{Joins}
use pqc_qkd_hybrid_network.Routing.Paths.{IsChain, AreDistinct, IsSimplePath}

-- No two links share an identifier.
abbrev pub IsNamed : List Link → Type 0
IsNamed links = AreDistinct (map (λ l. l.id) links)

Memᴰ-includes :
    (l : Link) (links : List Link) → Memᴰ l links → includes (map (λ x. x.id) links) l.id ≡ true
unfolding includes
Memᴰ-includes l [] h = elim h [ ]
Memᴰ-includes l (m ∷ ms) (Memᴰ.head e) =
    let same = ap (λ (x : Link). x.id) e in ground (arith, eq_iff m.id l.id)
Memᴰ-includes l (m ∷ ms) (Memᴰ.tail h) = ground (arith, Memᴰ-includes l ms h)

-- So one identifier is one link.
named_same :
    (l m : Link) (links : List Link)
    → IsNamed links
    → Memᴰ l links
    → Memᴰ m links
    → l.id ≡ m.id
    → l ≡ m
named_same l m [] u p q e = elim p [ ]
named_same l m (x ∷ xs) u (Memᴰ.head p) (Memᴰ.head q) e = p ∙ sym q
named_same l m (x ∷ xs) u (Memᴰ.head p) (Memᴰ.tail q) e =
    let again = Memᴰ-includes m xs q in
    let same = e in
    cc (
      u.0,
      again,
      ap (λ (y : Link). includes (map (λ z. z.id) xs) y.id) p,
      ap (includes (map (λ z. z.id) xs)) e,
    )
named_same l m (x ∷ xs) u (Memᴰ.tail p) (Memᴰ.head q) e =
    let again = Memᴰ-includes l xs p in
    cc (
      u.0,
      again,
      ap (λ (y : Link). includes (map (λ z. z.id) xs) y.id) q,
      ap (includes (map (λ z. z.id) xs)) e,
    )
named_same l m (x ∷ xs) u (Memᴰ.tail p) (Memᴰ.tail q) e = named_same l m xs u.1 p q e

module _ (down : Down) (links : List Link) (dst : String) where
  -- A link of a chain, with both of its ends among the nodes of the chain.
  record HasLink (nodes : List String) (id : String) : Type 0 where
    link : Link
    listed : Memᴰ link links
    named : link.id ≡ id
    starts : includes nodes link.a ≡ true
    ends : includes nodes link.b ≡ true

  later :
      (n : String) (nodes : List String) (id : String) → HasLink nodes id → HasLink (n ∷ nodes) id
  unfolding includes
  later n nodes id h = record {
    link = h.link;
    listed = h.listed;
    named = h.named;
    starts = ground (arith, h.starts);
    ends = ground (arith, h.ends);
  }

  hop_ends :
      (at n : String) (ns : List String) (l : Link)
      → Joins l at n
      → (includes (at ∷ n ∷ ns) l.a ≡ true) × (includes (at ∷ n ∷ ns) l.b ≡ true)
  unfolding includes
  hop_ends at n ns l (inl (p, q)) = ground (arith, eq_iff at l.a, eq_iff n l.b)
  hop_ends at n ns l (inr (p, q)) = ground (arith, eq_iff at l.b, eq_iff n l.a)

  IsChain-HasLink :
      (at : String) (ns is : List String) (id : String)
      → IsChain down links dst at ns is
      → includes is id ≡ true
      → HasLink (at ∷ ns) id
  unfolding includes
  IsChain-HasLink at [] [] id c h = absurd (cc h)
  IsChain-HasLink at [] (i ∷ is) id c h = absurd c
  IsChain-HasLink at (n ∷ ns) [] id c h = absurd c
  IsChain-HasLink at (n ∷ ns) (i ∷ is) id (hop, c) h = elim (Bool-cases (str_eq i id)) [
    | inl here ↦
        let e : i ≡ id = (eq_iff i id).0 here in
        let ends = hop_ends at n ns hop.link hop.joins in
        record {
          link = hop.link;
          listed = hop.listed;
          named = sym (ap (λ (x : Edge). x.id) hop.named) ∙ e;
          starts = ends.0;
          ends = ends.1;
        }
    | inr there ↦ later at (n ∷ ns) id (IsChain-HasLink n ns is id c (ground arith))
  ]

  IsChain-AreDistinct :
      (at : String) (ns is : List String)
      → IsNamed links
      → IsChain down links dst at ns is
      → AreDistinct (at ∷ ns)
      → AreDistinct is
  IsChain-AreDistinct at [] [] u c d = tt
  IsChain-AreDistinct at [] (i ∷ is) u c d = absurd c
  IsChain-AreDistinct at (n ∷ ns) [] u c d = absurd c
  IsChain-AreDistinct at (n ∷ ns) (i ∷ is) u (hop, c) d = (
    elim (Bool-cases (includes is i)) [
      | inr new ↦ new
      | inl again ↦ absurd (crossed (IsChain-HasLink n ns is i c again))
    ],
    IsChain-AreDistinct n ns is u c d.1,
  )
    where
      crossed : HasLink (n ∷ ns) i → ⊥
      crossed h =
          let same =
            named_same h.link hop.link links u h.listed hop.listed
              (h.named ∙ ap (λ (x : Edge). x.id) hop.named) in
          elim hop.joins [
            | inl (p, q) ↦ cc (
              d.0,
              h.starts,
              ap (λ (x : Link). includes (n ∷ ns) x.a) same,
              ap (includes (n ∷ ns)) p,
            )
            | inr (p, q) ↦ cc (
              d.0,
              h.ends,
              ap (λ (x : Link). includes (n ∷ ns) x.b) same,
              ap (includes (n ∷ ns)) p,
            )
          ]

-- In a graph whose links have names of their own, a simple path crosses no link twice.
pub IsSimplePath-AreDistinct :
    (g : Graph) (down : Down) (src dst : String) (path : SimplePath)
    → IsNamed g.links
    → IsSimplePath g down src dst path
    → AreDistinct path.link_ids
IsSimplePath-AreDistinct g down src dst path u s =
    IsChain-AreDistinct down g.links dst src s.rest path.link_ids u s.chain s.distinct
