-- ===== src/Lab/Failures.antt =====
-- What the failures and repairs of the protocol lab (protocolLabSim.ts) keep.
use pqc_qkd_hybrid_network.Base.{
  ◌≡◌, refl, sym, ap, ◌∙◌, inl, inr, String, Bool, true, not, ◌&&◌, ◌||◌, Option, none, some, List,
  [], ◌∷◌, ◌++◌, map, All, str_eq, eq_iff, arith, Bool-cases,
}
use pqc_qkd_hybrid_network.Routing.Graph.{includes}
use pqc_qkd_hybrid_network.Lab.Links.{
  LinkState, FailureTarget, at_link, at_node, Network, touches, change_link, add_node, delete_node,
  fail_at, inject, repair_link, is_node_down, has_reason, restore_link, repair_at, clear,
}

-- One end of the link is a node that is down.
abbrev pub is_cut : List String → LinkState → Bool
is_cut down_nodes l = includes down_nodes l.a || includes down_nodes l.b

-- A link with an end that is down is down; a link is down exactly when it has a reason; and only a link
-- with an end that is down is down for its node.
pub record IsFailed (down_nodes : List String) (l : LinkState) : Type 0 where
  pub cut : is_cut down_nodes l ≡ true → l.down ≡ true
  pub known : l.down ≡ has_reason l.down_reason
  pub meant : is_node_down l.down_reason ≡ true → is_cut down_nodes l ≡ true

abbrev pub IsConsistent : Network → Type 0
IsConsistent n = All (IsFailed n.down_nodes) n.links

includes-snoc :
    (ns : List String) (id x : String) → includes (ns ++ id ∷ []) x ≡ (includes ns x || str_eq id x)
unfolding includes
includes-snoc [] id x = ground arith
includes-snoc (n ∷ ns) id x = ground (arith, includes-snoc ns id x)

includes-add_node :
    (id x : String) (ns : List String)
    → includes (add_node id ns) x ≡ (includes ns x || str_eq id x)
unfolding add_node
includes-add_node id x ns = elim (Bool-cases (includes ns id)) [
  | inl there ↦ rw there (ground (arith, eq_iff id x, ap (includes ns)))
  | inr new ↦ rw new (includes-snoc ns id x)
]

includes-delete_node :
    (id x : String) (ns : List String)
    → includes (delete_node id ns) x ≡ (includes ns x && not (str_eq id x))
unfolding delete_node includes
includes-delete_node id x [] = refl
includes-delete_node id x (n ∷ ns) =
    ground (arith, includes-delete_node id x ns, eq_iff n id, eq_iff id x, eq_iff n x)

module _ (down_nodes : List String) where
  change_link-All :
      (id : String) (f : LinkState → LinkState) (ls : List LinkState)
      → ((l : LinkState) → IsFailed down_nodes l → IsFailed down_nodes (f l))
      → All (IsFailed down_nodes) ls
      → All (IsFailed down_nodes) (change_link id f ls)
  unfolding change_link
  change_link-All id f [] h a = tt
  change_link-All id f (l ∷ ls) h a = elim (Bool-cases (str_eq l.id id)) [
    | inl hit ↦ rw hit (h l a.0, a.1)
    | inr miss ↦ rw miss (a.0, change_link-All id f ls h a.1)
  ]

  map-IsFailed :
      (left : List String) (f : LinkState → LinkState) (ls : List LinkState)
      → ((l : LinkState) → IsFailed down_nodes l → IsFailed left (f l))
      → All (IsFailed down_nodes) ls
      → All (IsFailed left) (map f ls)
  map-IsFailed left f [] h a = tt
  map-IsFailed left f (l ∷ ls) h a = (h l a.0, map-IsFailed left f ls h a.1)

  fail_at-IsFailed :
      (id : String) (l : LinkState)
      → IsFailed down_nodes l
      → IsFailed (add_node id down_nodes) (fail_at id l)
  fail_at-IsFailed id l h =
      let a = includes-add_node id l.a down_nodes in
      let b = includes-add_node id l.b down_nodes in
      let p = eq_iff l.a id in
      let q = eq_iff id l.a in
      let r = eq_iff l.b id in
      let s = eq_iff id l.b in
      elim (Bool-cases (touches id l)) [
        | inl hit ↦ rw hit (record { cut = λ _. refl; known = refl; meant = λ _. ground arith })
        | inr miss ↦
            let c = h.cut in
            let m = h.meant in
            rw miss (record {
              cut = λ e. c (ground arith);
              known = h.known;
              meant = λ e. ground (arith, m e);
            })
      ]

  repair_link-IsFailed :
      (l : LinkState) → IsFailed down_nodes l → IsFailed down_nodes (repair_link down_nodes l)
  unfolding repair_link
  repair_link-IsFailed l h = elim (Bool-cases (is_cut down_nodes l)) [
    | inl still ↦ rw still (record { cut = λ _. refl; known = refl; meant = λ _. still })
    | inr free ↦
        rw free (record { cut = λ e. sym free ∙ e; known = refl; meant = λ e. absurd (cc e) })
  ]

  repair_at-IsFailed :
      (id : String) (l : LinkState)
      → IsFailed down_nodes l
      → IsFailed (delete_node id down_nodes) (repair_at id (delete_node id down_nodes) l)
  unfolding repair_at
  repair_at-IsFailed id l h =
      let left = delete_node id down_nodes in
      let a = includes-delete_node id l.a down_nodes in
      let b = includes-delete_node id l.b down_nodes in
      let p = eq_iff l.a id in
      let q = eq_iff id l.a in
      let r = eq_iff l.b id in
      let s = eq_iff id l.b in
      let c = h.cut in
      let m = h.meant in
      elim (Bool-cases (
        touches id l
        && (is_node_down l.down_reason && (not (includes left l.a) && not (includes left l.b))))) [
          | inl hit ↦
              rw hit (record { cut = λ e. ground arith; known = refl; meant = λ e. absurd (cc e) })
          | inr miss ↦ rw miss (record {
            cut = λ e. c (ground arith);
            known = h.known;
            meant = λ e. ground (arith, m e);
          })
        ]

inject-IsConsistent : (n : Network) (t : FailureTarget) → IsConsistent n → IsConsistent (inject t n)
unfolding inject
inject-IsConsistent n (at_link id why) h =
    change_link-All n.down_nodes id _ n.links
      (λ l f. record { cut = λ _. refl; known = refl; meant = λ e. absurd (cc e) }) h
inject-IsConsistent n (at_node id) h =
    map-IsFailed n.down_nodes (add_node id n.down_nodes) (fail_at id) n.links
      (fail_at-IsFailed n.down_nodes id) h

clear-IsConsistent :
    (n : Network) (u : Option FailureTarget) → IsConsistent n → IsConsistent (clear u n)
unfolding clear includes
clear-IsConsistent n none h =
    map-IsFailed n.down_nodes [] restore_link n.links
      (λ l f. record { cut = λ e. absurd (cc e); known = refl; meant = λ e. absurd (cc e) }) h
clear-IsConsistent n (some (at_link id why)) h =
    change_link-All n.down_nodes id _ n.links (repair_link-IsFailed n.down_nodes) h
clear-IsConsistent n (some (at_node id)) h =
    map-IsFailed n.down_nodes (delete_node id n.down_nodes) _ n.links
      (repair_at-IsFailed n.down_nodes id) h

-- Every failure that is injected and every repair keeps the links consistent with the nodes that are
-- down: a link with an end that is down is down, a link is down exactly when it has a reason, and it is
-- down for its node only with an end that is down.
pub failures-IsConsistent :
    (n : Network) (t : FailureTarget) (u : Option FailureTarget)
    → IsConsistent n
    → IsConsistent (inject t n) × IsConsistent (clear u n)
failures-IsConsistent n t u h = (inject-IsConsistent n t h, clear-IsConsistent n u h)
