-- ===== src/Lab/Avoids.antt =====
-- After a failure that is injected into the protocol lab (protocolLabSim.ts), no route crosses the link.
use Prim.Native.Nat.{Ordering}
use mathlib.Core.Option
use pqc_qkd_hybrid_network.Base.{
  ℕ, ◌≡◌, refl, sym, ap, ◌∙◌, inl, inr, String, true, false, Option, some, List, [], ◌∷◌, All,
  str_eq, eq_iff, Bool-cases,
}
use pqc_qkd_hybrid_network.Routing.Graph.{includes}
use pqc_qkd_hybrid_network.Routing.Graph.{SimplePath}
use pqc_qkd_hybrid_network.Routing.Rank.{LinkView, RouteChoice, describe_route}
use pqc_qkd_hybrid_network.Routing.Choice.{IsSafeRoute}
use pqc_qkd_hybrid_network.Lab.Links.{
  DownReason, by_link, outage, LinkState, LinkReason, at_link, change_link, fail_link, inject,
}
use pqc_qkd_hybrid_network.Lab.Routes.{Lab, find_link, view_link, view_of, graph_of}
use pqc_qkd_hybrid_network.Lab.State.{Sim}
use pqc_qkd_hybrid_network.Lab.Stream.{reroute}
use pqc_qkd_hybrid_network.Lab.Choose.{choose_route}
use pqc_qkd_hybrid_network.Lab.Rerouting.{choose_route-IsSafe}
use pqc_qkd_hybrid_network.Lab.Generate.{Params}
use pqc_qkd_hybrid_network.Lab.State.{Platform}
use pqc_qkd_hybrid_network.Lab.Control.{on_network, pend, failure_text, inject_failure}

find_link-fail :
    (why : DownReason) (id : String) (links : List LinkState) (l : LinkState)
    → find_link id links ≡ some l
    → find_link id (change_link id (fail_link why) links) ≡ some (fail_link why l)
unfolding change_link
find_link-fail why id [] l e = absurd (cc e)
find_link-fail why id (m ∷ ms) l e = elim (Bool-cases (str_eq m.id id)) [
  | inl here ↦ rw here (rw here (ap (Option.map (fail_link why)) (rw here at e)))
  | inr away ↦ rw away (rw away (find_link-fail why id ms l (rw away at e)))
]

down_is_not_up :
    (lab : Lab) (need : ℕ) (id : String) (l : LinkState)
    → find_link id lab.links ≡ some l
    → l.down ≡ true
    → (view_of lab need id).up ≡ false
unfolding view_of view_link
down_is_not_up lab need id l found down = rw (found, view_of) (rw (down, view_link) refl)

up_avoids :
    (lab : Lab) (need : ℕ) (id : String) (ids : List String)
    → (view_of lab need id).up ≡ false
    → All (λ i. (view_of lab need i).up ≡ true) ids
    → includes ids id ≡ false
unfolding includes
up_avoids lab need id [] off a = refl
up_avoids lab need id (i ∷ is) off a = elim (Bool-cases (str_eq i id)) [
  | inl same ↦ absurd (cc (a.0, off, (eq_iff i id).0 same))
  | inr other ↦ rw other (up_avoids lab need id is off a.1)
]

-- The simulator once a link has failed, before the route is chosen again.
abbrev failed_link : String → Option LinkReason → Sim → Sim
failed_link id why s = pend (failure_text (at_link id why)) (on_network (inject (at_link id why)) s)

safe_avoids :
    (lab : Lab) (need : ℕ) (id : String) (l : LinkState) (r : RouteChoice)
    → find_link id lab.links ≡ some l
    → l.down ≡ true
    → IsSafeRoute (graph_of lab) lab.demand_from lab.demand_to (view_of lab need) lab.down_nodes r
    → includes r.link_ids id ≡ false
unfolding describe_route
safe_avoids lab need id l r known down safe =
    ap (λ (x : RouteChoice). includes x.link_ids id) safe.described
    ∙ described_ids (view_of lab need) safe.path
    ∙ up_avoids lab need id safe.path.link_ids (down_is_not_up lab need id l known down) safe.up
  where
    described_ids :
        (view : String → LinkView) (path : SimplePath)
        → includes (describe_route view path).link_ids id ≡ includes path.link_ids id
    described_ids view path = refl

module _ (p : Params) (collate : String → String → Ordering) (w : Platform) where
  route_after_failure :
      (id : String) (why : Option LinkReason) (s : Sim) (l : LinkState)
      → find_link id s.lab.links ≡ some l
      → (inject_failure p collate w (at_link id why) s).lab
        ≡ choose_route collate (failed_link id why s).lab s.lab.key_bits
  unfolding inject_failure reroute
  route_after_failure id why s l known = rw known refl

  failed_is_down :
      (id : String) (why : Option LinkReason) (s : Sim) (l : LinkState)
      → find_link id s.lab.links ≡ some l
      → find_link id (failed_link id why s).lab.links
        ≡ some (fail_link (by_link (Option.get_or why outage)) l)
  unfolding inject
  failed_is_down id why s l known = find_link-fail _ id s.lab.links l known

  -- Once a link of the network has been made to fail, the route that is chosen again, if there is one,
  -- does not cross that link.
  pub inject_failure_avoids :
      (id : String) (why : Option LinkReason) (s : Sim) (l : LinkState) (r : RouteChoice)
      → find_link id s.lab.links ≡ some l
      → (inject_failure p collate w (at_link id why) s).lab.route ≡ some r
      → includes r.link_ids id ≡ false
  inject_failure_avoids id why s l r known e =
      let failed = (failed_link id why s).lab in
      let chosen = sym (ap (λ (x : Lab). x.route) (route_after_failure id why s l known)) ∙ e in
      safe_avoids failed s.lab.key_bits id _ r (failed_is_down id why s l known) refl
        (choose_route-IsSafe collate failed s.lab.key_bits r chosen).0
