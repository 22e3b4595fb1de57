-- ===== src/Lab/Relayed.antt =====
-- A round of a refill of the protocol lab (protocolLabSim.ts) that relays a key costs one key on each hop.
use Prim.Native.Nat.{Ordering}
use pqc_qkd_hybrid_network.Base.{
  ℕ, ◌+◌, ◌<◌, ◌≡◌, sym, subst, inl, inr, String, false, some, All, Bool-cases, Option-cases,
}
use pqc_qkd_hybrid_network.Routing.Graph.{SimplePath}
use pqc_qkd_hybrid_network.Routing.Rank.{RouteChoice, describe_route}
use pqc_qkd_hybrid_network.Routing.Distinct.{IsNamed, IsSimplePath-AreDistinct}
use pqc_qkd_hybrid_network.Routing.Paths.{IsSimplePath}
use pqc_qkd_hybrid_network.Routing.Choice.{down_of, IsSafeRoute}
use pqc_qkd_hybrid_network.Lab.Links.{keys}
use pqc_qkd_hybrid_network.Lab.Generate.{Params, stored_total}
use pqc_qkd_hybrid_network.Lab.Routes.{view_of, routable, graph_of}
use pqc_qkd_hybrid_network.Lab.Choose.{choose_route}
use pqc_qkd_hybrid_network.Lab.State.{Sim, Platform, relay_key}
use pqc_qkd_hybrid_network.Lab.Stream.{
  reroute, is_short, is_low, take_keys, relay_over, Round, relays_one, refill_round,
}
use pqc_qkd_hybrid_network.Lab.Rerouting.{choose_route-IsSafe}
use pqc_qkd_hybrid_network.Lab.Conserved.{HoldsKey, enough_holds, take_keys_total}

module _ (collate : String → String → Ordering) (s : Sim) (counts : s.lab.accounting ≡ keys)
    (sized : 0 < s.lab.key_bits) (named : IsNamed (routable s.lab.links)) where
  -- A route with a key's bits in its bottleneck.
  abbrev IsPaid : RouteChoice → Type 0
  IsPaid r =
      All (HoldsKey s.lab.links) r.link_ids
      × (stored_total (take_keys r.link_ids s.lab.links) + r.hops ≡ stored_total s.lab.links)

  described-IsPaid :
      (need : ℕ) (path : SimplePath)
      → IsSimplePath
          (graph_of s.lab)
          (down_of (graph_of s.lab) (view_of s.lab need) s.lab.down_nodes)
          s.lab.demand_from
          s.lab.demand_to
          path
      → is_short s.lab.key_bits (describe_route (view_of s.lab need) path) ≡ false
      → IsPaid (describe_route (view_of s.lab need) path)
  unfolding describe_route
  described-IsPaid need path simple long =
      let held = enough_holds s.lab need path.link_ids counts sized long in
      let apart =
        IsSimplePath-AreDistinct (graph_of s.lab) _ s.lab.demand_from s.lab.demand_to path named
          simple in
      (held, take_keys_total path.link_ids s.lab.links apart held)

  safe-IsPaid :
      (need : ℕ) (r : RouteChoice)
      → IsSafeRoute
          (graph_of s.lab)
          s.lab.demand_from
          s.lab.demand_to
          (view_of s.lab need)
          s.lab.down_nodes
          r
      → is_short s.lab.key_bits r ≡ false
      → IsPaid r
  safe-IsPaid need r safe long = subst IsPaid (sym safe.described) (
      described-IsPaid need safe.path safe.simple
        (subst (λ (x : RouteChoice). is_short s.lab.key_bits x ≡ false) safe.described long))

  module _ (p : Params) (w : Platform) where
    -- What a relay takes, with the route and the stores before it.
    abbrev IsCost : Sim → Type 0
    IsCost t =
        (r : RouteChoice) × (t.lab.route ≡ some r)
        × All (HoldsKey s.lab.links) r.link_ids
        × (stored_total t.lab.links + r.hops ≡ stored_total s.lab.links)

    abbrev IsCostRound : Round → Type 0
    IsCostRound (relays_one t) = IsCost t
    IsCostRound _ = Unit

    refill_round-IsCostRound : (k : String) → IsCostRound (refill_round p collate w k s)
    unfolding refill_round reroute choose_route relay_over relay_key
    refill_round-IsCostRound k =
        let t = reroute collate s.lab.key_bits s in
        elim (Bool-cases (is_low p s.km k)) [
          | inr high ↦ rw high tt
          | inl low ↦ elim (Option-cases t.lab.route) [
            | inl gone ↦ rw (low, gone) tt
            | inr (r, found) ↦ elim (Bool-cases (is_short s.lab.key_bits r)) [
              | inl short ↦ rw (low, found, short) tt
              | inr long ↦
                  let paid =
                    safe-IsPaid s.lab.key_bits r
                      (choose_route-IsSafe collate s.lab s.lab.key_bits r found).0 long in
                  rw (low, found, long) (r, found, paid.0, paid.1)
            ]
          ]
        ]

    -- A round that relays a key finds one on each link of the route that it takes, and leaves the links
    -- with one key fewer for each hop of that route: no store is overdrawn and no key is lost. The
    -- simulator counts keys and its links have identifiers of their own.
    pub refill_round_conserves :
        (k : String) (t : Sim) → refill_round p collate w k s ≡ relays_one t → IsCost t
    refill_round_conserves k t e = subst IsCostRound e (refill_round-IsCostRound k)
