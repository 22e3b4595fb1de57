-- ===== src/Lab/StoresTick.antt =====
-- A tick of a run with stores (protocolLabSim.ts) keeps every store above its threshold.
use Prim.Native.Nat.{Ordering}
use mathlib.Core.Option
use pqc_qkd_hybrid_network.Base.{
  ℕ, ◌*◌, ◌≡◌, refl, sym, ap, subst, ◌∙◌, inl, inr, String, true, List, [], ◌∷◌, if◌then◌else◌, All,
  arith, Bool-cases, Option-cases, Option-split, some_inj,
}
use pqc_qkd_hybrid_network.Base.Int.{ℤ, pos, add_ℤ, ◌≤ℤ◌}
use pqc_qkd_hybrid_network.Routing.Distinct.{IsNamed}
use pqc_qkd_hybrid_network.Lab.Links.{stores, LinkState}
use pqc_qkd_hybrid_network.Lab.Routes.{routable}
use pqc_qkd_hybrid_network.Lab.Choose.{choose_route}
use pqc_qkd_hybrid_network.Lab.Rerouting.{choose_route-IsSafe}
use pqc_qkd_hybrid_network.Lab.Scenario.{Generation, StoresRun}
use pqc_qkd_hybrid_network.Lab.State.{
  Sim, Platform, is_some, time_s, log, note, note_route, note_relay, relay_key,
}
use pqc_qkd_hybrid_network.Lab.Stream.{reroute}
use pqc_qkd_hybrid_network.Lab.Tick.{Ticked}
use pqc_qkd_hybrid_network.Lab.Modes.{
  generates, add_bits, generate_stores, generate_stores_part, deliver_stores, refuse_stores,
  tick_stores,
}
use pqc_qkd_hybrid_network.Lab.Stores.{IsAbove, safe_draw-IsAbove}

module _ (t need : ℕ) (generation : List (String × Generation)) where
  abbrev made : LinkState → LinkState
  made l = if generates t generation l then add_bits need l else l

  routable-generate :
      (ls : List LinkState) → routable (generate_stores t need generation ls) ≡ routable ls
  unfolding generate_stores routable
  routable-generate [] = refl
  routable-generate (l ∷ ls) = elim (Bool-cases (generates t generation l)) [
    | inl on ↦ rw (on, routable-generate ls) refl
    | inr off ↦ rw (off, routable-generate ls) refl
  ]

  add_bits-IsAbove :
      (l : LinkState) → is_some l.stored_bits ≡ true → IsAbove l → IsAbove (add_bits need l)
  add_bits-IsAbove l has h b t' e f = elim (Option-cases l.stored_bits) [
    | inl none_stored ↦ absurd (cc (rw none_stored at has))
    | inr (b0, stored) ↦
        let grown : add_ℤ b0 (pos need) ≡ b =
          ap (λ o. add_ℤ (Option.get_or o (pos 0)) (pos need)) (sym stored) ∙ some_inj e in
        subst (λ x. t' ≤ℤ x) grown (more b0 t' (h b0 t' stored f))
  ]
    where
      more : (b t : ℤ) → t ≤ℤ b → t ≤ℤ add_ℤ b (pos need)
      more b t h = ground arith

  generates_stored :
      (l : LinkState) → generates t generation l ≡ true → is_some l.stored_bits ≡ true
  unfolding generates
  generates_stored l e = ground arith

  made-IsAbove : (l : LinkState) → IsAbove l → IsAbove (made l)
  made-IsAbove l h = elim (Bool-cases (generates t generation l)) [
    | inl on ↦ rw on (add_bits-IsAbove l (generates_stored l on) h)
    | inr off ↦ rw off h
  ]

  generate_stores-IsAbove :
      (ls : List LinkState) → All IsAbove ls → All IsAbove (generate_stores t need generation ls)
  unfolding generate_stores
  generate_stores-IsAbove [] a = tt
  generate_stores-IsAbove (l ∷ ls) a = (made-IsAbove l a.0, generate_stores-IsAbove ls a.1)

module _ (collate : String → String → Ordering) (w : Platform) where
  -- A tick of a run with stores draws from no store below its threshold: where every store is at or above
  -- its threshold before, it is so after. The links have identifiers of their own.
  pub tick_stores-IsAbove :
      (run : StoresRun) (s : Sim)
      → s.lab.accounting ≡ stores
      → IsNamed (routable s.lab.links)
      → All IsAbove s.lab.links
      → All IsAbove (tick_stores collate w run s).sim.lab.links
  unfolding tick_stores generate_stores_part deliver_stores refuse_stores reroute choose_route log
      note note_route note_relay relay_key
  tick_stores-IsAbove run s counts named above =
      let need = run.rate_bps * s.lab.tick_s in
      let g = generate_stores_part run need s in
      let made_above = generate_stores-IsAbove (time_s s) need run.generation s.lab.links above in
      let still_named : IsNamed (routable g.lab.links) =
        subst IsNamed (sym (routable-generate (time_s s) need run.generation s.lab.links)) named in
      Option-split (λ (t : Ticked). All IsAbove t.sim.lab.links)
        (choose_route collate g.lab need).route _ _ (λ gone. made_above)
        (λ r found.
          safe_draw-IsAbove g.lab need r counts still_named
            (choose_route-IsSafe collate g.lab need r found).0 made_above)
