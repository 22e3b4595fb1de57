-- ===== src/Lab/Lively.antt =====
-- A refill that reaches the watermark lets the protocol lab (protocolLabSim.ts) serve what is due.
use Prim.Native.Nat.{Ordering}
use pqc_qkd_hybrid_network.Base.{
  ℕ, ◌+◌, ◌/◌, ◌≤◌, ◌≡◌, sym, ap, subst, ◌∙◌, String, true, false, not, some, none, arith,
}
use pqc_qkd_hybrid_network.Base.Int.{pos, sub_ℕ, leb_ℤ}
use pqc_qkd_hybrid_network.Etsi004.Stream.{side_a, established, is_state, Stream}
use pqc_qkd_hybrid_network.Etsi004.Supply.{undelivered_known}
use pqc_qkd_hybrid_network.Lab.Generate.{Params}
use pqc_qkd_hybrid_network.Lab.State.{Sim, Platform, is_some}
use pqc_qkd_hybrid_network.Lab.Stream.{at_watermark, refill_known}
use pqc_qkd_hybrid_network.Lab.Consume.{due_credit, consume_stream}
use pqc_qkd_hybrid_network.Lab.Refilled.{HasEnded, refill_known-IsRefilled}
use pqc_qkd_hybrid_network.Lab.Served.{IsInStep}
use pqc_qkd_hybrid_network.Lab.Counted.{consume_stream_serves}

room :
    (chunks read n low : ℕ)
    → not (leb_ℤ (pos low) (sub_ℕ chunks read)) ≡ false
    → n ≤ low
    → read + n ≤ chunks
room chunks read n low full small = ground arith

module _ (w : Platform) where
  -- When a refill on a stream that both sides have read in step reaches the watermark, with a route, a
  -- tick whose requests are at most the watermark serves every one of them.
  pub refill_serves :
      (p : Params) (collate : String → String → Ordering) (s : Sim) (k : String) (st : Stream)
      → IsInStep k s.km st
      → let r = refill_known p collate w k s in
        r.end ≡ at_watermark
        → r.sim.ksid ≡ some k
        → is_some r.sim.lab.route ≡ true
        → due_credit r.sim / 1000 ≤ p.low_watermark
        → let c = consume_stream w r.sim in
          (c.served ≡ c.requested) × (c.unmet ≡ 0) × (c.why ≡ none)
  refill_serves p collate s k st h full known up small =
      let r = refill_known p collate w k s in
      let filled =
        refill_known-IsRefilled p collate w k s st h.there
          (ap (λ x. is_state x established) h.live) in
      let next : IsInStep k r.sim.km filled.after = record {
        there = filled.there;
        live = filled.state ∙ h.live;
        in_step =
            ap (λ d. d.on_b) filled.delivered ∙ h.in_step ∙ ap (λ d. d.on_a) (sym filled.delivered);
      } in
      consume_stream_serves w r.sim k filled.after known next up (
        room _ _ _ p.low_watermark
          (subst (λ z. not (leb_ℤ (pos p.low_watermark) z) ≡ false)
            (undelivered_known r.sim.km k side_a filled.after filled.there)
            (subst (HasEnded p k r.sim) full filled.ended))
          small)
