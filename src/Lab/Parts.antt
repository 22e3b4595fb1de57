-- ===== src/Lab/Parts.antt =====
-- The parts of a tick that counts keys (protocolLabSim.ts) trace what the pipeline of the mode says.
use Prim.Native.Nat.{Ordering}
use pqc_qkd_hybrid_network.Base.{
  ℕ, String, ◌/◌, ◌%◌, refl, Bool, [], ◌∷◌, ltb, ◌==◌, if◌then◌else◌, if_both, Option-both,
}
use pqc_qkd_hybrid_network.Etsi004.Km.{is_established}
use pqc_qkd_hybrid_network.Lab.Generate.{Params}
use pqc_qkd_hybrid_network.Lab.Links.{keys}
use pqc_qkd_hybrid_network.Lab.Records.{generate, stream, relay, deliver, tick_pipeline}
use pqc_qkd_hybrid_network.Lab.State.{Sim, Platform}
use pqc_qkd_hybrid_network.Lab.Stream.{open_stream, refill_stream, RefillEnd, waiting_for, Refill}
use pqc_qkd_hybrid_network.Lab.Consume.{
  Reads, log_served, log_failed, refuse_all, read_all, Consumed, due_credit, consume_stream,
}
use pqc_qkd_hybrid_network.Lab.Tick.{
  generate_part, stream_part, note_unrelayed, note_refill, note_consumed, tick_keys,
}
use pqc_qkd_hybrid_network.Lab.Traces.{
  Traces, ◌⨾◌, silent, log-Traces, note-Traces, note_route-Traces, note_relay-Traces, owed-Traces,
  reroute-Traces,
}
use pqc_qkd_hybrid_network.Lab.Pipeline.{open_stream-Traces, refill_stream-Traces}

log_served-Traces : (r : Reads) (bits : ℕ) (s : Sim) → Traces [] s (log_served r bits s)
unfolding log_served
log_served-Traces r bits s =
    if_both (Traces [] s) (ltb 0 r.served) _ _ (silent s _ refl ⨾ log-Traces _ _ _ _ _)
      (silent s s refl)

log_failed-Traces : (r : Reads) (missed : ℕ) (s : Sim) → Traces [] s (log_failed r missed s)
unfolding log_failed
log_failed-Traces r missed s =
    Option-both (Traces [] s) r.failed _ _ (silent s s refl)
      (λ f. silent s _ refl ⨾ log-Traces _ _ _ _ _)

refuse_all-Traces : (n : ℕ) (s : Sim) → Traces [] s (refuse_all n s).sim
unfolding refuse_all
refuse_all-Traces n s = silent s _ refl ⨾ log-Traces _ _ _ _ _

module _ (w : Platform) where
  read_all-Traces : (n : ℕ) (k : String) (s : Sim) → Traces [] s (read_all w n k s).sim
  unfolding read_all
  read_all-Traces n k s = silent s _ refl ⨾ log_served-Traces _ _ _ ⨾ log_failed-Traces _ _ _

  pub consume_stream-Traces : (s : Sim) → Traces [] s (consume_stream w s).sim
  unfolding consume_stream
  consume_stream-Traces s =
      let n = due_credit s / 1000 in
      let s' : Sim = record s { demand_credit = due_credit s % 1000 } in
      let owed : Traces [] s s' = owed-Traces (due_credit s) s in
      if_both (λ (x : Consumed). Traces [] s x.sim) (n == 0) _ _ owed
        (Option-both (λ (x : Consumed). Traces [] s x.sim) s.ksid _ _
          (owed ⨾ refuse_all-Traces n s') (λ k. owed ⨾ read_all-Traces n k s'))

  stream_part-Traces : (s : Sim) → Traces (stream ∷ []) s (stream_part w s)
  unfolding stream_part
  stream_part-Traces s =
      let opened = if is_established s.km s.ksid then s else open_stream w s in
      let first : Traces [] s opened =
        if_both (Traces [] s) (is_established s.km s.ksid) _ _ (silent s s refl)
          (open_stream-Traces w s) in
      if_both (Traces (stream ∷ []) s) (is_established opened.km opened.ksid) _ _
        (first ⨾ note-Traces stream _ _ _) (first ⨾ note-Traces stream _ _ _)

generate_part-Traces : (p : Params) (s : Sim) → Traces (generate ∷ []) s (generate_part p s)
unfolding generate_part
generate_part-Traces p s = silent s _ refl ⨾ note-Traces generate _ _ _

note_consumed-Traces : (r : Consumed) → Traces (deliver ∷ []) r.sim (note_consumed r)
unfolding note_consumed
note_consumed-Traces r =
    let P = Traces (deliver ∷ []) r.sim in
    if_both P (r.requested == 0) _ _ (note-Traces deliver _ _ _) (
      if_both P (r.served == r.requested) _ _ (note-Traces deliver _ _ _)
        (if_both P (ltb 0 r.served) _ _ (note-Traces deliver _ _ _) (note-Traces deliver _ _ _)))

note_unrelayed-Traces :
    (established : Bool) (e : RefillEnd) (s : Sim)
    → Traces (relay ∷ []) s (note_unrelayed established e s)
unfolding note_unrelayed
note_unrelayed-Traces established (waiting_for why) s = note-Traces relay _ _ _
note_unrelayed-Traces established _ s =
    Option-both (Traces (relay ∷ []) s) s.lab.route _ _ (note-Traces relay _ _ _) (λ c.
      if_both (Traces (relay ∷ []) s) established _ _ (note-Traces relay _ _ _)
        (note-Traces relay _ _ _))

note_refill-Traces :
    (established : Bool) (r : Refill) → Traces (relay ∷ []) r.sim (note_refill established r)
unfolding note_refill
note_refill-Traces established r =
    let P = Traces (relay ∷ []) r.sim in
    let unrelayed = note_unrelayed-Traces established r.end r.sim in
    Option-both P r.sim.lab.route _ _ unrelayed (λ c.
      if_both P (ltb 0 r.relayed) _ _ (note-Traces relay _ _ _ ⨾ note_relay-Traces _ _) unrelayed)

-- A tick that counts keys traces the five parts of its pipeline.
pub tick_keys-Traces :
    (p : Params) (collate : String → String → Ordering) (w : Platform) (s : Sim)
    → Traces (tick_pipeline keys) s (tick_keys p collate w s).sim
unfolding tick_keys
tick_keys-Traces p collate w s =
    generate_part-Traces p s
    ⨾ stream_part-Traces w _
    ⨾ reroute-Traces collate _ _
    ⨾ note_route-Traces _
    ⨾ refill_stream-Traces p collate w _
    ⨾ note_refill-Traces _ (refill_stream p collate w _)
    ⨾ consume_stream-Traces w _
    ⨾ note_consumed-Traces (consume_stream w _)
