-- ===== src/Lab/ModeTraces.antt =====
-- The other modes of a tick (protocolLabSim.ts) trace what their pipelines say, and so does every tick.
use Prim.Native.Nat.{Ordering}
use pqc_qkd_hybrid_network.Base.{ℕ, ◌-◌, ◌*◌, refl, String, [], ◌∷◌, leb, if_both, Option-both}
use pqc_qkd_hybrid_network.Routing.Rank.{RouteChoice}
use pqc_qkd_hybrid_network.Lab.Links.{stores, service_buffer, route_only}
use pqc_qkd_hybrid_network.Lab.Records.{generate, route, relay, deliver, tick_pipeline}
use pqc_qkd_hybrid_network.Lab.Scenario.{StoresRun, BufferRun}
use pqc_qkd_hybrid_network.Lab.State.{Sim, Service, Platform, note_route}
use pqc_qkd_hybrid_network.Lab.Stream.{reroute}
use pqc_qkd_hybrid_network.Lab.Tick.{Ticked}
use pqc_qkd_hybrid_network.Lab.Modes.{
  generate_stores_part, deliver_stores, refuse_stores, tick_stores, served_keys, serve_part,
  refill_service, refill_fails, refill_part, tick_buffer, tick_routes,
}
use pqc_qkd_hybrid_network.Lab.Traces.{
  Traces, ◌⨾◌, silent, owed-Traces, served-Traces, log-Traces, note-Traces, note_route-Traces,
  note_relay-Traces, relay_key-Traces, reroute-Traces,
}

generate_stores_part-Traces :
    (run : StoresRun) (need : ℕ) (s : Sim)
    → Traces (generate ∷ []) s (generate_stores_part run need s)
unfolding generate_stores_part
generate_stores_part-Traces run need s = silent s _ refl ⨾ note-Traces generate _ _ _

deliver_stores-Traces :
    (w : Platform) (need : ℕ) (r : RouteChoice) (s : Sim)
    → Traces (relay ∷ deliver ∷ []) s (deliver_stores w need r s)
unfolding deliver_stores
deliver_stores-Traces w need r s =
    silent s _ refl
    ⨾ relay_key-Traces w _
    ⨾ log-Traces _ _ _ _ _
    ⨾ note-Traces relay _ _ _
    ⨾ note_relay-Traces _ _
    ⨾ note-Traces deliver _ _ _

refuse_stores-Traces : (need : ℕ) (s : Sim) → Traces (relay ∷ deliver ∷ []) s (refuse_stores need s)
unfolding refuse_stores
refuse_stores-Traces need s =
    log-Traces _ _ _ _ _ ⨾ note-Traces relay _ _ _ ⨾ note-Traces deliver _ _ _

serve_part-Traces :
    (run : BufferRun) (svc : Service) (s : Sim) → Traces (deliver ∷ []) s (serve_part run svc s)
unfolding serve_part
serve_part-Traces run svc s =
    owed-Traces _ s
    ⨾ served-Traces (record svc { stored = svc.stored - served_keys run svc s }) _
    ⨾ silent _ _ refl
    ⨾ note-Traces deliver _ _ _

refill_fails-Traces :
    (n : ℕ) (svc : Service) (s : Sim) → Traces (relay ∷ []) s (refill_fails n svc s)
unfolding refill_fails
refill_fails-Traces n svc s = served-Traces _ s ⨾ log-Traces _ _ _ _ _ ⨾ note-Traces relay _ _ _

module _ (collate : String → String → Ordering) (w : Platform) where
  -- A tick of a run with stores traces the four parts of its pipeline.
  pub tick_stores-Traces :
      (run : StoresRun) (s : Sim)
      → Traces (tick_pipeline stores) s (tick_stores collate w run s).sim
  unfolding tick_stores
  tick_stores-Traces run s =
      let need = run.rate_bps * s.lab.tick_s in
      let s' = note_route (reroute collate need (generate_stores_part run need s)) in
      let first : Traces (generate ∷ route ∷ []) s s' =
        generate_stores_part-Traces run need s
        ⨾ reroute-Traces collate need _
        ⨾ note_route-Traces _ in
      Option-both (λ (t : Ticked). Traces (tick_pipeline stores) s t.sim) s'.lab.route _ _
        (first ⨾ refuse_stores-Traces need s') (λ r. first ⨾ deliver_stores-Traces w need r s')

  refill_service-Traces :
      (n : ℕ) (svc : Service) (r : RouteChoice) (s : Sim)
      → Traces (relay ∷ []) s (refill_service collate w n svc r s)
  unfolding refill_service
  refill_service-Traces n svc r s =
      served-Traces _ s
      ⨾ relay_key-Traces w _
      ⨾ log-Traces _ _ _ _ _
      ⨾ note-Traces relay _ _ _
      ⨾ note_relay-Traces _ _

  refill_part-Traces :
      (svc : Service) (s : Sim) → Traces (route ∷ relay ∷ []) s (refill_part collate w svc s)
  unfolding refill_part
  refill_part-Traces svc s =
      let n = svc.refill_to - svc.stored in
      let s' = note_route (reroute collate (n * s.lab.key_bits) s) in
      let P = Traces (route ∷ relay ∷ []) s in
      let first : Traces (route ∷ []) s s' = reroute-Traces collate _ s ⨾ note_route-Traces _ in
      if_both P (leb svc.stored svc.refill_at) _ _
        (Option-both P s'.lab.route _ _ (first ⨾ refill_fails-Traces n svc s')
          (λ r. first ⨾ refill_service-Traces n svc r s'))
        (reroute-Traces collate 0 s ⨾ note_route-Traces _ ⨾ note-Traces relay _ _ _)

  pub tick_buffer-Traces :
      (run : BufferRun) (svc : Service) (s : Sim)
      → Traces (tick_pipeline service_buffer) s (tick_buffer collate w run svc s).sim
  unfolding tick_buffer
  tick_buffer-Traces run svc s = serve_part-Traces run svc s ⨾ refill_part-Traces _ _

  pub tick_routes-Traces :
      (s : Sim) → Traces (tick_pipeline route_only) s (tick_routes collate w s).sim
  unfolding tick_routes
  tick_routes-Traces s = reroute-Traces collate _ s ⨾ note_route-Traces _
