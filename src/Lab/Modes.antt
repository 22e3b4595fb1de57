-- ===== src/Lab/Modes.antt =====
-- The modes of a tick of the protocol lab (services/webui-frontend/src/lib/sim/protocolLabSim.ts) that
-- count bits of stores, keys of a service, or nothing.
use Prim.Native.Nat.{Ordering}
use mathlib.Core.Option
use pqc_qkd_hybrid_network.Base.{
  ℕ, ◌+◌, ◌-◌, ◌*◌, ◌/◌, ◌%◌, min, String, Bool, false, ◌&&◌, none, some, List, [], ◌∷◌, map, ◌==◌,
  leb, ltb, if◌then◌else◌,
}
use pqc_qkd_hybrid_network.Base.Dict.{lookup}
use pqc_qkd_hybrid_network.Base.Int.{pos, sub_ℤ, add_ℤ}
use pqc_qkd_hybrid_network.Base.Text.{decimal, text}
use pqc_qkd_hybrid_network.Etsi004.Spec.{status_code, no_qkd_connection}
use pqc_qkd_hybrid_network.Routing.Rank.{RouteChoice, route_key, join}
use pqc_qkd_hybrid_network.Lab.Links.{LinkState, change_link}
use pqc_qkd_hybrid_network.Lab.Records.{
  generate, relay, deliver, ok, wait, fail, idle, StepOutcome, lane_014, lane_004, no_route_text,
}
use pqc_qkd_hybrid_network.Lab.Scenario.{Generation, equals_demand, StoresRun, BufferRun}
use pqc_qkd_hybrid_network.Lab.State.{
  Sim, Service, Platform, time_s, is_some, log, note, note_route, note_relay, relay_key,
}
use pqc_qkd_hybrid_network.Lab.Stream.{reroute}
use pqc_qkd_hybrid_network.Lab.Tick.{Ticked}

-- Whether a link with a store generates at a time.
unfoldable pub generates : ℕ → List (String × Generation) → LinkState → Bool
unfolding lookup
generates t generation l = elim (lookup l.id generation) [
  | none ↦ false
  | some g ↦ elim g [ equals_demand until_s ↦ leb t until_s && is_some l.stored_bits | _ ↦ false ]
]

abbrev pub add_bits : ℕ → LinkState → LinkState
add_bits need l = record l {
  stored_bits = some (add_ℤ (Option.get_or l.stored_bits (pos 0)) (pos need));
}

unfoldable pub generate_stores :
    ℕ → ℕ → List (String × Generation) → List LinkState → List LinkState
unfolding generates
generate_stores t need generation links =
    map (λ l. if generates t generation l then add_bits need l else l) links

-- `generating`
unfoldable pub generating_of : ℕ → List (String × Generation) → List LinkState → List String
unfolding generates
generating_of t generation [] = []
generating_of t generation (l ∷ ls) =
    let rest = generating_of t generation ls in
    if generates t generation l then l.id ∷ rest else rest

-- `(l.storedBits ?? 0) - need`
abbrev pub draw_bits : ℕ → LinkState → LinkState
draw_bits need l = record l {
  stored_bits = some (sub_ℤ (Option.get_or l.stored_bits (pos 0)) (pos need));
}

-- The loop that draws from the store of each link of a route.
unfoldable pub draw_stores : ℕ → List String → List LinkState → List LinkState
unfolding change_link
draw_stores need [] links = links
draw_stores need (id ∷ ids) links = draw_stores need ids (change_link id (draw_bits need) links)

unfoldable pub generating_said : List String → StepOutcome × String
unfolding text join
generating_said [] = (idle, "no store generating now")
generating_said (n ∷ ns) = (ok, text (join ", " (n ∷ ns) ∷ ", as fast as the demand" ∷ []))

unfoldable pub generate_stores_part : StoresRun → ℕ → Sim → Sim
generate_stores_part run need s =
    let names = generating_of (time_s s) run.generation s.lab.links in
    let noted = generating_said names in
    let links = generate_stores (time_s s) need run.generation s.lab.links in
    note generate noted.0 noted.1 (record s { lab = record s.lab { links = links } })

-- The transfer over a route of stores.
unfoldable pub deliver_stores : Platform → ℕ → RouteChoice → Sim → Sim
deliver_stores w need r s =
    let drawn : Sim = record s {
      lab = record s.lab { links = draw_stores need r.link_ids s.lab.links };
    } in
    let (relayed, _) = relay_key w drawn in
    let logged =
      log lane_014
        (text (
          "per hop over "
          ∷ route_key r.nodes
          ∷ ": enc_keys/dec_keys for "
          ∷ decimal need
          ∷ " bits (bits)"
          ∷ []))
        none none relayed in
    note deliver ok (text (decimal need ∷ " bits delivered" ∷ [])) (
      note_relay (text (decimal need ∷ " bits" ∷ [])) (
        note relay ok
          (text (decimal need ∷ " bits from each of " ∷ decimal r.hops ∷ " store(s)" ∷ [])) logged))

unfoldable pub refuse_stores : ℕ → Sim → Sim
refuse_stores need s = note deliver fail (text (decimal need ∷ " bits unmet" ∷ [])) (
    note relay fail "no route of stores above threshold" (
      log lane_004 "GET_KEY: no route of stores above threshold" (status_code no_qkd_connection)
        none s))

-- The keys of a service that a tick serves, and those that are due.
abbrev pub due_keys : BufferRun → Sim → ℕ
due_keys run s = (s.demand_credit + run.rate * s.lab.tick_s) / 1000

abbrev pub served_keys : BufferRun → Service → Sim → ℕ
served_keys run svc s = min (due_keys run s) svc.stored

unfoldable pub serve_part : BufferRun → Service → Sim → Sim
serve_part run svc s =
    let whole = due_keys run s in
    let served = served_keys run svc s in
    let outcome =
      if whole == 0
      then idle
      else if served == whole
      then ok
      else if ltb 0 served
      then wait
      else fail in
    let said =
      if whole == 0
      then "no key due this tick"
      else text (decimal served ∷ " of " ∷ decimal whole ∷ " key(s) served" ∷ []) in
    note deliver outcome said (record s {
      demand_credit = (s.demand_credit + run.rate * s.lab.tick_s) % 1000;
      service = some (record svc { stored = svc.stored - served });
      requests_ok = s.requests_ok + served;
      requests_failed = s.requests_failed + (whole - served);
    })

unfoldable pub refill_fails : ℕ → Service → Sim → Sim
refill_fails keys svc s =
    note relay fail (text ("refill of " ∷ decimal keys ∷ " key(s) failed" ∷ [])) (
      log lane_014
        (text (
          "refill of "
          ∷ decimal keys
          ∷ " keys failed: "
          ∷ Option.get_or (Option.map no_route_text s.lab.route_none) "no route"
          ∷ []))
        none none
        (record s { service = some (record svc { failed_refills = svc.failed_refills + 1 }) }))

module _ (collate : String → String → Ordering) (w : Platform) where
  unfoldable pub tick_stores : StoresRun → Sim → Ticked
  tick_stores run s =
      let need = run.rate_bps * s.lab.tick_s in
      let s' = note_route (reroute collate need (generate_stores_part run need s)) in
      elim s'.lab.route [
        | some r ↦ record { sim = deliver_stores w need r s'; delivered = need; unmet = 0 }
        | none ↦ record { sim = refuse_stores need s'; delivered = 0; unmet = need }
      ]

  -- A refill over a route.
  unfoldable pub refill_service : ℕ → Service → RouteChoice → Sim → Sim
  refill_service keys svc r s =
      let filled : Sim = record s {
        service = some (record svc { stored = svc.refill_to; refills = svc.refills + 1 });
      } in
      let (relayed, _) = relay_key w filled in
      let logged =
        log lane_014
          (text (
            "refill "
            ∷ decimal keys
            ∷ " keys over "
            ∷ route_key r.nodes
            ∷ " (one-time-pad tunnels; "
            ∷ decimal (keys * s.lab.key_bits)
            ∷ " bits at "
            ∷ decimal s.lab.key_bits
            ∷ " bits per key from protocol.out_bits_per_key (this project's config))"
            ∷ []))
          none none relayed in
      note_relay (text (decimal keys ∷ " key(s)" ∷ []))
        (note relay ok (text ("refilled " ∷ decimal keys ∷ " key(s)" ∷ [])) logged)

  -- The refill of a service whose store has fallen to its mark, and the route of one that has not.
  unfoldable pub refill_part : Service → Sim → Sim
  refill_part svc s =
      let keys = svc.refill_to - svc.stored in
      let s' = note_route (reroute collate (keys * s.lab.key_bits) s) in
      let refilled : Sim = elim s'.lab.route [
        | some r ↦ refill_service keys svc r s'
        | none ↦ refill_fails keys svc s'
      ] in
      if leb svc.stored svc.refill_at
      then refilled
      else note relay idle (text ("the store is above " ∷ decimal svc.refill_at ∷ " keys" ∷ []))
          (note_route (reroute collate 0 s))

  unfoldable pub tick_buffer : BufferRun → Service → Sim → Ticked
  tick_buffer run svc s =
      let whole = due_keys run s in
      let served = served_keys run svc s in
      let svc' : Service = record svc { stored = svc.stored - served } in
      record {
        sim = refill_part svc' (serve_part run svc s);
        delivered = served * s.lab.key_bits;
        unmet = (whole - served) * s.lab.key_bits;
      }

  unfoldable pub tick_routes : Sim → Ticked
  tick_routes s = record {
    sim = note_route (reroute collate s.lab.key_bits s);
    delivered = 0;
    unmet = 0;
  }
