-- ===== src/Lab/Tick.antt =====
-- The four modes of a tick in `advance` of the protocol lab
-- (services/webui-frontend/src/lib/sim/protocolLabSim.ts).
use Prim.Native.Nat.{Ordering}
use mathlib.Core.Option
use pqc_qkd_hybrid_network.Base.{
  ℕ, String, Bool, none, some, [], ◌∷◌, str_eq, ◌==◌, ltb, if◌then◌else◌,
}
use pqc_qkd_hybrid_network.Base.Text.{decimal, text}
use pqc_qkd_hybrid_network.Etsi004.Km.{is_established}
use pqc_qkd_hybrid_network.Lab.Generate.{Params, generate_keys}
use pqc_qkd_hybrid_network.Lab.Records.{generate, stream, relay, deliver, ok, wait, fail, idle}
use pqc_qkd_hybrid_network.Lab.State.{Sim, Platform, note, note_route, note_relay}
use pqc_qkd_hybrid_network.Lab.Stream.{
  open_stream, reroute, RefillEnd, waiting_for, Refill, refill_stream,
}
use pqc_qkd_hybrid_network.Lab.Consume.{Consumed, consume_stream}

-- A simulator with the bits that a tick has delivered and missed.
pub record Ticked : Type 0 where
  pub sim : Sim
  pub delivered : ℕ
  pub unmet : ℕ

-- The generation of a tick that counts keys.
unfoldable pub generate_part : Params → Sim → Sim
generate_part p s =
    let made = generate_keys p s.lab.tick_s s.lab.links s.credit in
    let said =
      if ltb 0 made.keys
      then text
          ("+" ∷ decimal made.keys ∷ " key(s) on " ∷ decimal made.link_count ∷ " link(s)" ∷ [])
      else "no whole key this tick" in
    note generate (if ltb 0 made.keys then ok else idle) said
      (record s { lab = record s.lab { links = made.links }; credit = made.credit })

-- The stream of a tick: opened if it is not established.
unfoldable pub stream_part : Platform → Sim → Sim
stream_part w s =
    let s' = if is_established s.km s.ksid then s else open_stream w s in
    if is_established s'.km s'.ksid
    then note stream ok "ESTABLISHED" s'
    else note stream fail
        (if str_eq s'.lab.demand_from s'.lab.demand_to
          then "source and destination are one node"
          else "OPEN_CONNECT refused")
        s'

-- What the trace says of a refill that relayed nothing.
unfoldable pub note_unrelayed : Bool → RefillEnd → Sim → Sim
note_unrelayed established (waiting_for why) s = note relay wait why s
note_unrelayed established end s = elim s.lab.route [
  | none ↦ note relay fail "no route" s
  | some c ↦
      if established
      then note relay idle "the stream holds enough keys" s
      else note relay fail "no stream to relay into" s
]

-- What the trace says of a refill.
unfoldable pub note_refill : Bool → Refill → Sim
note_refill established r = elim r.sim.lab.route [
  | none ↦ note_unrelayed established r.end r.sim
  | some c ↦
      if ltb 0 r.relayed
      then note_relay (text (decimal r.relayed ∷ " key(s)" ∷ [])) (
          note relay ok
            (text (decimal r.relayed ∷ " key(s) over " ∷ decimal c.hops ∷ " hop(s)" ∷ [])) r.sim)
      else note_unrelayed established r.end r.sim
]

-- What the trace says of the requests.
unfoldable pub note_consumed : Consumed → Sim
note_consumed r =
    if r.requested == 0
    then note deliver idle "no request due this tick" r.sim
    else if r.served == r.requested
    then note deliver ok (text (decimal r.served ∷ " key(s) delivered" ∷ [])) r.sim
    else if ltb 0 r.served
    then note deliver wait
        (text (
          decimal r.served ∷ " of " ∷ decimal r.requested ∷ ": " ∷ Option.get_or r.why "null" ∷ []))
        r.sim
    else note deliver fail (Option.get_or r.why "refused") r.sim

module _ (p : Params) (collate : String → String → Ordering) (w : Platform) where
  unfoldable pub tick_keys : Sim → Ticked
  tick_keys s =
      let s1 = stream_part w (generate_part p s) in
      let s2 = note_route (reroute collate s1.lab.key_bits s1) in
      let s3 = note_refill (is_established s1.km s1.ksid) (refill_stream p collate w s2) in
      let r = consume_stream w s3 in
      record { sim = note_consumed r; delivered = r.delivered; unmet = r.unmet }
