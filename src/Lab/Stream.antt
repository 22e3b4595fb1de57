-- ===== src/Lab/Stream.antt =====
-- `openStream` and `refillStream` of the protocol lab
-- (services/webui-frontend/src/lib/sim/protocolLabSim.ts): the stream that the two key managers share,
-- and the keys that are relayed into it.
use Prim.Native.Nat.{Ordering}
use mathlib.Core.Option
use pqc_qkd_hybrid_network.Base.{
  ℕ, zero, suc, ◌+◌, ◌-◌, String, Bool, true, not, ◌&&◌, Option, none, some, List, [], ◌∷◌, find,
  str_eq, ltb, if◌then◌else◌,
}
use pqc_qkd_hybrid_network.Base.Int.{ℤ, pos, negsuc, leb_ℤ}
use pqc_qkd_hybrid_network.Base.Text.{decimal, text}
use pqc_qkd_hybrid_network.Etsi004.Spec.{peer_not_connected}
use pqc_qkd_hybrid_network.Etsi004.Stream.{side_a, side_b, empty_qos, CallResult}
use pqc_qkd_hybrid_network.Etsi004.Km.{Km, open_connect, is_established, supply, undelivered}
use pqc_qkd_hybrid_network.Routing.Rank.{RouteChoice, route_key}
use pqc_qkd_hybrid_network.Routing.Select.{NoRoute}
use pqc_qkd_hybrid_network.Lab.Links.{LinkState, change_link}
use pqc_qkd_hybrid_network.Lab.Generate.{Params}
use pqc_qkd_hybrid_network.Lab.Records.{lane_014, no_route_text}
use pqc_qkd_hybrid_network.Lab.Routes.{find_link}
use pqc_qkd_hybrid_network.Lab.Choose.{choose_route}
use pqc_qkd_hybrid_network.Lab.Wording.{is_status}
use pqc_qkd_hybrid_network.Lab.State.{Sim, Platform, is_some, env_of, log, log_004, relay_key}

abbrev pub app_of : String → String
app_of node = text ("qkd://" ∷ node ∷ "/app" ∷ [])

-- The second half of `openStream`: the peer joins the stream that the first call made.
unfoldable pub join_peer : Platform → Sim → String → String → CallResult → Sim
join_peer w s src dst a = elim a.key_stream_id [
  | none ↦ s
  | some id ↦
      if not (is_status peer_not_connected a)
      then s
      else let (km', b) = open_connect (env_of w s) s.km side_b dst src empty_qos (some id) in
        log_004 "OPEN_CONNECT (B, same Key_stream_ID)" b (record s { ksid = some id; km = km' })
]

-- `openStream`. A new identifier is drawn on each call that asks for a stream.
unfoldable pub open_stream : Platform → Sim → Sim
open_stream w s =
    if str_eq s.lab.demand_from s.lab.demand_to
    then s
    else let src = app_of s.lab.demand_from in
      let dst = app_of s.lab.demand_to in
      let (km', a) = open_connect (env_of w s) s.km side_a src dst empty_qos none in
      join_peer w
        (log_004 "OPEN_CONNECT (A, Key_stream_ID null)" a
          (record s { km = km'; opened = s.opened + 1 }))
        src dst a

-- `(l.storedKeys ?? 0) - 1`. A route is used only where each of its links holds a key.
abbrev pub take_key : LinkState → LinkState
take_key l = record l { stored_keys = some (Option.get_or l.stored_keys 0 - 1) }

-- The loop that takes a key from each link of a route.
unfoldable pub take_keys : List String → List LinkState → List LinkState
unfolding change_link
take_keys [] links = links
take_keys (id ∷ ids) links = take_keys ids (change_link id take_key links)

-- The first link of a route that holds no key.
abbrev pub holds_none : List LinkState → String → Bool
holds_none links id = elim (find_link id links) [
  | none ↦ true
  | some l ↦ ltb (Option.get_or l.stored_keys 0) 1
]

unfoldable pub waiting_text : List LinkState → List String → String
unfolding text
waiting_text links ids =
    text ("waiting for key on " ∷ Option.get_or (find (holds_none links) ids) "undefined" ∷ [])

-- `(route.bottleneckBits ?? 0) < KEY_BITS`
abbrev pub is_short : ℕ → RouteChoice → Bool
is_short key_bits r = not (leb_ℤ (pos key_bits) (Option.get_or r.bottleneck_bits (pos 0)))

-- One key across a route: taken from each of its links, relayed and supplied to the stream.
unfoldable pub relay_over : Platform → String → RouteChoice → Sim → Sim
relay_over w ksid r s =
    let taken : Sim = record s {
      lab = record s.lab { links = take_keys r.link_ids s.lab.links };
    } in
    let (s', key) = relay_key w taken in
    record s' { km = (supply (env_of w s') s'.km ksid key r.relays).0 }

-- One round of the loop of `refillStream`.
pub data Round : Type 0 where
  enough : Round
  routeless : Sim → Round
  waits : Sim → String → Round
  relays_one : Sim → Round

-- How the loop ended: at the watermark, without a route, or waiting for key on a link.
pub data RefillEnd : Type 0 where
  at_watermark without_route out_of_rounds : RefillEnd
  waiting_for : String → RefillEnd

pub record Refill : Type 0 where
  pub sim : Sim
  pub relayed : ℕ
  pub end : RefillEnd

abbrev pub one_more : Refill → Refill
one_more r = record r { relayed = suc r.relayed }

-- The line that `refillStream` writes to the timeline of what it could not relay.
unfoldable pub unrelayed_said : RefillEnd → Option RouteChoice → Option NoRoute → Option String
unfolding text
unrelayed_said (waiting_for why) r none_left = some (
    text (
      "no relay this tick: " ∷ why ∷ " (enc_keys on an empty pool is HTTP 503 on this stack)" ∷ []))
unrelayed_said _ none (some why) = some (
    text (
      "no relay: "
      ∷ no_route_text why
      ∷ " (a KME with an empty pool answers enc_keys with HTTP 503)"
      ∷ []))
unrelayed_said _ _ _ = none

-- The line of a refill, if it writes one.
unfoldable pub refill_said : ℕ → RefillEnd → Sim → Option String
refill_said relayed end s = elim s.lab.route [
  | none ↦ unrelayed_said end none s.lab.route_none
  | some r ↦
      if ltb 0 relayed
      then some (
          text (
            decimal relayed
            ∷ " key(s) relayed over "
            ∷ route_key r.nodes
            ∷ ": per hop enc_keys + dec_keys, size "
            ∷ decimal s.lab.key_bits
            ∷ " bits"
            ∷ []))
      else unrelayed_said end (some r) s.lab.route_none
]

abbrev pub log_if : Option String → Sim → Sim
log_if none s = s
log_if (some said) s = log lane_014 said none none s

-- What a round leads to: the end of the loop, or the rest of it.
unfoldable pub after_round : (Sim → Refill) → Sim → Round → Refill
after_round rest s enough = record { sim = s; relayed = 0; end = at_watermark }
after_round rest s (routeless s') = record { sim = s'; relayed = 0; end = without_route }
after_round rest s (waits s' why) = record { sim = s'; relayed = 0; end = waiting_for why }
after_round rest s (relays_one s') = one_more (rest s')

-- `chooseRoute` on the simulator.
unfoldable pub reroute : (String → String → Ordering) → ℕ → Sim → Sim
reroute collate need s = record s { lab = choose_route collate s.lab need }

abbrev pub skipped : Sim → Refill
skipped s = record { sim = s; relayed = 0; end = without_route }

-- `undelivered(ksid, "A") < LOW_WM`
abbrev pub is_low : Params → Km → String → Bool
is_low p m ksid = not (leb_ℤ (pos p.low_watermark) (undelivered m ksid side_a))

-- A round for each chunk that is missing, and one to stop.
abbrev pub missing : Params → ℤ → ℕ
missing p (pos n) = p.low_watermark - n
missing p (negsuc n) = p.low_watermark + suc n

module _ (p : Params) (collate : String → String → Ordering) (w : Platform) where
  unfoldable pub refill_round : String → Sim → Round
  refill_round ksid s =
      if not (is_low p s.km ksid)
      then enough
      else let s' = reroute collate s.lab.key_bits s in
        elim s'.lab.route [
          | none ↦ routeless s'
          | some r ↦
              if is_short s.lab.key_bits r
              then waits s' (waiting_text s'.lab.links r.link_ids)
              else relays_one (relay_over w ksid r s')
        ]

  -- The loop, in so many rounds at most.
  unfoldable pub refill_loop : ℕ → String → Sim → Refill
  refill_loop zero ksid s = record { sim = s; relayed = 0; end = out_of_rounds }
  refill_loop (suc rounds) ksid s = after_round (refill_loop rounds ksid) s (refill_round ksid s)

  -- `refillStream` on a stream that is established, over a route.
  unfoldable pub refill_known : String → Sim → Refill
  refill_known ksid s =
      let r = refill_loop (suc (missing p (undelivered s.km ksid side_a))) ksid s in
      record r { sim = log_if (refill_said r.relayed r.end r.sim) r.sim }

  -- `refillStream`. Where it returns at once, nothing is relayed and nothing waited for.
  unfoldable pub refill_stream : Sim → Refill
  refill_stream s =
      let known : Refill = elim s.ksid [ none ↦ skipped s | some ksid ↦ refill_known ksid s ] in
      if is_established s.km s.ksid && is_some s.lab.route then known else skipped s
