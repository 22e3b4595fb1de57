-- ===== src/Lab/Consume.antt =====
-- `consumeStream` of the protocol lab (services/webui-frontend/src/lib/sim/protocolLabSim.ts): the key
-- requests that are due in a tick, each read on both sides of the stream.
use mathlib.Core.Option
use pqc_qkd_hybrid_network.Base.{
  ℕ, zero, suc, ◌+◌, ◌-◌, ◌*◌, ◌/◌, ◌%◌, String, not, Option, none, some, [], ◌∷◌, ltb, ◌==◌,
  if◌then◌else◌, or_else,
}
use pqc_qkd_hybrid_network.Base.Text.{decimal, text}
use pqc_qkd_hybrid_network.Etsi004.Spec.{status_code, successful, no_qkd_connection}
use pqc_qkd_hybrid_network.Etsi004.Stream.{side_a, side_b, t11, CallResult, Env}
use pqc_qkd_hybrid_network.Etsi004.Km.{Km, chunk_bytes, get_key}
use pqc_qkd_hybrid_network.Lab.Records.{lane_004}
use pqc_qkd_hybrid_network.Lab.Wording.{is_status, failure_text}
use pqc_qkd_hybrid_network.Lab.State.{Sim, Platform, key_bytes, env_of, log}

-- What the loop of key requests counts. `first` and `last` are the indices that were read; -1 in the
-- source is none.
pub record Reads : Type 0 where
  pub km : Km
  pub served : ℕ
  pub first : Option ℕ
  pub last : Option ℕ
  pub failed : Option CallResult

abbrev pub one_read : Option ℕ → Reads → Reads
one_read index r = record r {
  served = suc r.served;
  first = or_else index r.first;
  last = or_else r.last index;
}

abbrev pub stop_at : Km → CallResult → Reads
stop_at m why = record { km = m; served = 0; first = none; last = none; failed = some why }

-- The loop: side A reads the next index, and side B the index that A read.
unfoldable pub read_loop : ℕ → Env → String → Km → Reads
read_loop zero env ksid m = record { km = m; served = 0; first = none; last = none; failed = none }
read_loop (suc n) env ksid m =
    let (ma, a) = get_key env m side_a ksid none 0 in
    let (mb, b) = get_key env ma side_b ksid a.index 0 in
    let rest = one_read a.index (read_loop n env ksid mb) in
    if not (is_status successful a)
    then stop_at ma a
    else if not (is_status successful b)
    then stop_at mb b
    else rest

pub record Consumed : Type 0 where
  pub sim : Sim
  pub delivered : ℕ
  pub unmet : ℕ
  pub requested : ℕ
  pub served : ℕ
  pub why : Option String

abbrev pub index_text : Option ℕ → String
index_text none = "-1"
index_text (some i) = decimal i

abbrev relays_text : Sim → String
relays_text s = elim s.lab.route [ none ↦ "0" | some r ↦ decimal r.relays ]

-- The status and the line of the timeline for the requests that were served.
unfoldable pub log_served : Reads → ℕ → Sim → Sim
log_served r bits s =
    if ltb 0 r.served
    then log lane_004
        (text (
          "GET_KEY x"
          ∷ decimal r.served
          ∷ " on both sides, index "
          ∷ index_text r.first
          ∷ ".."
          ∷ index_text r.last
          ∷ ", Key_chunk_size "
          ∷ decimal (bits / 8)
          ∷ " bytes, metadata hops "
          ∷ relays_text s
          ∷ []))
        (status_code successful) (some t11) (record s { last_status = status_code successful })
    else s

-- The same for the request that failed, if one did.
unfoldable pub log_failed : Reads → ℕ → Sim → Sim
log_failed r missed s = elim r.failed [
  | none ↦ s
  | some f ↦
      log lane_004
        (text ("GET_KEY x" ∷ decimal missed ∷ " failed: " ∷ failure_text (key_bytes s) f ∷ []))
        f.status (some f.transition) (record s { last_status = f.status })
]

-- The requests of a tick without a stream.
unfoldable pub refuse_all : ℕ → Sim → Consumed
refuse_all n s = record {
  sim =
      log lane_004
        (text ("GET_KEY x" ∷ decimal n ∷ ": no stream (OPEN_CONNECT has not succeeded)" ∷ []))
        (status_code no_qkd_connection) none
        (record s {
          requests_failed = s.requests_failed + n;
          last_status = status_code no_qkd_connection;
        });
  delivered = 0;
  unmet = n * s.lab.key_bits;
  requested = n;
  served = 0;
  why = some "no stream";
}

-- The requests of a tick on a stream.
unfoldable pub read_all : Platform → ℕ → String → Sim → Consumed
read_all w n ksid s =
    let r = read_loop n (env_of w s) ksid s.km in
    let bits = Option.get_or (chunk_bytes r.km ksid) (key_bytes s) * 8 in
    let counted : Sim = record s {
      km = r.km;
      requests_ok = s.requests_ok + r.served;
      requests_failed = s.requests_failed + (n - r.served);
    } in
    record {
      sim = log_failed r (n - r.served) (log_served r bits counted);
      delivered = r.served * bits;
      unmet = (n - r.served) * bits;
      requested = n;
      served = r.served;
      why = Option.map (failure_text (key_bytes s)) r.failed;
    }

-- The credit of the demand with what a tick adds, in thousandths of a key.
abbrev pub due_credit : Sim → ℕ
due_credit s = s.demand_credit + Option.get_or s.keys_per_s 0 * s.lab.tick_s

-- `consumeStream`
unfoldable pub consume_stream : Platform → Sim → Consumed
consume_stream w s =
    let n = due_credit s / 1000 in
    let s' : Sim = record s { demand_credit = due_credit s % 1000 } in
    if n == 0
    then record { sim = s'; delivered = 0; unmet = 0; requested = 0; served = 0; why = none }
    else elim s.ksid [ none ↦ refuse_all n s' | some ksid ↦ read_all w n ksid s' ]
