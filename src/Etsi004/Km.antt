-- ===== src/Etsi004/Km.antt =====
-- The class `Km004` of services/webui-frontend/src/lib/sim/protocolLab/etsi004.ts. Each method takes
-- the environment of its call and returns the new map of streams with its result. A stream that a
-- method changes in place is written back to the map. Key bytes leave and enter by copies
-- (`data.slice()`), so no caller shares an array with a stream, and wiping an array that is then
-- dropped cannot be seen.
use mathlib.Core.Option
use pqc_qkd_hybrid_network.Base.{
  ℕ, ◌+◌, String, Bool, true, false, not, Option, none, some, List, [], ◌∷◌, ◌++◌, map, length,
  if◌then◌else◌,
}
use pqc_qkd_hybrid_network.Base.Dict.{lookup, insert}
use pqc_qkd_hybrid_network.Base.Int.{ℤ, pos, sub_ℕ}
use pqc_qkd_hybrid_network.Etsi004.Spec.{
  status_code, successful, peer_not_connected, no_qkd_connection, qos_not_met, index_origin,
}
use pqc_qkd_hybrid_network.Etsi004.Stream.{
  Side, other, PerSide, at_side, set_side, Qos, StreamState, established, closing, closed, is_state,
  Stream, t1, t2, t3, t6, t16, t17, t20, predefined_not_simulated, no_route, unknown_or_closed,
  unknown_ksid, already_closed, CallResult, Env, plain, not_found,
}
use pqc_qkd_hybrid_network.Etsi004.Open.{join_stream, counter_qos, unmet, new_stream}
use pqc_qkd_hybrid_network.Etsi004.Read.{read_open}

-- The map `streams`.
abbrev pub Km : Type 0
Km = List (String × Stream)

pub record Listed : Type 0 where
  pub ksid : String
  pub state : StreamState
  pub chunks : ℕ
  pub delivered : PerSide ℕ

unfoldable pub list : Km → List Listed
list m = map entry m
  where
    entry : String × Stream → Listed
    entry (k, s) = record {
      ksid = s.ksid;
      state = s.state;
      chunks = length s.chunks;
      delivered = record { on_a = length s.delivered.on_a; on_b = length s.delivered.on_b };
    }

unfoldable pub chunk_bytes : Km → String → Option ℕ
chunk_bytes m ksid = Option.bind (lookup ksid m) (λ s. s.qos.key_chunk_size)

unfoldable pub is_established : Km → Option String → Bool
is_established m none = false
is_established m (some ksid) = elim (lookup ksid m) [
  | none ↦ false
  | some s ↦ is_state s.state established
]

-- `openConnect` with a null Key_stream_ID.
unfoldable pub open_new : Env → Km → Side → String → String → Qos → Km × CallResult
open_new env m side source destination qos =
    if not env.route_up
    then (m, record (plain (status_code no_qkd_connection) t3) { detail = some no_route })
    else elim (unmet env qos) [
      | some d ↦ (
        m,
        record (plain (status_code qos_not_met) t2) {
          qos = some (counter_qos env qos);
          detail = some d;
        },
      )
      | none ↦ (
        insert env.new_ksid (new_stream env side source destination (counter_qos env qos)) m,
        record (plain (status_code peer_not_connected) t1) {
          key_stream_id = some env.new_ksid;
          qos = some (counter_qos env qos);
        },
      )
    ]

unfoldable pub open_connect :
    Env → Km → Side → String → String → Qos → Option String → Km × CallResult
unfolding open_new join_stream
open_connect env m side source destination qos none = open_new env m side source destination qos
open_connect env m side source destination qos (some ksid) = elim (lookup ksid m) [
  | none ↦ (
    m,
    record (plain none t6) { key_stream_id = some ksid; detail = some predefined_not_simulated },
  )
  | some s ↦ let (s', r) = join_stream s side source destination ksid in (insert ksid s' m, r)
]

unfoldable pub supply : Env → Km → String → List ℕ → ℕ → Km × Option ℕ
supply env m ksid bytes hops = elim (lookup ksid m) [
  | none ↦ (m, none)
  | some s ↦
      if is_state s.state established
      then (
        insert ksid
            (record s {
              chunks =
                  s.chunks ++ record { bytes = bytes; available_at = env.now; hops = hops } ∷ [];
            })
            m,
        some (index_origin + length s.chunks),
      )
      else (m, none)
]

-- Below zero on a closed stream, whose chunks are gone and whose delivered indices are kept.
unfoldable pub undelivered : Km → String → Side → ℤ
undelivered m ksid side = elim (lookup ksid m) [
  | none ↦ pos 0
  | some s ↦ sub_ℕ (length s.chunks) (length (at_side side s.delivered))
]

unfoldable pub get_key : Env → Km → Side → String → Option ℕ → ℕ → Km × CallResult
unfolding read_open
get_key env m side ksid index metadata_size = elim (lookup ksid m) [
  | none ↦ (m, not_found unknown_or_closed)
  | some s ↦
      if is_state s.state closed
      then (m, not_found unknown_or_closed)
      else let (s', r) = read_open env s side index metadata_size in (insert ksid s' m, r)
]

-- `close` on a stream that is known.
unfoldable pub close_stream : Stream → Side → Stream × CallResult
close_stream s side =
    if is_state s.state closed
    then (s, record (plain (status_code successful) t20) { detail = some already_closed })
    else let now_closed = set_side side true s.is_closed in
      if at_side (other side) now_closed
      then (
        record s { is_closed = now_closed; state = closed; chunks = [] },
        plain (status_code successful) t17,
      )
      else (
        record s { is_closed = now_closed; state = closing },
        plain (status_code successful) t16,
      )

unfoldable pub close : Km → Side → String → Km × CallResult
unfolding close_stream
close m side ksid = elim (lookup ksid m) [
  | none ↦ (m, not_found unknown_ksid)
  | some s ↦ let (s', r) = close_stream s side in (insert ksid s' m, r)
]

unfoldable pub clear : Km → Km
clear m = []
