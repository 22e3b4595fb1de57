-- ===== src/Etsi004/Read.antt =====
-- `getKey` and `nextFor` of services/webui-frontend/src/lib/sim/protocolLab/etsi004.ts, on a stream
-- that is known and not closed.
use pqc_qkd_hybrid_network.Base.{
  ℕ, zero, suc, ◌+◌, ◌-◌, ◌/◌, not, ◌&&◌, Option, none, some, List, length, get_elem?, ltb,
  if◌then◌else◌, or_else,
}
use pqc_qkd_hybrid_network.Etsi004.Spec.{
  status_code, successful, insufficient_key, peer_app_not_connected, no_qkd_connection,
  metadata_too_small, index_origin,
}
use pqc_qkd_hybrid_network.Etsi004.Stream.{
  Side, at_side, set_side, pending_peer, is_state, Chunk, Stream, has, add, Transition, t10, t11,
  t12, t13, t15, t21, Detail, unknown_or_closed, no_working_link, already_delivered,
  not_relayed_yet, MetadataBody, CallResult, Env, plain, not_found,
}

-- `while (delivered.has(i)) i += 1`
unfoldable pub next_from : ℕ → List ℕ → ℕ → Option ℕ
next_from zero ds i = none
next_from (suc fuel) ds i =
    let rest = next_from fuel ds (i + 1) in if has ds i then rest else some i

-- Fuel: one round for each delivered index and one to stop.
unfoldable pub next_for : Stream → Side → Option ℕ
unfolding next_from
next_for s side =
    next_from (suc (length (at_side side s.delivered))) (at_side side s.delivered) index_origin

-- How many digits a number has in decimal.
unfoldable pub decimal_digits : ℕ → ℕ → ℕ
decimal_digits zero n = 1
decimal_digits (suc fuel) n =
    let rest = suc (decimal_digits fuel (n / 10)) in if ltb n 10 then 1 else rest

-- The byte length of `{"age":…,"hops":…}`; a number has at most as many digits as its value plus one.
unfoldable pub encoded_length : MetadataBody → ℕ
unfolding decimal_digits
encoded_length b = 16 + decimal_digits b.age b.age + decimal_digits b.hops b.hops

-- `delivered[side].add(want)`
abbrev pub deliver : Stream → Side → ℕ → Stream
deliver s side want = record s {
  delivered = set_side side (add want (at_side side s.delivered)) s.delivered;
}

-- `getKey` once the chunk is found: nothing is consumed where the metadata does not fit.
unfoldable pub hand_out : Env → Stream → Side → ℕ → ℕ → Chunk → Stream × CallResult
hand_out env s side want metadata_size chunk =
    let meta : MetadataBody = record { age = env.now - chunk.available_at; hops = chunk.hops } in
    let needed = encoded_length meta in
    if ltb 0 metadata_size && ltb metadata_size needed
    then (
      s,
      record (plain (status_code metadata_too_small) t12) {
        index = some want;
        metadata = some (record { metadata_size = needed; metadata_buffer = none });
      },
    )
    else (
      deliver s side want,
      record (plain (status_code successful) t11) {
        index = some want;
        key_buffer = some chunk.bytes;
        metadata =
            if ltb 0 metadata_size
            then some (record { metadata_size = needed; metadata_buffer = some meta })
            else none;
      },
    )

-- `getKey` once the index that is wanted is known.
unfoldable pub read_at : Env → Stream → Side → ℕ → ℕ → Stream × CallResult
unfolding hand_out
read_at env s side want metadata_size =
    if has (at_side side s.delivered) want
    then (s, insufficient t21 already_delivered)
    else elim (get_elem? s.chunks (want - index_origin)) [
      | none ↦ (s, insufficient t13 not_relayed_yet)
      | some chunk ↦ hand_out env s side want metadata_size chunk
    ]
  where
    insufficient : Transition → Detail → CallResult
    insufficient t d = record (plain (status_code insufficient_key) t) {
      index = some want;
      detail = some d;
    }

-- `getKey` on a stream that is known and not closed. Running out of fuel in `next_for`, which does
-- not happen, is answered as an unknown stream.
unfoldable pub read_open : Env → Stream → Side → Option ℕ → ℕ → Stream × CallResult
unfolding read_at next_for
read_open env s side index metadata_size =
    if is_state s.state pending_peer
    then (s, plain (status_code peer_app_not_connected) t10)
    else if not env.route_up
    then (s, record (plain (status_code no_qkd_connection) t15) { detail = some no_working_link })
    else elim (or_else index (next_for s side)) [
      | some want ↦ read_at env s side want metadata_size
      | none ↦ (s, not_found unknown_or_closed)
    ]
