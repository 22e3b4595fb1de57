-- ===== src/Etsi004/Open.antt =====
-- `openConnect` of services/webui-frontend/src/lib/sim/protocolLab/etsi004.ts: joining a stream that
-- is known, and the negotiation of the quality of service of a new one.
use Prim.Native.Nat.{max}
use mathlib.Core.Option
use pqc_qkd_hybrid_network.Base.{
  ℕ, ◌+◌, ◌*◌, ◌/◌, ◌%◌, String, Bool, true, false, not, ◌&&◌, Option, none, some, [], str_eq, ◌==◌,
  ltb, if◌then◌else◌,
}
use pqc_qkd_hybrid_network.Etsi004.Spec.{
  status_code, successful, ksid_in_use, preferred_metadata_mimetype,
}
use pqc_qkd_hybrid_network.Etsi004.Stream.{
  Side, at_side, set_side, Qos, pending_peer, established, closed, is_state, Stream, Transition, t5,
  t7, t8, t9, Detail, another_pair, not_reused, already_opened, chunk_not_multiple,
  min_above_capacity, mimetype_unsupported, CallResult, Env, same_apps, plain,
}

-- `openConnect` on a Key_stream_ID whose stream is known.
unfoldable pub join_stream : Stream → Side → String → String → String → Stream × CallResult
join_stream s side source destination ksid =
    if not (same_apps s.apps (record { source = source; destination = destination }))
    then (s, in_use t7 another_pair)
    else if is_state s.state closed
    then (s, in_use t9 not_reused)
    else if at_side side s.is_opened
    then (s, in_use t8 already_opened)
    else (
      record s { is_opened = set_side side true s.is_opened; state = established },
      record (plain (status_code successful) t5) { key_stream_id = some ksid; qos = some s.qos },
    )
  where
    in_use : Transition → Detail → CallResult
    in_use t d = record (plain (status_code ksid_in_use) t) {
      key_stream_id = some ksid;
      detail = some d;
    }

-- `Math.round(asked / k) * k`, at least `k`.
abbrev pub round_to_multiple : ℕ → ℕ → ℕ
round_to_multiple k asked = max k ((2 * asked + k) / (2 * k) * k)

-- `asked && asked > 0 ? asked : k`
abbrev pub or_chunk : ℕ → Option ℕ → ℕ
or_chunk k none = k
or_chunk k (some asked) = if ltb 0 asked then asked else k

-- `asked && asked > 0 && asked % k !== 0`
unfoldable pub chunk_unmet : ℕ → Option ℕ → Bool
chunk_unmet k none = false
chunk_unmet k (some asked) = ltb 0 asked && not (asked % k == 0)

-- `min !== null && min > 0 && cap !== null && min > cap`
unfoldable pub min_unmet : Option ℕ → Option ℕ → Bool
min_unmet (some lo) (some cap) = ltb 0 lo && ltb cap lo
min_unmet _ _ = false

-- The metadata type is given, not empty and not the preferred one.
unfoldable pub mimetype_unmet : Option String → Bool
mimetype_unmet none = false
mimetype_unmet (some m) = not (str_eq m "") && not (str_eq m preferred_metadata_mimetype)

-- `unmet ?? reason` under a test
abbrev pub or_reason : Bool → Option Detail → Detail → Option Detail
or_reason false unmet d = unmet
or_reason true none d = some d
or_reason true (some e) d = some e

-- The chunk size that is offered.
unfoldable pub offered_chunk : ℕ → Option ℕ → ℕ
unfolding chunk_unmet
offered_chunk k asked =
    if chunk_unmet k asked then round_to_multiple k (or_chunk k asked) else or_chunk k asked

-- The minimum rate that is offered: `Math.floor` of a capacity given in thousandths.
unfoldable pub offered_min : Option ℕ → Option ℕ → Option ℕ
unfolding min_unmet
offered_min lo cap = if min_unmet lo cap then Option.map (λ c. c / 1000 * 1000) cap else lo

-- The counter-proposal of `openConnect`.
unfoldable pub counter_qos : Env → Qos → Qos
unfolding offered_chunk offered_min mimetype_unmet
counter_qos env qos = record qos {
  key_chunk_size = some (offered_chunk env.key_chunk_bytes qos.key_chunk_size);
  min_bps = offered_min qos.min_bps env.capacity;
  metadata_mimetype =
      if mimetype_unmet qos.metadata_mimetype
      then some preferred_metadata_mimetype
      else qos.metadata_mimetype;
}

-- `unmet` after the three checks: the first one that fails.
abbrev pub first_reason : Bool → Bool → Bool → Option Detail
first_reason chunk lo mimetype =
    or_reason mimetype
      (or_reason lo (if chunk then some chunk_not_multiple else none) min_above_capacity)
      mimetype_unsupported

-- The first reason for which the requested QoS cannot be met.
unfoldable pub unmet : Env → Qos → Option Detail
unfolding chunk_unmet min_unmet mimetype_unmet
unmet env qos =
    first_reason (chunk_unmet env.key_chunk_bytes qos.key_chunk_size)
      (min_unmet qos.min_bps env.capacity) (mimetype_unmet qos.metadata_mimetype)

abbrev pub new_stream : Env → Side → String → String → Qos → Stream
new_stream env side source destination qos = record {
  ksid = env.new_ksid;
  apps = record { source = source; destination = destination };
  qos = qos;
  is_opened = set_side side true (record { on_a = false; on_b = false });
  is_closed = record { on_a = false; on_b = false };
  state = pending_peer;
  chunks = [];
  delivered = record { on_a = []; on_b = [] };
}
