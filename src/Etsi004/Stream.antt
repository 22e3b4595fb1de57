-- ===== src/Etsi004/Stream.antt =====
-- The types of services/webui-frontend/src/lib/sim/protocolLab/etsi004.ts: sides, quality of
-- service, streams, call results and the environment of the key manager.
use pqc_qkd_hybrid_network.Base.{
  ℕ, String, Bool, true, false, ◌||◌, ◌&&◌, Option, none, some, List, [], ◌∷◌, ◌++◌, str_eq, ◌==◌,
  if◌then◌else◌,
}
use pqc_qkd_hybrid_network.Etsi004.Spec.{unknown_ksid_http}

pub data Side : Type 0 where
  side_a side_b : Side

abbrev pub other : Side → Side
other side_a = side_b
other side_b = side_a

-- `Record<Side, A>`
pub record PerSide {ℓ} (A : Type ℓ) : Type ℓ where
  pub on_a : A
  pub on_b : A

module _ {ℓ} {A : Type ℓ} where
  abbrev pub at_side : Side → PerSide A → A
  at_side side_a r = r.on_a
  at_side side_b r = r.on_b

  abbrev pub set_side : Side → A → PerSide A → PerSide A
  set_side side_a x r = record r { on_a = x }
  set_side side_b x r = record r { on_b = x }

-- Rates are in thousandths of a bit per second, all else in the units of the source.
pub record Qos : Type 0 where
  pub key_chunk_size : Option ℕ
  pub max_bps : Option ℕ
  pub min_bps : Option ℕ
  pub jitter : Option ℕ
  pub priority : Option ℕ
  pub timeout : Option ℕ
  pub ttl : Option ℕ
  pub metadata_mimetype : Option String

abbrev pub empty_qos : Qos
empty_qos = record {
  key_chunk_size = none;
  max_bps = none;
  min_bps = none;
  jitter = none;
  priority = none;
  timeout = none;
  ttl = none;
  metadata_mimetype = none;
}

pub data StreamState : Type 0 where
  pending_peer established closing closed : StreamState

pub record Apps : Type 0 where
  pub source : String
  pub destination : String

-- `chunks[i]`: its `data` is `bytes` here.
pub record Chunk : Type 0 where
  pub bytes : List ℕ
  pub available_at : ℕ
  pub hops : ℕ

-- A `Set<number>` of delivered indices is a list without repetition.
pub record Stream : Type 0 where
  pub ksid : String
  pub apps : Apps
  pub qos : Qos
  pub is_opened : PerSide Bool
  pub is_closed : PerSide Bool
  pub state : StreamState
  pub chunks : List Chunk
  pub delivered : PerSide (List ℕ)

-- `set.has(i)`
abbrev pub has : List ℕ → ℕ → Bool
has [] i = false
has (x ∷ xs) i = x == i || has xs i

-- `set.add(i)`
unfoldable pub add : ℕ → List ℕ → List ℕ
add i xs = if has xs i then xs else xs ++ i ∷ []

-- The transitions that the simulated key manager can take.
pub data Transition : Type 0 where
  t1 t2 t3 t5 t6 t7 t8 t9 t10 t11 t12 t13 t15 t16 t17 t20 t21 : Transition

-- One constructor for each text that the source puts into `detail`.
pub data Detail : Type 0 where
  predefined_not_simulated another_pair not_reused already_opened no_route : Detail
  chunk_not_multiple min_above_capacity mimetype_unsupported : Detail
  unknown_or_closed no_working_link already_delivered not_relayed_yet : Detail
  unknown_ksid already_closed : Detail

-- The metadata object before it is printed.
pub record MetadataBody : Type 0 where
  pub age : ℕ
  pub hops : ℕ

pub record Metadata : Type 0 where
  pub metadata_size : ℕ
  pub metadata_buffer : Option MetadataBody

-- A field that the source leaves undefined is `none`, as one that it sets to null. `rateBasis`, a
-- label, is left out.
pub record CallResult : Type 0 where
  pub status : Option ℕ
  pub http : Option ℕ
  pub transition : Transition
  pub key_stream_id : Option String
  pub qos : Option Qos
  pub index : Option ℕ
  pub key_buffer : Option (List ℕ)
  pub metadata : Option Metadata
  pub detail : Option Detail

-- What the functions of `Km004Env` return during one call.
pub record Env : Type 0 where
  pub key_chunk_bytes : ℕ
  pub route_up : Bool
  pub capacity : Option ℕ
  pub now : ℕ
  pub new_ksid : String

-- Same application pair, in either orientation.
abbrev pub same_apps : Apps → Apps → Bool
same_apps a b =
    str_eq a.source b.source && str_eq a.destination b.destination
    || str_eq a.source b.destination && str_eq a.destination b.source

abbrev pub is_state : StreamState → StreamState → Bool
is_state pending_peer pending_peer = true
is_state established established = true
is_state closing closing = true
is_state closed closed = true
is_state _ _ = false

-- A result with a status and a transition and nothing else.
abbrev pub plain : Option ℕ → Transition → CallResult
plain status transition = record {
  status = status;
  http = none;
  transition = transition;
  key_stream_id = none;
  qos = none;
  index = none;
  key_buffer = none;
  metadata = none;
  detail = none;
}

-- The HTTP answer of the binding for a stream that is not there.
abbrev pub not_found : Detail → CallResult
not_found d = record (plain none t20) { http = some unknown_ksid_http; detail = some d }
