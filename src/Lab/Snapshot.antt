-- ===== src/Lab/Snapshot.antt =====
-- `snapshot` and the CSV rows of the protocol lab
-- (services/webui-frontend/src/lib/sim/protocolLabSim.ts): what the page and the export are given. The
-- fields that the snapshot copies as they stand are those of the simulator; labels are left out.
use mathlib.Core.Option
use pqc_qkd_hybrid_network.Base.{
  ℕ, ◌+◌, String, Option, none, some, List, [], ◌∷◌, map, find, str_eq, if◌then◌else◌,
}
use pqc_qkd_hybrid_network.Base.Int.{ℤ, sub_ℕ}
use pqc_qkd_hybrid_network.Base.Text.{text}
use pqc_qkd_hybrid_network.Etsi004.Spec.{index_origin}
use pqc_qkd_hybrid_network.Etsi004.Stream.{StreamState}
use pqc_qkd_hybrid_network.Etsi004.Km.{Listed, list, chunk_bytes}
use pqc_qkd_hybrid_network.Lab.Links.{Accounting, counts_requests}
use pqc_qkd_hybrid_network.Lab.Records.{TickRec}
use pqc_qkd_hybrid_network.Lab.State.{Sim, Status, Service, key_bytes, time_s}

-- The stream as the page shows it.
pub record StreamView : Type 0 where
  pub ksid : String
  pub state : StreamState
  pub next_index : ℕ
  pub undelivered : ℤ
  pub delivered : ℕ
  pub key_chunk_bytes : ℕ
  pub last_status : Option ℕ

unfoldable pub view_listed : Sim → String → Listed → StreamView
view_listed s ksid x = record {
  ksid = ksid;
  state = x.state;
  next_index = index_origin + x.delivered.on_a;
  undelivered = sub_ℕ x.chunks x.delivered.on_a;
  delivered = x.delivered.on_a;
  key_chunk_bytes = Option.get_or (chunk_bytes s.km ksid) (key_bytes s);
  last_status = s.last_status;
}

-- No view of a stream that is not open, or that the key manager does not list.
unfoldable pub view_stream : Sim → Option StreamView
view_stream s = elim s.ksid [
  | none ↦ none
  | some ksid ↦
      Option.map (view_listed s ksid) (find (λ (x : Listed). str_eq x.ksid ksid) (list s.km))
]

-- The fields that a snapshot computes.
pub record Snapshot : Type 0 where
  pub status : Status
  pub preset_id : String
  pub scenario_id : Option String
  pub tick : ℕ
  pub sim_time_s : ℕ
  pub requests_ok : Option ℕ
  pub requests_failed : Option ℕ
  pub service : Option Service
  pub stream : Option StreamView

-- A count of requests, in the modes that count them.
abbrev pub request_count : Accounting → ℕ → Option ℕ
request_count accounting n = if counts_requests accounting then some n else none

unfoldable pub snapshot : Sim → Snapshot
unfolding view_stream
snapshot s = record {
  status = s.status;
  preset_id = s.preset.id;
  scenario_id = Option.map (λ sc. sc.id) s.scenario;
  tick = s.lab.tick_n;
  sim_time_s = time_s s;
  requests_ok = request_count s.lab.accounting s.requests_ok;
  requests_failed = request_count s.lab.accounting s.requests_failed;
  service = s.service;
  stream = view_stream s;
}

-- A row of the export, without the columns that are the same in all rows. The date is the number that
-- is printed.
pub record CsvRow : Type 0 where
  pub tick : ℕ
  pub sim_time_s : ℕ
  pub started_at : ℕ
  pub ui_dwell_ms : Option ℤ
  pub nominal_dwell_ms : ℕ
  pub preset : String
  pub scenario : String
  pub accounting : Accounting
  pub demand : String
  pub route : String
  pub relays : Option ℕ
  pub delivered_bits : ℕ
  pub unmet_bits : ℕ
  pub event : String
  pub buffers : List (String × Option ℤ)

unfoldable pub csv_row : Sim → TickRec → CsvRow
unfolding text
csv_row s h = record {
  tick = h.tick;
  sim_time_s = h.sim_time_s;
  started_at = h.started_at;
  ui_dwell_ms = h.ui_dwell_ms;
  nominal_dwell_ms = h.nominal_dwell_ms;
  preset = s.preset.id;
  scenario = Option.get_or (Option.map (λ sc. sc.id) s.scenario) "";
  accounting = s.lab.accounting;
  demand = text (s.lab.demand_from ∷ "->" ∷ s.lab.demand_to ∷ []);
  route = h.route;
  relays = h.relays;
  delivered_bits = h.delivered_bits;
  unmet_bits = h.unmet_bits;
  event = h.event;
  buffers = map (λ b. (text ("buf_" ∷ b.0 ∷ []), b.1)) h.buffers;
}

unfoldable pub protocol_lab_csv_rows : Sim → List CsvRow
unfolding csv_row
protocol_lab_csv_rows s = map (csv_row s) s.history
