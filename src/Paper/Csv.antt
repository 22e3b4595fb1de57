-- ===== src/Paper/Csv.antt =====
-- `paperCsvRows` of services/webui-frontend/src/lib/sim/paperSim.ts: the history as rows of a CSV.
use mathlib.Core.Option
use pqc_qkd_hybrid_network.Base.{ℕ, String, Option, none, some, List, map, ◌==◌, if◌then◌else◌}
use pqc_qkd_hybrid_network.Base.Int.{ℤ, sub_ℕ}
use pqc_qkd_hybrid_network.Paper.State.{PhaseRec, nominal_phase_dwell_ms}

pub record CsvRow : Type 0 where
  pub phase : ℕ
  pub name : String
  pub started_at : ℕ
  pub completed_at : Option ℕ
  pub ui_dwell_ms : Option ℤ
  pub nominal_dwell_ms : ℕ
  pub packets : ℕ
  pub bytes : ℕ

-- A time, unless it is 0, which counts as none.
abbrev pub truthy : Option ℕ → Option ℕ
truthy none = none
truthy (some t) = if t == 0 then none else some t

abbrev pub csv_row : PhaseRec → CsvRow
csv_row h = record {
  phase = h.phase;
  name = h.name;
  started_at = h.started_at;
  completed_at = truthy h.completed_at;
  ui_dwell_ms = Option.map (λ t. sub_ℕ t h.started_at) (truthy h.completed_at);
  nominal_dwell_ms = nominal_phase_dwell_ms;
  packets = h.packets;
  bytes = h.bytes;
}

abbrev pub paper_csv_rows : List PhaseRec → List CsvRow
paper_csv_rows history = map csv_row history
