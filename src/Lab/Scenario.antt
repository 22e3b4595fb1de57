-- ===== src/Lab/Scenario.antt =====
-- The presets and scenarios that the protocol lab loads: the types of
-- services/webui-frontend/src/lib/sim/protocolLab/publishedNetworks.ts that its simulator reads. A
-- printed quantity stands as the number that `quantityValue` gives: rates in thousandths of a bit or of
-- a key per second, stores in bits, times in seconds.
use mathlib.Core.Option
use pqc_qkd_hybrid_network.Base.{ℕ, String, Option, none, some, List, str_eq, find, if◌then◌else◌}
use pqc_qkd_hybrid_network.Base.Int.{ℤ}
use pqc_qkd_hybrid_network.Lab.Links.{Accounting, stores, service_buffer, route_only, LinkKind}

pub record PresetLink : Type 0 where
  pub id : String
  pub a : String
  pub b : String
  pub kind : LinkKind
  pub rate : Option ℕ

-- What describes a preset to a reader is left out.
pub record Preset : Type 0 where
  pub id : String
  pub nodes : List String
  pub links : List PresetLink
  pub free_play : Accounting
  pub default_from : String
  pub default_to : String

-- How a link of a run with stores generates.
pub data Generation : Type 0 where
  equals_demand : (until_s : ℕ) → Generation
  not_generating unquantified : Generation

-- Demands are in whole bits per second here.
pub record StoresRun : Type 0 where
  pub rate_bps : ℕ
  pub threshold : ℤ
  pub stores : List (String × ℤ)
  pub generation : List (String × Generation)

pub record BufferRun : Type 0 where
  pub rate : ℕ
  pub capacity : ℕ
  pub refill_at : ℕ
  pub refill_to : ℕ

-- `StoresScenario`, `ServiceBufferScenario` and `RouteOnlyScenario`
pub data Run : Type 0 where
  with_stores : StoresRun → Run
  with_buffer : BufferRun → Run
  routes_alone : Run

pub record Scenario : Type 0 where
  pub id : String
  pub preset_id : String
  pub tick_s : ℕ
  pub demand_from : String
  pub demand_to : String
  pub preferred : Option (List String)
  pub not_in_run : List String
  pub run : Run

abbrev pub accounting_of : Run → Accounting
accounting_of (with_stores r) = stores
accounting_of (with_buffer r) = service_buffer
accounting_of routes_alone = route_only

-- `presetById` and `scenarioById` in a list; `none` is the error that they throw.
abbrev pub preset_by_id : String → List Preset → Option Preset
preset_by_id id ps = find (λ p. str_eq p.id id) ps

abbrev pub scenario_by_id : String → List Scenario → Option Scenario
scenario_by_id id ss = find (λ s. str_eq s.id id) ss

-- `PRESETS` and `SCENARIOS`, whose figures are data and left to be given.
pub record Catalog : Type 0 where
  pub presets : List Preset
  pub scenarios : List Scenario

-- `scenarioId ? scenarioById(scenarioId) : null`, where `none` is the error: the empty id is no id.
abbrev pub scenario_of : Catalog → Option String → Option (Option Scenario)
scenario_of c none = some none
scenario_of c (some id) =
    if str_eq id "" then some none else Option.map some (scenario_by_id id c.scenarios)
