-- ===== src/Lab/Advance.antt =====
-- `advance` of the protocol lab (services/webui-frontend/src/lib/sim/protocolLabSim.ts): a tick, from the
-- events that waited for it to its record.
use Prim.Native.Nat.{Ordering}
use mathlib.Core.Option
use pqc_qkd_hybrid_network.Base.{
  ℕ, ◌+◌, String, Bool, true, false, not, ◌&&◌, Option, none, some, [], map, if◌then◌else◌,
}
use pqc_qkd_hybrid_network.Base.Int.{ℤ, pos, sub_ℕ}
use pqc_qkd_hybrid_network.Routing.Rank.{route_key, join}
use pqc_qkd_hybrid_network.Lab.Links.{Accounting, keys, stores, LinkState}
use pqc_qkd_hybrid_network.Lab.Generate.{Params}
use pqc_qkd_hybrid_network.Lab.Records.{TickRec, history_limit, push_limited}
use pqc_qkd_hybrid_network.Lab.Scenario.{Scenario, Run, with_stores, with_buffer, routes_alone}
use pqc_qkd_hybrid_network.Lab.State.{paused, is_running, Sim, Service, Platform, time_s, is_some}
use pqc_qkd_hybrid_network.Lab.Tick.{Ticked, tick_keys}
use pqc_qkd_hybrid_network.Lab.Modes.{tick_stores, tick_buffer, tick_routes}

-- The buffer of a link that a record shows.
abbrev pub buffer_of : Accounting → LinkState → Option ℤ
buffer_of stores l = l.stored_bits
buffer_of keys l = Option.map pos l.stored_keys
buffer_of _ l = none

abbrev pub is_stores : Accounting → Bool
is_stores stores = true
is_stores _ = false

-- The start of a tick.
unfoldable pub begin_tick : ℕ → Sim → Sim
begin_tick now s = record s {
  lab = record s.lab { tick_n = s.lab.tick_n + 1 };
  last_tick_start = some now;
  pending_event = [];
  trace_steps = [];
  trace_relay = none;
}

-- The record of a tick, from the state before it and what it came to.
unfoldable pub record_of : ℕ → Sim → Ticked → TickRec
record_of now before t =
    let s = t.sim in
    record {
      tick = s.lab.tick_n;
      sim_time_s = time_s s;
      started_at = now;
      ui_dwell_ms = Option.map (sub_ℕ now) before.last_tick_start;
      nominal_dwell_ms = s.pace_ms;
      route = elim s.lab.route [ none ↦ "" | some r ↦ route_key r.nodes ];
      relays = Option.map (λ r. r.relays) s.lab.route;
      delivered_bits = t.delivered;
      unmet_bits = t.unmet;
      event = join "; " before.pending_event;
      buffers = map (λ l. (l.id, buffer_of s.lab.accounting l)) s.lab.links;
    }

abbrev pub halts : Sim → Bool
halts s = is_stores s.lab.accounting && (not (is_some s.lab.route) && is_running s.status)

-- A run with stores that has no route left is paused.
unfoldable pub halt : Sim → Sim
halt s = if halts s then record s { status = paused; timer_on = false } else s

-- The end of a tick: the totals, the record and the trace.
unfoldable pub end_tick : ℕ → Sim → Ticked → Sim
end_tick now before t =
    let s = t.sim in
    halt (record s {
      delivered = s.delivered + t.delivered;
      unmet = s.unmet + t.unmet;
      history = push_limited history_limit s.history (record_of now before t);
      last_tick = some (record {
        tick = s.lab.tick_n;
        t_s = time_s s;
        steps = s.trace_steps;
        relay = s.trace_relay;
      });
    })

-- The run of a scenario, that of free play with routes alone if there is none.
abbrev pub run_of : Option Scenario → Run
run_of none = routes_alone
run_of (some sc) = sc.run

module _ (p : Params) (collate : String → String → Ordering) (w : Platform) where
  -- A service that is missing, at which the source throws, is not met: a run with a buffer loads one.
  unfoldable pub tick_with : Run → Option Service → Sim → Ticked
  tick_with (with_stores run) svc s = tick_stores collate w run s
  tick_with (with_buffer run) (some svc) s = tick_buffer collate w run svc s
  tick_with (with_buffer run) none s = tick_routes collate w s
  tick_with routes_alone svc s = tick_routes collate w s

  -- The accounting is that of the scenario's run, or counts keys or routes in free play.
  unfoldable pub tick_mode : Sim → Ticked
  tick_mode s = elim s.lab.accounting [
    | keys ↦ tick_keys p collate w s
    | _ ↦ tick_with (run_of s.scenario) s.service s
  ]

  unfoldable pub advance : ℕ → Sim → Sim
  advance now s = end_tick now s (tick_mode (begin_tick now s))
