-- ===== src/Lab/Advanced.antt =====
-- What every tick of the protocol lab (protocolLabSim.ts) keeps to and records.
use Prim.Native.Nat.{Ordering}
use mathlib.Core.Option
use pqc_qkd_hybrid_network.Base.{
  ℕ, ◌≡◌, refl, sym, ap, subst, ◌∙◌, String, true, Option, none, some, List, if_both,
}
use pqc_qkd_hybrid_network.Lab.Generate.{Params}
use pqc_qkd_hybrid_network.Lab.Links.{Accounting, keys, stores, service_buffer, route_only}
use pqc_qkd_hybrid_network.Lab.Records.{TickStepId, tick_pipeline, history_limit}
use pqc_qkd_hybrid_network.Lab.Scenario.{
  Run, Scenario, with_stores, with_buffer, routes_alone, accounting_of,
}
use pqc_qkd_hybrid_network.Lab.State.{Sim, Service, Platform, is_some}
use pqc_qkd_hybrid_network.Lab.Tick.{Ticked, tick_keys}
use pqc_qkd_hybrid_network.Lab.Advance.{
  halts, begin_tick, record_of, halt, end_tick, run_of, tick_with, tick_mode, advance,
}
use pqc_qkd_hybrid_network.Lab.Sound.{has_buffer, AreMatched, IsMatched, IsSound, Traces-IsSound}
use pqc_qkd_hybrid_network.Lab.Traces.{Traces, length-push_limited, traced_ids}
use pqc_qkd_hybrid_network.Lab.Parts.{tick_keys-Traces}
use pqc_qkd_hybrid_network.Lab.ModeTraces.{
  tick_stores-Traces, tick_buffer-Traces, tick_routes-Traces,
}

module _ (p : Params) (collate : String → String → Ordering) (w : Platform) where
  abbrev TracesMode : Accounting → Sim → Ticked → Type 0
  TracesMode accounting s t = Traces (tick_pipeline accounting) s t.sim

  tick_with-Traces :
      (run : Run) (svc : Option Service) (s : Sim)
      → (has_buffer run ≡ true → is_some svc ≡ true)
      → TracesMode (accounting_of run) s (tick_with p collate w run svc s)
  unfolding tick_with
  tick_with-Traces (with_stores run) svc s h = tick_stores-Traces collate w run s
  tick_with-Traces (with_buffer run) none s h = absurd (cc (h refl))
  tick_with-Traces (with_buffer run) (some svc) s h = tick_buffer-Traces collate w run svc s
  tick_with-Traces routes_alone svc s h = tick_routes-Traces collate w s

  -- The tick of a mode, once the scenario and the accounting are known.
  abbrev mode_of_run : Option Scenario → Accounting → Option Service → Sim → Ticked
  mode_of_run sc accounting svc s = elim accounting [
    | keys ↦ tick_keys p collate w s
    | _ ↦ tick_with p collate w (run_of sc) svc s
  ]

  mode_of_run-Traces :
      (sc : Option Scenario) (accounting : Accounting) (svc : Option Service) (s : Sim)
      → AreMatched sc accounting svc
      → TracesMode accounting s (mode_of_run sc accounting svc s)
  mode_of_run-Traces sc keys svc s m = tick_keys-Traces p collate w s
  mode_of_run-Traces none route_only svc s m = tick_with-Traces routes_alone svc s (λ e. cc e)
  mode_of_run-Traces none stores svc s m = absurd (cc m)
  mode_of_run-Traces none service_buffer svc s m = absurd (cc m)
  mode_of_run-Traces (some sc) stores svc s m =
      subst (λ a. TracesMode a s (tick_with p collate w sc.run svc s)) (sym m.0)
        (tick_with-Traces sc.run svc s m.1)
  mode_of_run-Traces (some sc) service_buffer svc s m =
      subst (λ a. TracesMode a s (tick_with p collate w sc.run svc s)) (sym m.0)
        (tick_with-Traces sc.run svc s m.1)
  mode_of_run-Traces (some sc) route_only svc s m =
      subst (λ a. TracesMode a s (tick_with p collate w sc.run svc s)) (sym m.0)
        (tick_with-Traces sc.run svc s m.1)

  tick_mode-Traces :
      (s : Sim) → IsMatched s → TracesMode s.lab.accounting s (tick_mode p collate w s)
  unfolding tick_mode
  tick_mode-Traces s m = mode_of_run-Traces s.scenario s.lab.accounting s.service s m

  -- The parts that the trace of the latest tick holds.
  abbrev pub last_ids : Sim → Option (List TickStepId)
  last_ids s = Option.map (λ t. traced_ids t.steps) s.last_tick

  halt-last_ids : (s : Sim) → last_ids (halt s) ≡ last_ids s
  unfolding halt
  halt-last_ids s = if_both (λ (x : Sim). last_ids x ≡ last_ids s) (halts s) _ _ refl refl

  end_tick-last_ids :
      (now : ℕ) (before : Sim) (t : Ticked)
      → last_ids (end_tick now before t) ≡ some (traced_ids t.sim.trace_steps)
  unfolding end_tick
  end_tick-last_ids now before t = halt-last_ids _

  -- A tick of a simulator whose accounting is that of its run traces just the parts of that mode's
  -- pipeline, each once and in its order.
  pub advance-pipeline :
      (now : ℕ) (s : Sim)
      → IsMatched s
      → last_ids (advance p collate w now s) ≡ some (tick_pipeline s.lab.accounting)
  unfolding advance begin_tick traced_ids
  advance-pipeline now s m =
      end_tick-last_ids now s (tick_mode p collate w (begin_tick now s))
      ∙ ap some (tick_mode-Traces (begin_tick now s) m).traced

  halt-IsSound : (s : Sim) → IsSound s → IsSound (halt s)
  unfolding halt
  halt-IsSound s h =
      if_both IsSound (halts s) _ _
        (record {
          matched = h.matched;
          bounded = record {
            history = h.bounded.history;
            messages = h.bounded.messages;
            reroutes = h.bounded.reroutes;
            credit = h.bounded.credit;
            looped = λ e. cc e;
          };
          belonging = h.belonging;
          free = h.free;
        })
        h

  end_tick-IsSound :
      (now : ℕ) (before : Sim) (t : Ticked) → IsSound t.sim → IsSound (end_tick now before t)
  unfolding end_tick
  end_tick-IsSound now before t h = halt-IsSound _ (record {
    matched = h.matched;
    bounded = record {
      history =
          length-push_limited history_limit t.sim.history (record_of now before t)
            h.bounded.history;
      messages = h.bounded.messages;
      reroutes = h.bounded.reroutes;
      credit = h.bounded.credit;
      looped = h.bounded.looped;
    };
    belonging = h.belonging;
    free = h.free;
  })

  begin_tick-IsSound : (now : ℕ) (s : Sim) → IsSound s → IsSound (begin_tick now s)
  unfolding begin_tick
  begin_tick-IsSound now s h = record {
    matched = h.matched;
    bounded = record {
      history = h.bounded.history;
      messages = h.bounded.messages;
      reroutes = h.bounded.reroutes;
      credit = h.bounded.credit;
      looped = h.bounded.looped;
    };
    belonging = h.belonging;
    free = h.free;
  }

  pub advance-IsSound : (now : ℕ) (s : Sim) → IsSound s → IsSound (advance p collate w now s)
  unfolding advance
  advance-IsSound now s h =
      let begun = begin_tick-IsSound now s h in
      end_tick-IsSound now s _ (
        Traces-IsSound _ (begin_tick now s) _ (tick_mode-Traces (begin_tick now s) begun.matched)
          begun)

  halt-timer_on : (s : Sim) → (halt s).timer_on ≡ true → s.timer_on ≡ true
  unfolding halt
  halt-timer_on s =
      if_both (λ (x : Sim). x.timer_on ≡ true → s.timer_on ≡ true) (halts s) _ _ (λ e. cc e)
        (λ e. e)

  -- A tick does not set the timer.
  pub advance-timer_on :
      (now : ℕ) (s : Sim)
      → IsMatched s
      → (advance p collate w now s).timer_on ≡ true
      → s.timer_on ≡ true
  unfolding advance end_tick begin_tick
  advance-timer_on now s m e =
      sym (ap (λ k. k.timer_on) (tick_mode-Traces (begin_tick now s) m).kept) ∙ halt-timer_on _ e
