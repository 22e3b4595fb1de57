-- ===== src/Lab/Handled.antt =====
-- What every control and every call of the timer of the protocol lab (protocolLabSim.ts) keeps
-- to.
use Prim.Native.Nat.{Ordering}
use pqc_qkd_hybrid_network.Base.{
  ℕ, ◌≡◌, refl, sym, ◌∙◌, inl, inr, String, true, false, Option, none, some, [], if_both,
  Option-both, Option-split, All, List, ◌∷◌, Bool, find, subst, some_inj, str_eq, arith, Bool-cases,
}
use pqc_qkd_hybrid_network.Lab.Generate.{Params}
use pqc_qkd_hybrid_network.Lab.Links.{FailureTarget}
use pqc_qkd_hybrid_network.Lab.Records.{tick_paces}
use pqc_qkd_hybrid_network.Lab.Scenario.{
  Preset, Scenario, Catalog, preset_by_id, scenario_of, Run, with_stores, with_buffer, routes_alone,
}
use pqc_qkd_hybrid_network.Lab.State.{
  Status, running, paused, stepped, is_running, Sim, Platform, is_some,
}
use pqc_qkd_hybrid_network.Lab.Stream.{reroute}
use pqc_qkd_hybrid_network.Lab.Load.{
  Demand, Called, belongs, is_keys, load_lab, load_fields, loaded, load_found, load_listed, load,
  service_of, mode_of,
}
use pqc_qkd_hybrid_network.Lab.Control.{
  Event, start, resume, pause, reset, dispose, step, set_pace, load_preset, set_demand, fail_target,
  clear_target, fail_random, timer, ensure_loop, is_pace, is_paused, is_target, is_repair,
  random_target, inject_failure, clear_failure, step_once, on_timer, stopped_idle, demand_anew,
  handle,
}
use pqc_qkd_hybrid_network.Lab.Traces.{◌⨾◌, silent, reroute-Traces}
use pqc_qkd_hybrid_network.Lab.Pipeline.{open_stream-Traces}
use pqc_qkd_hybrid_network.Lab.Sound.{is_free_play, has_buffer, AreMatched, IsSound, Traces-IsSound}
use pqc_qkd_hybrid_network.Lab.Advanced.{advance-IsSound, advance-timer_on}

-- The presets of the catalog count keys or routes in free play.
abbrev pub AreFreePlay : Catalog → Type 0
AreFreePlay c = All (λ q. is_free_play q.free_play ≡ true) c.presets

find-All {ℓ} :
    {A : Type ℓ} (P : A → Type 0) (test : A → Bool) (xs : List A) (x : A)
    → All P xs
    → find test xs ≡ some x
    → P x
find-All P test [] x h e = absurd (cc e)
find-All P test (y ∷ ys) x (h, hs) e = elim (Bool-cases (test y)) [
  | inl hit ↦ subst P (some_inj (rw hit at e)) h
  | inr miss ↦ find-All P test ys x hs (rw miss at e)
]

module _ (p : Params) (collate : String → String → Ordering) (w : Platform) where
  loaded_matched :
      (preset : Preset) (sc : Option Scenario)
      → is_free_play preset.free_play ≡ true
      → AreMatched sc (mode_of preset sc) (service_of sc)
  loaded_matched preset none h = h
  loaded_matched preset (some sc) h = (refl, has sc.run)
    where
      has :
          (r : Run)
          → has_buffer r ≡ true
          → is_some (service_of (some (record sc { run = r }))) ≡ true
      has (with_buffer run) e = refl
      has (with_stores run) e = absurd (cc e)
      has routes_alone e = absurd (cc e)

  load_fields-IsSound :
      (preset : Preset) (sc : Option Scenario) (d : Option Demand) (s : Sim)
      → s.timer_on ≡ false
      → belongs preset sc ≡ true
      → is_free_play preset.free_play ≡ true
      → IsSound (load_fields p preset sc d s)
  unfolding load_fields load_lab
  load_fields-IsSound preset sc d s off own ok = record {
    matched = loaded_matched preset sc ok;
    bounded = record {
      history = omega arith;
      messages = omega arith;
      reroutes = omega arith;
      credit = omega arith;
      looped = λ e. absurd (cc (sym off ∙ e));
    };
    belonging = own;
    free = ok;
  }

  loaded-IsSound :
      (preset : Preset) (sc : Option Scenario) (d : Option Demand) (s : Sim)
      → s.timer_on ≡ false
      → belongs preset sc ≡ true
      → is_free_play preset.free_play ≡ true
      → IsSound (loaded p collate w preset sc d s)
  unfolding loaded
  loaded-IsSound preset sc d s off own ok =
      let first = load_fields p preset sc d s in
      let moved = reroute collate p.key_bits first in
      let h = load_fields-IsSound preset sc d s off own ok in
      let tr = reroute-Traces collate p.key_bits first in
      if_both IsSound (is_keys moved.lab.accounting) _ _
        (Traces-IsSound _ first _ (tr ⨾ open_stream-Traces w moved) h)
        (Traces-IsSound _ first moved tr h)

  load_found-IsSound :
      (preset : Preset) (sc : Option Scenario) (d : Option Demand) (s : Sim)
      → s.timer_on ≡ false
      → is_free_play preset.free_play ≡ true
      → (load_found p collate w preset sc d s).1 ≡ false
      → IsSound (load_found p collate w preset sc d s).0
  unfolding load_found
  load_found-IsSound preset sc d s off ok done = elim (Bool-cases (belongs preset sc)) [
    | inl own ↦ rw own (loaded-IsSound preset sc d s off own ok)
    | inr other ↦ absurd (cc (rw other at done))
  ]

  load-IsSound :
      (c : Catalog) (preset_id : String) (scenario_id : Option String) (d : Option Demand) (s : Sim)
      → s.timer_on ≡ false
      → AreFreePlay c
      → (load p collate w c preset_id scenario_id d s).1 ≡ false
      → IsSound (load p collate w c preset_id scenario_id d s).0
  unfolding load load_listed
  load-IsSound c preset_id scenario_id d s off free =
      Option-split (λ (r : Called). r.1 ≡ false → IsSound r.0) (preset_by_id preset_id c.presets) _
        _ (λ _ e. absurd (cc e))
        (λ preset found.
          Option-both (λ (r : Called). r.1 ≡ false → IsSound r.0) (scenario_of c scenario_id) _ _
            (λ e. absurd (cc e))
            (λ sc e.
              load_found-IsSound preset sc d s off
                (find-All (λ q. is_free_play q.free_play ≡ true) (λ q. str_eq q.id preset_id)
                  c.presets preset free found)
                e))

  -- A change of the status that does not let the timer run by itself.
  with_status :
      (s : Sim) (st : Status)
      → (s.timer_on ≡ true → is_running st ≡ true)
      → IsSound s
      → IsSound (record s { status = st })
  with_status s st looped h = record {
    matched = h.matched;
    bounded = record {
      history = h.bounded.history;
      messages = h.bounded.messages;
      reroutes = h.bounded.reroutes;
      credit = h.bounded.credit;
      looped = looped;
    };
    belonging = h.belonging;
    free = h.free;
  }

  without_timer : (s : Sim) → IsSound s → IsSound (record s { timer_on = false })
  without_timer s h = record {
    matched = h.matched;
    bounded = record {
      history = h.bounded.history;
      messages = h.bounded.messages;
      reroutes = h.bounded.reroutes;
      credit = h.bounded.credit;
      looped = λ e. cc e;
    };
    belonging = h.belonging;
    free = h.free;
  }

  ensure_loop-IsSound :
      (now : ℕ) (s : Sim) → IsSound s → IsSound (ensure_loop now (record s { status = running }))
  ensure_loop-IsSound now s h =
      let on = with_status s running (λ _. refl) h in
      if_both IsSound s.timer_on _ _ on (record {
        matched = on.matched;
        bounded = record {
          history = on.bounded.history;
          messages = on.bounded.messages;
          reroutes = on.bounded.reroutes;
          credit = on.bounded.credit;
          looped = λ _. refl;
        };
        belonging = on.belonging;
        free = on.free;
      })

  inject_failure-IsSound :
      (t : FailureTarget) (s : Sim) → IsSound s → IsSound (inject_failure p collate w t s)
  unfolding inject_failure
  inject_failure-IsSound t s h =
      if_both IsSound (is_target s.lab.links t) _ _
        (Traces-IsSound _ s _ (silent s _ refl ⨾ reroute-Traces collate _ _) h) h

  clear_failure-IsSound :
      (t : Option FailureTarget) (s : Sim) → IsSound s → IsSound (clear_failure p collate w t s)
  unfolding clear_failure
  clear_failure-IsSound t s h =
      if_both IsSound (is_repair s.lab.links t) _ _
        (Traces-IsSound _ s _ (silent s _ refl ⨾ reroute-Traces collate _ _) h) h

  step_once-IsSound : (now : ℕ) (s : Sim) → IsSound s → IsSound (step_once p collate w now s)
  unfolding step_once
  step_once-IsSound now s h = elim (Bool-cases (is_running s.status)) [
    | inl runs ↦ rw runs h
    | inr stands ↦
        let begun : Sim = record s { status = stepped } in
        let off : s.timer_on ≡ true → ⊥ = λ e. cc (stands, h.bounded.looped e) in
        let ready = with_status s stepped (λ e. absurd (off e)) h in
        let ticked = advance-IsSound p collate w now begun ready in
        rw stands (
          if_both IsSound (is_paused s.status) _ _
            (with_status _ paused
              (λ e. absurd (off (advance-timer_on p collate w now begun ready.matched e))) ticked)
            ticked)
  ]

  on_timer-IsSound : (now : ℕ) (s : Sim) → IsSound s → IsSound (on_timer p collate w now s)
  unfolding on_timer
  on_timer-IsSound now s h =
      let ready : IsSound (record s { last_advance = now }) =
        Traces-IsSound [] s _ (silent s _ refl) h in
      if_both IsSound _ _ _ h (if_both IsSound _ _ _ h (advance-IsSound p collate w now _ ready))

module _ (c : Catalog) (p : Params) (collate : String → String → Ordering) (w : Platform) where
  demand_anew-IsSound :
      (d : Demand) (s : Sim)
      → AreFreePlay c
      → IsSound s
      → (demand_anew c p collate w d s).1 ≡ false
      → IsSound (demand_anew c p collate w d s).0
  unfolding demand_anew
  demand_anew-IsSound d s free h = elim (Bool-cases (is_some s.scenario)) [
    | inl replay ↦ λ e. rw replay h
    | inr free_play ↦ λ e.
        rw free_play
          (load-IsSound p collate w c s.preset.id none (some d) _ refl free (rw free_play at e))
  ]

  -- With a catalog of presets that count keys or routes in free play, every control and every call of
  -- the timer that does not throw leaves a simulator sound: its
  -- accounting is that of its run, with a service where the run has a buffer, or one of free play; the
  -- timeline, the history and the reroutes keep within their limits; less than one key of demand is
  -- carried over; and the timer is set only while it runs.
  pub handle-IsSound :
      (e : Event) (s : Sim)
      → AreFreePlay c
      → IsSound s
      → (handle c p collate w e s).1 ≡ false
      → IsSound (handle c p collate w e s).0
  unfolding handle
  handle-IsSound (start now) s ok h done = ensure_loop-IsSound p collate w now s h
  handle-IsSound (resume now) s ok h done = ensure_loop-IsSound p collate w now s h
  handle-IsSound pause s ok h done =
      with_status p collate w (record s { timer_on = false }) paused (λ e. absurd (cc e))
        (without_timer p collate w s h)
  handle-IsSound reset s ok h done =
      load-IsSound p collate w c s.preset.id _ none (stopped_idle s) refl ok done
  handle-IsSound dispose s ok h done =
      Traces-IsSound [] (record s { timer_on = false }) _ (silent _ _ refl)
        (without_timer p collate w s h)
  handle-IsSound (step now) s ok h done = step_once-IsSound p collate w now s h
  handle-IsSound (set_pace ms) s ok h done =
      if_both IsSound (is_pace ms tick_paces) _ _ (Traces-IsSound [] s _ (silent s _ refl) h) h
  handle-IsSound (load_preset preset_id scenario_id) s ok h done =
      load-IsSound p collate w c preset_id scenario_id none (stopped_idle s) refl ok done
  handle-IsSound (set_demand d) s ok h done = demand_anew-IsSound d s ok h done
  handle-IsSound (fail_target t) s ok h done = inject_failure-IsSound p collate w t s h
  handle-IsSound (clear_target t) s ok h done = clear_failure-IsSound p collate w t s h
  handle-IsSound (fail_random seed) s ok h done =
      Option-both (λ (r : Called). IsSound r.0) (random_target seed s.lab.links) _ _ h
        (λ t. inject_failure-IsSound p collate w t s h)
  handle-IsSound (timer now) s ok h done = on_timer-IsSound p collate w now s h
