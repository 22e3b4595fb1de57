-- ===== src/Paper/Safe.antt =====
-- Every event of the paper flow simulator (services/webui-frontend/src/lib/sim/paperSim.ts) keeps its state
-- orderly.
use pqc_qkd_hybrid_network.Base.{
  ◌-◌, ◌≡◌, sym, ap, ◌∙◌, inl, inr, Bool, true, false, not, Option, none, some, ◌==◌, arith,
  Bool-cases, if_both,
}
use pqc_qkd_hybrid_network.E2e.State.{Status, stepped, dwell_done}
use pqc_qkd_hybrid_network.E2e.Crypto.{Noble, World}
use pqc_qkd_hybrid_network.E2e.Fields.{is_running}
use pqc_qkd_hybrid_network.Paper.State.{nominal_phase_dwell_ms, did_step}
use pqc_qkd_hybrid_network.Paper.Fields.{Sim, record_action, begin_cycle, emit}
use pqc_qkd_hybrid_network.Paper.Work.{run_phase}
use pqc_qkd_hybrid_network.Paper.Control.{
  set_status, returned, after_run, relabel, tick_cascade, emit_cascade, Event, starts, pauses,
  resumes, resets, steps, fires, clears, disposes, sets_hops, injects, step, tick, fire, handle,
}
use pqc_qkd_hybrid_network.Paper.Orderly.{IsOrderly, begin_cycle-IsOrderly}
use pqc_qkd_hybrid_network.Paper.Done.{Yields}
use pqc_qkd_hybrid_network.Paper.Moved.{control, run_phase-IsOrderly, run_phase-control}
use pqc_qkd_hybrid_network.Paper.Kept.{
  start-IsOrderly, resume-IsOrderly, pause-IsOrderly, inject_failure-IsOrderly,
  clear_failure-IsOrderly, set_hop_count-IsOrderly, reset-IsOrderly, tick_cascade-IsOrderly,
  emit_cascade-IsOrderly, begun-IsOrderly, relabel-IsOrderly,
}

not_running :
    (c : Status × Bool)
    → is_running c.0 ≡ false
    → (c.1 ≡ true → is_running c.0 ≡ true)
    → c.1 ≡ false
not_running c rests timed = elim (Bool-cases c.1) [
  | inl on ↦ absurd (cc (sym rests ∙ timed on))
  | inr off ↦ off
]

after_run-IsOrderly :
    (f : Sim → Sim) (s : Sim) (o : Option Sim)
    → IsOrderly s
    → Yields (λ t. IsOrderly (f t)) o
    → IsOrderly (after_run f s o).sim
after_run-IsOrderly f s none h y = h
after_run-IsOrderly f s (some t) h y = y

Yields-both {ℓ} :
    {A : Type ℓ} (P Q R : A → Type 0) (o : Option A)
    → ((a : A) → P a → Q a → R a)
    → Yields P o
    → Yields Q o
    → Yields R o
Yields-both P Q R none step p q = tt
Yields-both P Q R (some a) step p q = step a p q

module _ (noble : Noble) (w : World) where
  step-IsOrderly : (s : Sim) → IsOrderly s → IsOrderly (step noble w s).sim
  unfolding step record_action
  step-IsOrderly s h = elim (Bool-cases (is_running s.status)) [
    | inl runs ↦ rw runs h
    | inr rests ↦
        let b = begun-IsOrderly w s rests h in
        let begun = set_status stepped (record_action w did_step s) in
        let off = not_running (control s) rests h.is_ready.timed in
        let c = b.is_bounded.cycles_fit in
        rw rests (
          if_both (λ c. IsOrderly c.sim) (s.phase == 0) (returned (emit (begin_cycle w begun))) _
            (begin_cycle-IsOrderly w begun (omega arith) b.is_ready.timed b.is_bounded b.is_stamped)
            (after_run-IsOrderly (λ t. emit (relabel s.status t)) begun (run_phase noble w begun) b
              (Yields-both IsOrderly (λ t. control t ≡ control begun)
                (λ t. IsOrderly (emit (relabel s.status t))) (run_phase noble w begun)
                (λ t orderly same.
                  relabel-IsOrderly w s.status t (ap (λ p. p.1) same ∙ off) orderly)
                (run_phase-IsOrderly noble w begun b) (run_phase-control noble w begun))))
  ]

  tick-IsOrderly : (s : Sim) → IsOrderly s → IsOrderly (tick noble w s).sim
  unfolding tick
  tick-IsOrderly s h =
      let s' = tick_cascade w s in
      let h' = tick_cascade-IsOrderly w s h in
      if_both (λ c. IsOrderly c.sim) (not (is_running s.status)) (returned s) _ h
        (if_both (λ c. IsOrderly c.sim)
          (dwell_done (w.performance_now - s'.phase_start) nominal_phase_dwell_ms) _
          (returned (emit_cascade w s'))
          (after_run-IsOrderly (λ t. t) s' (run_phase noble w s') h'
            (run_phase-IsOrderly noble w s' h'))
          (emit_cascade-IsOrderly w s' h'))

  -- Any event keeps an orderly state so: the phase exists; in phases 1 and 2 there is no QKD key, in
  -- phases 1 to 4 there is no PQC secret, and in phase 5 there is one; a run is in a phase and only a run has a timer; there are 1 to 8 hops; no more cycles
  -- have succeeded than have ended; at most 30 phase records and 50 actions are kept; and a stage of
  -- the cascade is stamped exactly when the clock has reached it.
  pub handle-IsOrderly : (e : Event) (s : Sim) → IsOrderly s → IsOrderly (handle noble w e s).sim
  unfolding handle fire
  handle-IsOrderly starts s h = start-IsOrderly w s h
  handle-IsOrderly pauses s h = pause-IsOrderly w s h
  handle-IsOrderly resumes s h = resume-IsOrderly w s h
  handle-IsOrderly resets s h = reset-IsOrderly w s h
  handle-IsOrderly steps s h = step-IsOrderly s h
  handle-IsOrderly fires s h =
      if_both (λ c. IsOrderly c.sim) s.has_timer (tick noble w s) (returned s) (tick-IsOrderly s h)
        h
  handle-IsOrderly clears s h = clear_failure-IsOrderly w s h
  handle-IsOrderly disposes s h = record {
    is_ready = record {
      exists = h.is_ready.exists;
      keyed = h.is_ready.keyed;
      going = h.is_ready.going;
      timed = λ e. absurd (cc e);
    };
    is_bounded = h.is_bounded;
    is_stamped = h.is_stamped;
  }
  handle-IsOrderly (sets_hops n) s h = set_hop_count-IsOrderly w n s h
  handle-IsOrderly (injects l) s h = inject_failure-IsOrderly w l s h
