-- ===== src/Paper/Cycle.antt =====
-- A cycle of the paper flow simulator (services/webui-frontend/src/lib/sim/paperSim.ts) that the timer
-- drives: how long it lasts and what it counts as.
use pqc_qkd_hybrid_network.Base.{
  ℕ, suc, ◌-◌, ◌≡◌, refl, sym, ap, subst, ◌∙◌, true, Option, none, some, List, [], ◌∷◌, map, length,
  arith, Option-both, if_true, if_false, not,
}
use pqc_qkd_hybrid_network.E2e.State.{dwell_done}
use pqc_qkd_hybrid_network.E2e.Crypto.{Noble, World}
use pqc_qkd_hybrid_network.E2e.Fields.{is_running}
use pqc_qkd_hybrid_network.E2e.Sealing.{IsCipher}
use pqc_qkd_hybrid_network.Lab.State.{is_some}
use pqc_qkd_hybrid_network.Paper.State.{nominal_phase_dwell_ms}
use pqc_qkd_hybrid_network.Paper.Fields.{Sim}
use pqc_qkd_hybrid_network.Paper.Work.{run_phase}
use pqc_qkd_hybrid_network.Paper.Control.{
  advance_cascade, emit_cascade, returned, Called, after_run, tick_cascade, fires, tick, fire,
  handle, handle_all, Event,
}
use pqc_qkd_hybrid_network.Paper.Orderly.{IsOrderly}
use pqc_qkd_hybrid_network.Paper.Done.{Yields}
use pqc_qkd_hybrid_network.Paper.Kept.{tick_cascade-IsOrderly}
use pqc_qkd_hybrid_network.Paper.Safe.{handle-IsOrderly}
use pqc_qkd_hybrid_network.Paper.Returns.{IsKdf, run_phase-returns, handle-returns}
use pqc_qkd_hybrid_network.Paper.Position.{course, turn, turns, run_phase-course}
use pqc_qkd_hybrid_network.Paper.Turns.{lasting, IsOver, turn-steady, lasting-bounds, turns-IsOver}

-- A fire of the timer for each of some moments, each a phase's dwell after the one before it.
abbrev pub IsPaced : ℕ → List World → Type 0
IsPaced start [] = Unit {0}
IsPaced start (w ∷ ws) =
    (dwell_done (w.performance_now - start) nominal_phase_dwell_ms ≡ true)
    × IsPaced w.performance_now ws

abbrev pub fires_of : List World → List (World × Event)
fires_of ws = map (λ w. (w, fires)) ws

abbrev times_of : List World → List ℕ
times_of ws = map (λ w. w.performance_now) ws

length-times_of : (ws : List World) → length (times_of ws) ≡ length ws
length-times_of [] = refl
length-times_of (w ∷ ws) = ap suc (length-times_of ws)

after_run-course :
    (P : Sim → Type 0) (s : Sim) (o : Option Sim)
    → is_some o ≡ true
    → Yields P o
    → P (after_run (λ t. t) s o).sim
after_run-course P s none h y = absurd (cc h)
after_run-course P s (some t) h y = y

module _ (noble : Noble) (cipher : IsCipher noble) (kdf : IsKdf noble) where
  tick_cascade-course : (w : World) (s : Sim) → course (tick_cascade w s) ≡ course s
  unfolding tick_cascade advance_cascade
  tick_cascade-course w s =
      Option-both (λ t. course t ≡ course s) s.fail_layer s _ refl
        (λ l.
          Option-both (λ t. course t ≡ course s) s.last_tick_at s
            (λ t. advance_cascade w (w.performance_now - t) s) refl (λ t. refl))

  -- A fire of the timer when the dwell of the phase is over.
  fire-course :
      (w : World) (s : Sim)
      → IsOrderly s
      → is_running s.status ≡ true
      → s.has_timer ≡ true
      → dwell_done (w.performance_now - s.phase_start) nominal_phase_dwell_ms ≡ true
      → course (handle noble w fires s).sim ≡ turn w.performance_now (course s)
  unfolding handle fire tick
  fire-course w s h runs on dwelt =
      let s' = tick_cascade w s in
      let same = tick_cascade-course w s in
      let h' = tick_cascade-IsOrderly w s h in
      let due : dwell_done (w.performance_now - s'.phase_start) nominal_phase_dwell_ms ≡ true =
        ap (λ c. dwell_done (w.performance_now - c.start) nominal_phase_dwell_ms) same ∙ dwelt in
      let low = h'.is_ready.going (ap (λ c. is_running c.status) same ∙ runs) in
      if_true P s.has_timer (tick noble w s) (returned s) on (
        if_false P (not (is_running s.status)) (returned s) _ (ap not runs) (
          if_true P (dwell_done (w.performance_now - s'.phase_start) nominal_phase_dwell_ms) _
            (returned (emit_cascade w s')) due
            (after_run-course (λ t. course t ≡ turn w.performance_now (course s)) s'
              (run_phase noble w s') (run_phase-returns noble w cipher kdf s' low h')
              (subst (λ c. Yields (λ t. course t ≡ turn w.performance_now c) (run_phase noble w s'))
                same (run_phase-course noble w s')))))
    where
      P : Called → Type 0
      P c = course c.sim ≡ turn w.performance_now (course s)

  fires-course :
      (ws : List World) (s : Sim)
      → IsOrderly s
      → is_running s.status ≡ true
      → s.has_timer ≡ true
      → IsPaced s.phase_start ws
      → course (handle_all noble (fires_of ws) s).sim ≡ turns (times_of ws) (course s)
  unfolding handle_all turns
  fires-course [] s h runs on paced = refl
  fires-course (w ∷ ws) s h runs on (dwelt, paced) =
      let t = (handle noble w fires s).sim in
      let e = fire-course w s h runs on dwelt in
      let (status, timer, start) = turn-steady w.performance_now (course s) runs in
      let ok = handle-returns noble w cipher kdf fires s h in
      let rest =
        fires-course ws t (handle-IsOrderly noble w fires s h)
          (ap (λ c. is_running c.status) e ∙ (ap is_running status ∙ runs))
          (ap (λ c. c.timer) e ∙ (timer ∙ on))
          (subst (λ n. IsPaced n ws) (sym (ap (λ c. c.start) e ∙ start)) paced) in
      rw ok (rest ∙ ap (turns (times_of ws)) e)

  -- With the cipher and the key derivation as documented, a run in phase 1 whose timer fires as often
  -- as its cycle lasts, each time a dwell after the last, ends the cycle and begins the next: after
  -- five phases with a success if no layer has failed, or after the phase that carries the failed
  -- layer, without one.
  pub cycle_ends :
      (ws : List World) (s : Sim)
      → IsOrderly s
      → is_running s.status ≡ true
      → s.has_timer ≡ true
      → s.phase ≡ 1
      → s.cycle_accepted ≡ true
      → length ws ≡ lasting s.fail_layer
      → IsPaced s.phase_start ws
      → IsOver (course s) (course (handle_all noble (fires_of ws) s).sim)
  cycle_ends ws s h runs on first ok enough paced =
      let (low, high) = lasting-bounds s.fail_layer in
      let size = length-times_of ws in
      subst (IsOver (course s)) (sym (fires-course ws s h runs on paced)) (
        turns-IsOver (times_of ws) (course s) (omega (arith, first, enough, size))
          (omega (arith, enough, size, low)) ok runs)
