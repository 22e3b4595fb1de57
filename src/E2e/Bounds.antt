-- ===== src/E2e/Bounds.antt =====
-- What stays within its bounds in the end-to-end simulator (e2eSim.ts), and the fields that are
-- kept in step with others.
use pqc_qkd_hybrid_network.Base.{
  ℕ, ◌+◌, ◌-◌, ◌≤◌, ◌≡◌, inl, inr, Bool, Option, some, List, [], ◌∷◌, ◌++◌, length, length-drop,
  length-append, arith, Bool-cases, Option-cases, leb, ◌==◌, ◌&&◌, String, not, sym, take, subst,
}
use pqc_qkd_hybrid_network.E2e.State.{
  Mode, Layer, qkd, StepDetail, StepRec, Action, OperatorAction, mode_label_of,
}
use pqc_qkd_hybrid_network.E2e.Crypto.{Noble, World, to_hex}
use pqc_qkd_hybrid_network.E2e.Cases.{
  run_step_work_cases, does_plane, does_ids, does_handshake, halts, seals, rests,
}
use pqc_qkd_hybrid_network.E2e.Fields.{
  Sim, is_running, record_action, log_action, push_history, enter, complete_last, exit, ensure_loop,
  is_fatal, is_layer,
}
use pqc_qkd_hybrid_network.E2e.Work.{
  quantum_plane, exchange_key_ids, pqc_handshake, account, halt, run_step_work, pqc_leg, deposit,
  no_qkd_key, draw_qkd_key, uses_qkd, set_keys, derived_key, count, stop_run, advance, go_home,
}

-- A log with its limit and the count of all that was ever put into it.
pub record Fits (kept limit total : ℕ) : Type 0 where
  pub below : kept ≤ limit
  pub counted : kept ≤ total

pub record Bounded (history steps_total actions actions_total pool step : ℕ) (packets cycle : ℕ)
    (fatal : Bool) (failed : Option Layer) (mode : Mode) (label : String) : Type 0 where
  pub history_fits : Fits history 20 steps_total
  pub actions_fit : Fits actions 50 actions_total
  pub pool_fits : pool ≤ 8
  pub step_exists : step ≤ 4
  pub packets_set : (1 ≤ packets) × (packets ≤ 1024)
  pub packets_latched : (1 ≤ cycle) × (cycle ≤ 1024)
  pub verdict : fatal ≡ is_fatal failed mode
  pub labelled : label ≡ mode_label_of mode

abbrev pub IsBounded : Sim → Type 0
IsBounded sim =
    Bounded (length sim.s.history) sim.s.steps_total (length sim.s.operator_actions)
      sim.s.actions_total sim.alice_pool sim.s.current_step sim.s.packets_per_cycle
      sim.cycle_packets sim.s.failure_is_fatal sim.s.failed_layer sim.s.mode sim.s.mode_label

log_action-Fits :
    (actions : List OperatorAction) (a : OperatorAction) (n : ℕ)
    → Fits (length actions) 50 n
    → Fits (length (log_action actions a)) 50 (n + 1)
unfolding log_action
log_action-Fits actions a n f =
    let e = length-append actions (a ∷ []) in
    let d = length-drop 1 (actions ++ a ∷ []) in
    let le = f.below in
    let le' = f.counted in record { below = ground arith; counted = ground arith }

push_history-Fits :
    (history : List StepRec) (r : StepRec) (n : ℕ)
    → Fits (length history) 20 n
    → Fits (length (push_history history r)) 20 (n + 1)
unfolding push_history
push_history-Fits history r n f =
    let e = length-append history (r ∷ []) in
    let d = length-drop (length (history ++ r ∷ []) - 20) (history ++ r ∷ []) in
    let le = f.below in
    let le' = f.counted in record { below = ground arith; counted = ground arith }

length-complete_last :
    (step now : ℕ) (detail : StepDetail) (history : List StepRec) (rs : List StepRec)
    → complete_last step now detail history ≡ some rs
    → length rs ≡ length history
unfolding complete_last
length-complete_last step now detail [] rs e = absurd (cc e)
length-complete_last step now detail (r ∷ history) rs e =
    elim (Option-cases (complete_last step now detail history)) [
      | inl miss ↦ ground arith
      | inr (rs', hit) ↦
          let same = length-complete_last step now detail history rs' hit in ground arith
    ]

module _ (w : World) where
  pub record_action-IsBounded :
      (a : Action) (sim : Sim) → IsBounded sim → IsBounded (record_action w a sim)
  record_action-IsBounded a sim b = record {
    history_fits = b.history_fits;
    actions_fit =
        log_action-Fits sim.s.operator_actions (record { at = w.date_now; action = a })
          sim.s.actions_total b.actions_fit;
    pool_fits = b.pool_fits;
    step_exists = b.step_exists;
    packets_set = b.packets_set;
    packets_latched = b.packets_latched;
    verdict = b.verdict;
    labelled = b.labelled;
  }

  pub enter-IsBounded : (n : ℕ) (sim : Sim) → n ≤ 4 → IsBounded sim → IsBounded (enter w n sim)
  unfolding enter
  enter-IsBounded n sim le b = record {
    history_fits = push_history-Fits sim.s.history _ sim.s.steps_total b.history_fits;
    actions_fit = b.actions_fit;
    pool_fits = b.pool_fits;
    step_exists = le;
    packets_set = b.packets_set;
    packets_latched = elim (Bool-cases (n == 1)) [
      | inl first ↦ rw first b.packets_set
      | inr later ↦ rw later b.packets_latched
    ];
    verdict = b.verdict;
    labelled = b.labelled;
  }

  pub exit-IsBounded :
      (detail : StepDetail) (sim : Sim) → IsBounded sim → IsBounded (exit w detail sim)
  unfolding exit
  exit-IsBounded detail sim b =
      elim (Option-cases (complete_last sim.s.current_step w.date_now detail sim.s.history)) [
        | inl miss ↦ rw miss b
        | inr (rs, hit) ↦ rw (hit, length-complete_last _ _ detail sim.s.history rs hit) b
      ]

  pub ensure_loop-IsBounded : (sim : Sim) → IsBounded sim → IsBounded (ensure_loop w sim)
  unfolding ensure_loop
  ensure_loop-IsBounded sim b = elim (Bool-cases sim.has_timer) [ inl e ↦ rw e b | inr e ↦ rw e b ]

  -- A pool of another size within the capacity.
  pool-IsBounded :
      (n : ℕ) (sim : Sim) → n ≤ 8 → IsBounded sim → IsBounded (record sim { alice_pool = n })
  pool-IsBounded n sim le b = record {
    history_fits = b.history_fits;
    actions_fit = b.actions_fit;
    pool_fits = le;
    step_exists = b.step_exists;
    packets_set = b.packets_set;
    packets_latched = b.packets_latched;
    verdict = b.verdict;
    labelled = b.labelled;
  }

  quantum_plane-IsBounded : (sim : Sim) → IsBounded sim → IsBounded (quantum_plane w sim)
  unfolding quantum_plane
  quantum_plane-IsBounded sim b = elim (Bool-cases (is_layer qkd sim.s.failed_layer)) [
    | inl failed ↦ rw failed (exit-IsBounded _ sim b)
    | inr works ↦ rw works (
        exit-IsBounded _ (deposit sim)
          (pool-IsBounded (deposit sim).alice_pool sim (omega arith) b))
  ]

  exchange_key_ids-IsBounded : (sim : Sim) → IsBounded sim → IsBounded (exchange_key_ids w sim)
  unfolding exchange_key_ids
  exchange_key_ids-IsBounded sim b = elim (Bool-cases (is_layer qkd sim.s.failed_layer)) [
    | inl failed ↦ rw failed (exit-IsBounded _ (no_qkd_key "(QKD layer failed)" sim) b)
    | inr works ↦ elim (Bool-cases (uses_qkd sim.s.mode)) [
      | inl draws ↦
          let le = b.pool_fits in
          rw (works, draws)
            (exit-IsBounded _ (draw_qkd_key w sim)
              (pool-IsBounded (draw_qkd_key w sim).alice_pool sim (omega arith) b))
      | inr none_drawn ↦
          rw (works, none_drawn) (exit-IsBounded _ (no_qkd_key "(PQC-only mode)" sim) b)
    ]
  ]

  pub advance-IsBounded :
      (stepping : Bool) (sim : Sim) → IsBounded sim → IsBounded (advance w stepping sim)
  unfolding advance
  advance-IsBounded stepping sim b = elim (Bool-cases (leb 4 sim.s.current_step)) [
    | inr within ↦ rw within (enter-IsBounded (sim.s.current_step + 1) sim (ground arith) b)
    | inl last ↦ elim (Bool-cases (is_running sim.s.status && not stepping)) [
      | inl again ↦ rw (last, again) (enter-IsBounded 1 (go_home sim) (omega arith) (home b))
      | inr over ↦ rw (last, over) (home b)
    ]
  ]
    where
      home : IsBounded sim → IsBounded (go_home sim)
      home b = record {
        history_fits = b.history_fits;
        actions_fit = b.actions_fit;
        pool_fits = b.pool_fits;
        step_exists = omega arith;
        packets_set = b.packets_set;
        packets_latched = b.packets_latched;
        verdict = b.verdict;
        labelled = b.labelled;
      }

  module _ (noble : Noble) where
    pqc_handshake-IsBounded : (sim : Sim) → IsBounded sim → IsBounded (pqc_handshake noble w sim)
    unfolding pqc_handshake
    pqc_handshake-IsBounded sim b =
        elim (Bool-cases (length sim.qkd_key == 0 && length (pqc_leg w sim) == 0)) [
          | inl empty ↦ rw empty (exit-IsBounded _ (set_keys (pqc_leg w sim) [] [] sim) b)
          | inr some_left ↦
              let key = derived_key noble w sim in
              rw some_left
                (exit-IsBounded _ (set_keys (pqc_leg w sim) key (take 16 (to_hex key)) sim) b)
        ]

    pub run_step_work-IsBounded :
        (sim next : Sim) → run_step_work noble w sim ≡ some next → IsBounded sim → IsBounded next
    unfolding halt account
    run_step_work-IsBounded sim next e b = elim (run_step_work_cases noble w sim next e) [
      | does_plane _ same ↦ subst IsBounded (sym same) (quantum_plane-IsBounded sim b)
      | does_ids _ same ↦ subst IsBounded (sym same) (exchange_key_ids-IsBounded sim b)
      | does_handshake _ same ↦ subst IsBounded (sym same) (pqc_handshake-IsBounded sim b)
      | halts _ _ same ↦ subst IsBounded (sym same) (exit-IsBounded _ (stop_run sim) b)
      | seals bytes _ _ _ same ↦ subst IsBounded (sym same) (exit-IsBounded _ (count w bytes sim) b)
      | rests _ same ↦ subst IsBounded (sym same) b
    ]
