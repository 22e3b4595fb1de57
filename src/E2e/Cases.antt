-- ===== src/E2e/Cases.antt =====
-- What `runStepWork` (e2eSim.ts) does at each step, and what no work of a step changes.
use pqc_qkd_hybrid_network.Base.{
  ℕ, ◌<◌, ◌≡◌, refl, sym, ◌⊎◌, inl, inr, Bool, true, false, ◌&&◌, Option, some, length, arith,
  Bool-cases, Option-cases, ◌==◌, some_inj,
}
use pqc_qkd_hybrid_network.E2e.State.{Layer, qkd, Mode, Status}
use pqc_qkd_hybrid_network.E2e.Crypto.{Noble, World}
use pqc_qkd_hybrid_network.E2e.Fields.{Sim, exit, is_layer, is_fatal}
use pqc_qkd_hybrid_network.E2e.Work.{
  quantum_plane, uses_qkd, exchange_key_ids, pqc_leg, pqc_handshake, seal_packets, account, halt,
  data_exchange, run_step_work,
}

-- The settings and the position of a run.
pub record Run : Type 0 where
  pub status : Status
  pub timer : Bool
  pub step : ℕ
  pub mode : Mode
  pub failed : Option Layer
  pub latched : ℕ
  pub entered : ℕ

abbrev pub run_of : Sim → Run
run_of sim = record {
  status = sim.s.status;
  timer = sim.has_timer;
  step = sim.s.current_step;
  mode = sim.s.mode;
  failed = sim.s.failed_layer;
  latched = sim.cycle_packets;
  entered = sim.s.steps_total;
}

abbrev pub IsSameRun : Sim → Sim → Type 0
IsSameRun sim next = (run_of next ≡ run_of sim)

module _ (noble : Noble) (w : World) (sim : Sim) where
  pub data Work (next : Sim) : Type 0 where
    does_plane : sim.s.current_step ≡ 1 → next ≡ quantum_plane w sim → Work next
    does_ids : sim.s.current_step ≡ 2 → next ≡ exchange_key_ids w sim → Work next
    does_handshake : sim.s.current_step ≡ 3 → next ≡ pqc_handshake noble w sim → Work next
    halts :
        sim.s.current_step ≡ 4
        → is_fatal sim.s.failed_layer sim.s.mode ≡ true
        → next ≡ halt w sim
        → Work next
    seals :
        (bytes : ℕ)
        → sim.s.current_step ≡ 4
        → is_fatal sim.s.failed_layer sim.s.mode ≡ false
        → seal_packets noble w sim.derived 0 sim.cycle_packets ≡ some bytes
        → next ≡ account w bytes sim
        → Work next
    rests : (sim.s.current_step ≡ 0) ⊎ (4 < sim.s.current_step) → next ≡ sim → Work next

  data_exchange_cases :
      (next : Sim) → sim.s.current_step ≡ 4 → data_exchange noble w sim ≡ some next → Work next
  unfolding data_exchange
  data_exchange_cases next four e = elim (Bool-cases (is_fatal sim.s.failed_layer sim.s.mode)) [
    | inl fatal ↦ halts four fatal (sym (some_inj (rw fatal at e)))
    | inr goes_on ↦ elim (Option-cases (seal_packets noble w sim.derived 0 sim.cycle_packets)) [
      | inl thrown ↦ absurd (cc (rw (goes_on, thrown) at e))
      | inr (bytes, sealed) ↦
          seals bytes four goes_on sealed (sym (some_inj (rw (goes_on, sealed) at e)))
    ]
  ]

  pub run_step_work_cases : (next : Sim) → run_step_work noble w sim ≡ some next → Work next
  unfolding run_step_work
  run_step_work_cases next e = elim (Bool-cases (sim.s.current_step == 1)) [
    | inl one ↦ does_plane (ground arith) (sym (some_inj (rw one at e)))
    | inr not_one ↦ elim (Bool-cases (sim.s.current_step == 2)) [
      | inl two ↦ does_ids (ground arith) (sym (some_inj (rw (not_one, two) at e)))
      | inr not_two ↦ elim (Bool-cases (sim.s.current_step == 3)) [
        | inl three ↦
            does_handshake (ground arith) (sym (some_inj (rw (not_one, not_two, three) at e)))
        | inr not_three ↦ elim (Bool-cases (sim.s.current_step == 4)) [
          | inl four ↦
              data_exchange_cases next (ground arith) (rw (not_one, not_two, not_three, four) at e)
          | inr none_left ↦
              rests (ground arith)
                (sym (some_inj (rw (not_one, not_two, not_three, none_left) at e)))
        ]
      ]
    ]
  ]

module _ (w : World) (sim : Sim) where
  quantum_plane-IsSameRun : IsSameRun sim (quantum_plane w sim)
  unfolding quantum_plane exit
  quantum_plane-IsSameRun = elim (Bool-cases (is_layer qkd sim.s.failed_layer)) [
    | inl failed ↦ rw failed refl
    | inr works ↦ rw works refl
  ]

  pub exchange_key_ids-IsSameRun : IsSameRun sim (exchange_key_ids w sim)
  unfolding exchange_key_ids
  exchange_key_ids-IsSameRun = elim (Bool-cases (is_layer qkd sim.s.failed_layer)) [
    | inl failed ↦ rw failed refl
    | inr works ↦ elim (Bool-cases (uses_qkd sim.s.mode)) [
      | inl draws ↦ rw (works, draws) refl
      | inr none_drawn ↦ rw (works, none_drawn) refl
    ]
  ]

  pub pqc_handshake-IsSameRun : (noble : Noble) → IsSameRun sim (pqc_handshake noble w sim)
  unfolding pqc_handshake
  pqc_handshake-IsSameRun noble =
      elim (Bool-cases (length sim.qkd_key == 0 && length (pqc_leg w sim) == 0)) [
        | inl empty ↦ rw empty refl
        | inr some_left ↦ rw some_left refl
      ]

-- The work of a step but for a halt changes neither the settings nor the position.
pub run_step_work-IsSameRun :
    (noble : Noble) (w : World) (sim next : Sim)
    → run_step_work noble w sim ≡ some next
    → IsSameRun sim next
      ⊎ (next ≡ halt w sim)
        × (sim.s.current_step ≡ 4)
        × (is_fatal sim.s.failed_layer sim.s.mode ≡ true)
unfolding account exit
run_step_work-IsSameRun noble w sim next e = elim (run_step_work_cases noble w sim next e) [
  | does_plane _ same ↦ inl (rw same (quantum_plane-IsSameRun w sim))
  | does_ids _ same ↦ inl (rw same (exchange_key_ids-IsSameRun w sim))
  | does_handshake _ same ↦ inl (rw same (pqc_handshake-IsSameRun w sim noble))
  | halts four fatal same ↦ inr (same, four, fatal)
  | seals bytes _ _ _ same ↦ inl (rw same refl)
  | rests _ same ↦ inl (rw same refl)
]
