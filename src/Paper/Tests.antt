-- ===== src/Paper/Tests.antt =====
-- Runs of the paper flow simulator (services/webui-frontend/src/lib/sim/paperSim.ts) with a cipher and a
-- browser that are made up.
use pqc_qkd_hybrid_network.Base.{
  ℕ, zero, suc, ◌+◌, ◌*◌, ◌≡◌, refl, ap, false, none, some, List, [], ◌∷◌, ◌++◌, length,
  length-append, take, map, ◌==◌, if◌then◌else◌,
}
use pqc_qkd_hybrid_network.Base.Int.{pos, negsuc}
use pqc_qkd_hybrid_network.E2e.State.{paused, stepped, dwell_done}
use pqc_qkd_hybrid_network.E2e.Crypto.{
  Noble, World, encode_utf8, digits, to_hex, derive_hkdf_sha3, chacha_seal,
}
use pqc_qkd_hybrid_network.E2e.Sealing.{IsCipher}
use pqc_qkd_hybrid_network.Paper.State.{qkd, rosenpass, total_packets, total_bytes, phase_names}
use pqc_qkd_hybrid_network.Paper.Csv.{paper_csv_rows}
use pqc_qkd_hybrid_network.Paper.Fields.{
  Sim, new_sim, snapshot, record_action, push_history, enter_phase, begin_cycle, ensure_loop,
}
use pqc_qkd_hybrid_network.Paper.Work.{
  b64, payload, close_open, account, end_cycle, move_on, seal_work, tunnel_psk, hop_psk, data_work,
  work_of, run_budget, run_phase,
}
use pqc_qkd_hybrid_network.Paper.Control.{
  begin_if_idle, start, pause, resume, reset, clamp_hops, set_hop_count, stages_from, cascade_of,
  inject_failure, clear_failure, advance_cascade, tick_cascade, emit_cascade, starts, pauses, steps,
  fires, injects, step, tick, fire, handle, handle_all,
}
use pqc_qkd_hybrid_network.Paper.Orderly.{IsOrderly}
use pqc_qkd_hybrid_network.Paper.Safe.{handle-IsOrderly}
use pqc_qkd_hybrid_network.Paper.Returns.{IsKdf, new_sim-IsOrderly, handle_all_returns}
use pqc_qkd_hybrid_network.Paper.Position.{course}
use pqc_qkd_hybrid_network.Paper.Turns.{IsOver}
use pqc_qkd_hybrid_network.Paper.Cycle.{fires_of, cycle_ends}
use pqc_qkd_hybrid_network.Paper.Recorded.{IsRecorded, at_rest}
use pqc_qkd_hybrid_network.Paper.History.{handle-IsRecorded}
use pqc_qkd_hybrid_network.Paper.Separate.{with_key, payload_of, run_phase_separate}

paper : Unit {0}
unfolding handle_all handle fire tick step emit_cascade tick_cascade advance_cascade clear_failure
    inject_failure cascade_of stages_from set_hop_count clamp_hops reset resume pause start
    begin_if_idle run_phase run_budget work_of data_work hop_psk tunnel_psk seal_work move_on
    end_cycle account close_open payload b64 ensure_loop begin_cycle enter_phase push_history
    record_action snapshot chacha_seal derive_hkdf_sha3 to_hex digits dwell_done
paper = tt

-- `n` bytes.
abbrev fill : ℕ → List ℕ
fill zero = []
fill (suc n) = 7 ∷ fill n

length-fill : (n : ℕ) → length (fill n) ≡ n
length-fill zero = refl
length-fill (suc n) = ap suc (length-fill n)

abbrev noble : Noble
noble = record {
  hkdf = λ ikm salt info n. fill n;
  encrypt = λ key nonce aad plain. if length key == 32 then some (plain ++ fill 16) else none;
}

noble-IsCipher : IsCipher noble
noble-IsCipher = record {
  seals = λ key nonce aad plain h. (plain ++ fill 16, rw h refl, length-append plain (fill 16));
}

noble-IsKdf : IsKdf noble
noble-IsKdf = record { sizes = λ ikm salt info n. length-fill n }

abbrev world : ℕ → World
world ms = record {
  date_now = 1000 + ms;
  performance_now = ms;
  draw = λ n size. fill size;
  random_uuid = "id";
}

-- Fires of the timer, one for each dwell.
abbrev dwells : List World
dwells = map (λ n. world (400 * n)) (1 ∷ 2 ∷ 3 ∷ 4 ∷ 5 ∷ [])

abbrev started : Sim
started = (handle noble (world 0) starts new_sim).sim

abbrev failed : Sim
failed = (handle noble (world 0) (injects rosenpass) started).sim

paper_tests :
    (total_packets ≡ 9)
    × (total_bytes ≡ 5248)
    × (length phase_names ≡ 5)
    × (b64 (encode_utf8 "any carnal pleas") ≡ encode_utf8 "YW55IGNhcm5hbCBwbGVhcw==")
    × (clamp_hops (pos 12) ≡ 8)
    × (clamp_hops (negsuc 3) ≡ 1)
    × ((handle_all noble (fires_of dwells) started).sim.packets_total ≡ 10)
    × (length (paper_csv_rows (handle_all noble (fires_of dwells) started).sim.history) ≡ 6)
    × ((handle_all noble (fires_of (take 4 dwells)) failed).sim.cycles_succeeded ≡ 0)
    × ((handle_all noble (fires_of (take 4 dwells)) failed).sim.cycles_total ≡ 2)
unfolding paper
paper_tests = (refl, refl, refl, refl, refl, refl, refl, refl, refl, refl)

-- A step that begins a cycle changes a paused run to a stepped one.
step_paused_test :
    (paused_run : Sim) × (paused_run.status ≡ paused)
    × ((handle noble (world 9) steps paused_run).sim.status ≡ stepped)
unfolding paper
step_paused_test =
    ((handle_all noble ((world 1, pauses) ∷ (world 2, steps) ∷ []) failed_early).sim, refl, refl)
  where
    failed_early : Sim
    failed_early = (handle noble (world 0) (injects qkd) started).sim

handle-IsOrderly_example : IsOrderly started
handle-IsOrderly_example = handle-IsOrderly noble (world 0) starts new_sim new_sim-IsOrderly

handle_all_returns_example :
    ((handle_all noble ((world 0, starts) ∷ fires_of dwells) new_sim).threw ≡ false)
    × IsOrderly (handle_all noble ((world 0, starts) ∷ fires_of dwells) new_sim).sim
handle_all_returns_example =
    handle_all_returns noble ((world 0, starts) ∷ fires_of dwells) noble-IsCipher noble-IsKdf

cycle_ends_example :
    IsOver (course started) (course (handle_all noble (fires_of dwells) started).sim)
unfolding paper
cycle_ends_example =
    cycle_ends noble noble-IsCipher noble-IsKdf dwells started
      (handle-IsOrderly noble (world 0) starts new_sim new_sim-IsOrderly) refl refl refl refl refl
      (refl, (refl, (refl, (refl, (refl, tt)))))

run_phase_separate_example :
    payload_of (run_phase noble (world 9) (with_key (some (fill 32)) started))
    ≡ payload_of (run_phase noble (world 9) started)
run_phase_separate_example = run_phase_separate noble (world 9) (some (fill 32)) started

handle-IsRecorded_example : IsRecorded (handle noble (world 400) fires started).sim
handle-IsRecorded_example =
    handle-IsRecorded noble (world 400) fires started
      (handle-IsRecorded noble (world 0) starts new_sim (at_rest [] refl tt))
