-- ===== src/E2e/Tests.antt =====
-- Runs of the end-to-end simulator (services/webui-frontend/src/lib/sim/e2eSim.ts) with a cipher and
-- a browser that are made up.
use mathlib.Core.Option
use pqc_qkd_hybrid_network.Base.{
  ℕ, zero, suc, ◌+◌, ◌*◌, ◌≤◌, ◌≡◌, ◌≢◌, inl, inr, refl, ap, false, none, some, List, [], ◌∷◌, ◌++◌,
  length, length-append, ◌==◌, if◌then◌else◌, arith, Bool-cases,
}
use pqc_qkd_hybrid_network.E2e.State.{
  qkd, pqc, data_layer, paused, stepped, data_failed, dwell_done, e2e_csv_rows,
}
use pqc_qkd_hybrid_network.E2e.Crypto.{
  Noble, World, digits, to_hex, derive_hkdf_sha3, chacha_seal, chacha_encrypt,
}
use pqc_qkd_hybrid_network.E2e.Fields.{
  Sim, new_sim, log_action, push_history, enter, complete_last, exit, ensure_loop, is_fatal,
}
use pqc_qkd_hybrid_network.E2e.Work.{
  quantum_plane, exchange_key_ids, pqc_leg, ping, derived_key, pqc_handshake, seal_packets, account,
  halt, data_exchange, run_step_work, advance,
}
use pqc_qkd_hybrid_network.E2e.Sim.{
  enter_first, start, pause, resume, reset, abort, begin_step, set_mode, set_packets_per_cycle,
  inject_failure, clear_failure, step, tick,
}
use pqc_qkd_hybrid_network.E2e.Events.{
  Event, starts, steps, sets_packets, injects, fire, handle, handle_all,
}
use pqc_qkd_hybrid_network.E2e.Bounds.{IsBounded}
use pqc_qkd_hybrid_network.E2e.Kept.{handle_all-IsBounded}
use pqc_qkd_hybrid_network.E2e.Sealing.{IsCipher, IsDrawn, seal_packets_bytes}
use pqc_qkd_hybrid_network.E2e.Runs.{IsTimed, IsLatched}
use pqc_qkd_hybrid_network.E2e.Settled.{handle-IsSettled}
use pqc_qkd_hybrid_network.E2e.Latched.{handle-IsLatched}
use pqc_qkd_hybrid_network.E2e.Stranded.{IsStrict, swapped_failure_throws}

e2e : Unit {0}
unfolding handle_all handle fire step tick begin_step set_mode set_packets_per_cycle inject_failure
    clear_failure start pause resume reset abort enter_first advance run_step_work data_exchange
    halt account seal_packets pqc_handshake derived_key pqc_leg ping exchange_key_ids quantum_plane
    is_fatal ensure_loop exit complete_last enter push_history log_action chacha_encrypt chacha_seal
    derive_hkdf_sha3 to_hex digits dwell_done e2e_csv_rows Option.bind
e2e = tt

-- `n` bytes.
abbrev fill : ℕ → List ℕ
fill zero = []
fill (suc n) = 7 ∷ fill n

length-fill : (n : ℕ) → length (fill n) ≡ n
length-fill zero = refl
length-fill (suc n) = ap suc (length-fill n)

abbrev noble : Noble
noble = record {
  hkdf = λ ikm salt info n. fill n;
  encrypt = λ key nonce aad plain. if length key == 32 then some (plain ++ fill 16) else none;
}

noble-IsCipher : IsCipher noble
noble-IsCipher = record {
  seals = λ key nonce aad plain h. (plain ++ fill 16, rw h refl, length-append plain (fill 16));
}

noble-IsStrict : IsStrict noble
noble-IsStrict = record {
  throws = λ key nonce aad plain h. elim (Bool-cases (length key == 32)) [
    | inl same ↦ absurd (h (ground arith))
    | inr other ↦ rw other refl
  ];
}

abbrev world : ℕ → World
world ms = record {
  date_now = 1000 + ms;
  performance_now = ms;
  draw = λ n size. fill size;
  random_uuid = "id";
}

world-IsDrawn : IsDrawn (world 0)
world-IsDrawn n size = length-fill size

-- Three packets in hybrid mode, four manual steps.
abbrev cycle : List (World × Event)
cycle =
    (world 0, sets_packets 3)
    ∷ (world 0, steps)
    ∷ (world 500, steps)
    ∷ (world 1000, steps)
    ∷ (world 2000, steps)
    ∷ []

abbrev after_cycle : Sim
after_cycle = handle_all noble cycle new_sim

cycle_tests :
    (after_cycle.s.completed_cycles ≡ 1)
    × (after_cycle.s.status ≡ stepped)
    × (after_cycle.s.total_packets ≡ 3)
    × (after_cycle.s.total_bytes_encrypted ≡ 207)
    × (after_cycle.s.rate_bps ≡ some (record { bits = 1656; elapsed_ms = 2000 }))
    × (length after_cycle.s.history ≡ 4)
unfolding e2e
cycle_tests = (refl, refl, refl, refl, refl, refl)

-- The number of bytes that a comment of the source gives for 64 packets.
bytes_tests : seal_packets noble (world 0) (fill 32) 0 64 ≡ some 4470
unfolding e2e
bytes_tests = refl

fatal_tests :
    let sim = handle_all noble ((world 0, injects data_layer) ∷ cycle) new_sim in
    (sim.s.status ≡ paused) × (sim.s.completed_cycles ≡ 0) × (sim.s.last_error ≡ data_failed)
unfolding e2e
fatal_tests = (refl, refl, refl)

handle_all-IsBounded_example : IsBounded (handle_all noble cycle new_sim)
handle_all-IsBounded_example = handle_all-IsBounded noble cycle

handle-IsSettled_example : IsTimed (handle noble (world 0) starts new_sim)
handle-IsSettled_example = handle-IsSettled noble (world 0) starts new_sim refl

abbrev begun : Sim
begun = step noble (world 0) new_sim

begun_within : begun.s.current_step ≢ 0
unfolding e2e
begun_within e = absurd (omega (arith, e))

handle-IsLatched_example : IsLatched begun (handle noble (world 500) (sets_packets 3) begun)
handle-IsLatched_example = handle-IsLatched noble (world 500) (sets_packets 3) begun begun_within

abbrev keyed : Sim
keyed = exchange_key_ids (world 0) new_sim

seal_packets_bytes_example :
    (b : ℕ) × (seal_packets noble (world 0) (fill 32) 0 3 ≡ some b) × (3 * 69 ≤ b) × (b ≤ 3 * 72)
seal_packets_bytes_example =
    seal_packets_bytes noble (world 0) (fill 32) noble-IsCipher world-IsDrawn (length-fill 32) 3 0
      (omega arith)

-- The QKD layer failed in hybrid mode.
abbrev failed : Sim
failed = inject_failure (world 0) qkd new_sim

swapped_failure_throws_example :
    let next =
      pqc_handshake noble
        (world 2)
        (inject_failure (world 1) pqc (exchange_key_ids (world 0) failed)) in
    (next.derived ≡ [])
    × (is_fatal next.s.failed_layer next.s.mode ≡ false)
    × (data_exchange noble (world 3) next ≡ none)
unfolding e2e
swapped_failure_throws_example =
    swapped_failure_throws noble (world 0) (world 1) (world 2) (world 3) failed noble-IsStrict refl
      refl (omega arith)
