-- ===== src/E2e/Work.antt =====
-- The work of the four steps of `E2ESim` (services/webui-frontend/src/lib/sim/e2eSim.ts) and the move to
-- the next one.
use mathlib.Core.Option
use pqc_qkd_hybrid_network.Base.{
  ℕ, zero, suc, ◌+◌, ◌-◌, ◌*◌, max, min, String, Bool, not, ◌&&◌, ◌||◌, Option, none, some, List,
  [], ◌++◌, length, take, leb, ◌==◌, if◌then◌else◌,
}
use pqc_qkd_hybrid_network.E2e.State.{
  Mode, mode_a, mode_c, Layer, qkd, pqc, data_layer, paused, no_secret, plane_failed, plane,
  ids_failed, ids, derived_psk, refused, exchanged, no_error, data_failed, only_source_failed,
  degraded, LastError, steps_per_cycle, key_pool_capacity, nominal_step_dwell_ms,
}
use pqc_qkd_hybrid_network.E2e.Crypto.{
  Noble, World, encode_utf8, mode_text, digits, to_hex, derive_hkdf_sha3, chacha_encrypt,
}
use pqc_qkd_hybrid_network.E2e.Fields.{
  Sim, emit, enter, exit, is_fatal, is_layer, is_mode, is_running, stop_loop,
}

-- The error that a fatal failure leaves.
abbrev pub fatal_error : Option Layer → Mode → LastError
fatal_error (some data_layer) mode = data_failed
fatal_error (some layer) mode = only_source_failed layer mode
fatal_error none mode = no_error

-- The quantum plane deposits a key.
abbrev pub deposit : Sim → Sim
deposit sim = record sim { alice_pool = min (sim.alice_pool + 1) key_pool_capacity }

-- Step 1.
unfoldable pub quantum_plane : World → Sim → Sim
unfolding exit
quantum_plane w sim =
    if is_layer qkd sim.s.failed_layer
    then exit w (plane_failed sim.alice_pool) sim
    else exit w (plane (deposit sim).alice_pool) (deposit sim)

-- No QKD key, for the reason that stands for its id.
abbrev pub no_qkd_key : String → Sim → Sim
no_qkd_key why sim = record sim { qkd_key = []; key_id = why }

-- A QKD key drawn from the pool.
abbrev pub draw_qkd_key : World → Sim → Sim
draw_qkd_key w sim = record sim {
  qkd_key = w.draw 0 32;
  key_id = w.random_uuid;
  alice_pool = max 0 (sim.alice_pool - 1);
}

abbrev pub uses_qkd : Mode → Bool
uses_qkd mode = is_mode mode mode_a || is_mode mode mode_c

-- The record that step 2 leaves.
abbrev pub exit_ids : World → Sim → Sim
exit_ids w sim = exit w (ids sim.key_id (length sim.qkd_key) sim.alice_pool) sim

-- Step 2.
unfoldable pub exchange_key_ids : World → Sim → Sim
unfolding exit
exchange_key_ids w sim =
    if is_layer qkd sim.s.failed_layer
    then exit w (ids_failed "(QKD layer failed)" sim.alice_pool)
        (no_qkd_key "(QKD layer failed)" sim)
    else exit_ids w
        (if uses_qkd sim.s.mode then draw_qkd_key w sim else no_qkd_key "(PQC-only mode)" sim)

-- The PQC leg of step 3.
unfoldable pub pqc_leg : World → Sim → List ℕ
pqc_leg w sim =
    if is_layer pqc sim.s.failed_layer || is_mode sim.s.mode mode_a then [] else w.draw 0 32

-- Packet `i` of a cycle.
unfoldable pub ping : ℕ → List ℕ
unfolding digits
ping i = encode_utf8 "PING " ++ digits i i ++ encode_utf8 " Alice->Bob over Quantum-Secure VPN"

-- What step 3 leaves: the PQC leg, the derived key and the prefix that is shown.
abbrev pub set_keys : List ℕ → List ℕ → List ℕ → Sim → Sim
set_keys secret key prefix sim = record sim {
  pqc_secret = secret;
  derived = key;
  s = record sim.s { last_psk_prefix_hex = prefix };
}

-- What step 4 counts.
abbrev pub count : World → ℕ → Sim → Sim
count w bytes sim = record sim {
  cycle_bytes = bytes;
  s = record sim.s {
    total_bytes_encrypted = sim.s.total_bytes_encrypted + bytes;
    total_packets = sim.s.total_packets + sim.cycle_packets;
    completed_cycles = sim.s.completed_cycles + 1;
    last_qkd_key_id = sim.key_id;
    rate_bps =
        some
          (record { bits = bytes * 8; elapsed_ms = max (w.performance_now - sim.cycle_start) 1 });
    nominal_cycle_ms = steps_per_cycle * nominal_step_dwell_ms;
    last_error = elim sim.s.failed_layer [ none ↦ no_error | some f ↦ degraded f sim.s.mode ];
  };
}

-- Step 4 where it goes on, once the packets are sealed.
unfoldable pub account : World → ℕ → Sim → Sim
unfolding exit
account w bytes sim =
    exit w (exchanged sim.cycle_packets bytes (max (w.performance_now - sim.cycle_start) 1))
      (count w bytes sim)

-- The run paused with the reason.
abbrev pub stop_run : Sim → Sim
stop_run sim = stop_loop (record sim {
  s = record sim.s { last_error = fatal_error sim.s.failed_layer sim.s.mode; status = paused };
})

-- Step 4 where the failure is fatal.
unfoldable pub halt : World → Sim → Sim
unfolding exit
halt w sim = emit (exit w (refused sim.s.failed_layer) (stop_run sim))

module _ (noble : Noble) where
  -- The key of step 3, from the two legs.
  unfoldable pub derived_key : World → Sim → List ℕ
  unfolding derive_hkdf_sha3 pqc_leg
  derived_key w sim = derive_hkdf_sha3 noble sim.qkd_key (pqc_leg w sim) (mode_text sim.s.mode)

  -- Step 3.
  unfoldable pub pqc_handshake : World → Sim → Sim
  unfolding exit derived_key to_hex
  pqc_handshake w sim =
      let secret = pqc_leg w sim in
      let key = derived_key w sim in
      let prefix = take 16 (to_hex key) in
      if length sim.qkd_key == 0 && length secret == 0
      then exit w no_secret (set_keys secret [] [] sim)
      else exit w (derived_psk prefix (length sim.qkd_key) (length secret))
          (set_keys secret key prefix sim)

  -- The loop of step 4 from packet `i` on, with `n` packets left: the bytes sealed, or nothing where
  -- a seal throws.
  unfoldable pub seal_packets : World → List ℕ → ℕ → ℕ → Option ℕ
  unfolding chacha_encrypt ping
  seal_packets w key i zero = some 0
  seal_packets w key i (suc n) =
      let rest = seal_packets w key (i + 1) n in
      Option.bind (chacha_encrypt noble w i key (ping i)) (λ b. Option.map (λ r. b + r) rest)

  -- Step 4. Nothing is changed before a seal throws.
  unfoldable pub data_exchange : World → Sim → Option Sim
  unfolding is_fatal halt account seal_packets
  data_exchange w sim =
      if is_fatal sim.s.failed_layer sim.s.mode
      then some (halt w sim)
      else Option.map (λ bytes. account w bytes sim)
          (seal_packets w sim.derived 0 sim.cycle_packets)

  -- `runStepWork`: nothing where it throws.
  unfoldable pub run_step_work : World → Sim → Option Sim
  unfolding quantum_plane exchange_key_ids pqc_handshake data_exchange
  run_step_work w sim =
      let step = sim.s.current_step in
      if step == 1
      then some (quantum_plane w sim)
      else if step == 2
      then some (exchange_key_ids w sim)
      else if step == 3
      then some (pqc_handshake w sim)
      else if step == 4
      then data_exchange w sim
      else some sim

-- Back between two cycles.
abbrev pub go_home : Sim → Sim
go_home sim = record sim { s = record sim.s { current_step = 0; step_name = "idle" } }

unfoldable pub advance : World → Bool → Sim → Sim
unfolding enter
advance w stepping sim =
    if leb steps_per_cycle sim.s.current_step
    then if is_running sim.s.status && not stepping then enter w 1 (go_home sim) else go_home sim
    else enter w (sim.s.current_step + 1) sim
