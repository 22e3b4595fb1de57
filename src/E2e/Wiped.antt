-- ===== src/E2e/Wiped.antt =====
-- `reset` and `abort` of the end-to-end simulator (e2eSim.ts) discard the key material.
use pqc_qkd_hybrid_network.Base.{◌+◌, ◌≡◌, refl, false, none, some, []}
use pqc_qkd_hybrid_network.E2e.State.{idle}
use pqc_qkd_hybrid_network.E2e.Crypto.{World}
use pqc_qkd_hybrid_network.E2e.Fields.{Sim}
use pqc_qkd_hybrid_network.E2e.Sim.{reset, abort}

-- No timer, between two cycles, with no key and no identifier of one, all of it shown.
pub record IsWiped (sim : Sim) : Type 0 where
  pub stopped : sim.has_timer ≡ false
  pub waits : sim.s.status ≡ idle
  pub home : sim.s.current_step ≡ 0
  pub no_qkd_key : sim.qkd_key ≡ []
  pub no_pqc_secret : sim.pqc_secret ≡ []
  pub no_derived : sim.derived ≡ []
  pub no_id : sim.s.last_qkd_key_id ≡ ""
  pub no_prefix : sim.s.last_psk_prefix_hex ≡ []
  pub published : sim.shown ≡ some sim.s

-- `reset` and `abort` stop the run and wipe the key material. `reset` also clears the failure, the
-- counters and the history and keeps the mode and the packets per cycle; `abort` keeps the history
-- and every counter of what happened.
pub reset-abort-IsWiped :
    (w : World) (sim : Sim)
    → let cleared = reset w sim in
      let stopped = abort w sim in
      (IsWiped cleared × IsWiped stopped)
      × ((cleared.s.mode ≡ sim.s.mode)
          × (cleared.s.packets_per_cycle ≡ sim.s.packets_per_cycle)
          × (cleared.s.failed_layer ≡ none)
          × (cleared.s.history ≡ [])
          × (cleared.s.completed_cycles ≡ 0)
          × (cleared.alice_pool ≡ 0))
      × (stopped.s.history ≡ sim.s.history)
      × (stopped.s.completed_cycles ≡ sim.s.completed_cycles)
      × (stopped.s.total_bytes_encrypted ≡ sim.s.total_bytes_encrypted)
      × (stopped.s.total_packets ≡ sim.s.total_packets)
      × (stopped.s.actions_total ≡ sim.s.actions_total + 1)
unfolding reset abort
reset-abort-IsWiped w sim = (
  (
    record {
      stopped = refl;
      waits = refl;
      home = refl;
      no_qkd_key = refl;
      no_pqc_secret = refl;
      no_derived = refl;
      no_id = refl;
      no_prefix = refl;
      published = refl;
    },
    record {
      stopped = refl;
      waits = refl;
      home = refl;
      no_qkd_key = refl;
      no_pqc_secret = refl;
      no_derived = refl;
      no_id = refl;
      no_prefix = refl;
      published = refl;
    },
  ),
  (refl, refl, refl, refl, refl, refl),
  refl,
  refl,
  refl,
  refl,
  refl,
)
