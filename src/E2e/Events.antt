-- ===== src/E2e/Events.antt =====
-- Runs of the end-to-end simulator (e2eSim.ts): an event is a call of a public method that acts on the
-- simulator, `dispose` included, or a fire of the timer, with what the browser returns during it.
use pqc_qkd_hybrid_network.Base.{ℕ, List, [], ◌∷◌, if◌then◌else◌}
use pqc_qkd_hybrid_network.E2e.State.{Mode, Layer}
use pqc_qkd_hybrid_network.E2e.Crypto.{Noble, World}
use pqc_qkd_hybrid_network.E2e.Fields.{Sim}
use pqc_qkd_hybrid_network.E2e.Sim.{
  start, pause, resume, reset, abort, set_mode, set_packets_per_cycle, inject_failure,
  clear_failure, dispose, step, tick,
}

pub data Event : Type 0 where
  starts pauses resumes resets aborts steps fires clears disposes : Event
  sets_mode : Mode → Event
  sets_packets : ℕ → Event
  injects : Layer → Event

module _ (noble : Noble) where
  -- The timer fires only while it is set.
  unfoldable pub fire : World → Sim → Sim
  unfolding tick
  fire w sim = if sim.has_timer then tick noble w sim else sim

  unfoldable pub handle : World → Event → Sim → Sim
  unfolding start pause resume reset abort set_mode set_packets_per_cycle inject_failure
      clear_failure step fire
  handle w starts sim = start w sim
  handle w pauses sim = pause w sim
  handle w resumes sim = resume w sim
  handle w resets sim = reset w sim
  handle w aborts sim = abort w sim
  handle w steps sim = step noble w sim
  handle w fires sim = fire w sim
  handle w clears sim = clear_failure w sim
  handle w disposes sim = dispose sim
  handle w (sets_mode m) sim = (set_mode w m sim).0
  handle w (sets_packets n) sim = (set_packets_per_cycle w n sim).0
  handle w (injects l) sim = inject_failure w l sim

  unfoldable pub handle_all : List (World × Event) → Sim → Sim
  unfolding handle
  handle_all [] sim = sim
  handle_all (e ∷ es) sim = handle_all es (handle e.0 e.1 sim)
