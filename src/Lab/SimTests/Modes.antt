-- ===== src/Lab/SimTests/Modes.antt =====
-- The simulator of the protocol lab (services/webui-frontend/src/lib/sim/protocolLabSim.ts) on the same
-- triangle of nodes: a run with stores, one with a buffer, and a failure.
use pqc_qkd_hybrid_network.Base.{ℕ, ◌≡◌, refl, String, false, some, [], ◌∷◌, All, arith}
use pqc_qkd_hybrid_network.Base.Int.{pos}
use pqc_qkd_hybrid_network.Routing.Graph.{includes}
use pqc_qkd_hybrid_network.Routing.Rank.{RouteChoice}
use pqc_qkd_hybrid_network.Lab.Links.{stores, outage}
use pqc_qkd_hybrid_network.Lab.Scenario.{StoresRun, BufferRun, unquantified}
use pqc_qkd_hybrid_network.Lab.State.{Sim, Service}
use pqc_qkd_hybrid_network.Lab.Modes.{tick_stores, tick_buffer}
use pqc_qkd_hybrid_network.Lab.Stores.{IsAbove}
use pqc_qkd_hybrid_network.Lab.StoresTick.{tick_stores-IsAbove}
use pqc_qkd_hybrid_network.Lab.Buffered.{IsRefreshed, IsAccounted, tick_buffer-IsRefreshed}
use pqc_qkd_hybrid_network.Lab.Avoids.{inject_failure_avoids}
use pqc_qkd_hybrid_network.Lab.SimTests.{sim_code, collate, platform, params, link, links, sim}

-- The same links in a run with stores.
abbrev stores_sim : Sim
stores_sim = record sim { lab = record sim.lab { accounting = stores } }

abbrev stores_run : StoresRun
stores_run = record {
  rate_bps = 20;
  threshold = pos 40;
  stores = ("ab", pos 90) ∷ [];
  generation = ("ab", unquantified) ∷ [];
}

links-IsAbove : All IsAbove links
links-IsAbove = (above "ab" "a" "b" 1, (above "bc" "b" "c" 3, (above "ac" "a" "c" 4, tt)))
  where
    above : (id a b : String) (n : ℕ) → IsAbove (link id a b n)
    above id a b n x t e f = ground arith

tick_stores-IsAbove_example :
    All IsAbove (tick_stores collate platform stores_run stores_sim).sim.lab.links
unfolding sim_code
tick_stores-IsAbove_example =
    tick_stores-IsAbove collate platform stores_run stores_sim refl (refl, (refl, (refl, tt)))
      links-IsAbove

abbrev buffer_run : BufferRun
buffer_run = record { rate = 4000; capacity = 10; refill_at = 8; refill_to = 10 }

abbrev service : Service
service = record {
  stored = 9;
  capacity = 10;
  refill_at = 8;
  refill_to = 10;
  refills = 0;
  failed_refills = 0;
}

tick_buffer-IsRefreshed_example :
    let t = tick_buffer collate platform buffer_run service sim in
    (due : ℕ) × (served : ℕ) × ((after : Service) × (t.sim.service ≡ some after)
      × IsRefreshed served service after t.sim.lab.route)
    × IsAccounted buffer_run service sim t due served
tick_buffer-IsRefreshed_example = tick_buffer-IsRefreshed collate platform buffer_run service sim

abbrev around : RouteChoice
around = record {
  nodes = "a" ∷ "b" ∷ "c" ∷ [];
  link_ids = "ab" ∷ "bc" ∷ [];
  hops = 2;
  relays = 1;
  bottleneck_bits = some (pos 8);
  bottleneck_bps = some (pos 2500);
}

inject_failure_avoids_example : includes around.link_ids "ac" ≡ false
unfolding sim_code
inject_failure_avoids_example =
    inject_failure_avoids params collate platform "ac" (some outage) sim (link "ac" "a" "c" 4)
      around refl refl
