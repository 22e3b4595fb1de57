-- ===== src/Lab/Control.antt =====
-- The public controls and the timer of the protocol lab
-- (services/webui-frontend/src/lib/sim/protocolLabSim.ts).
use Prim.Native.Nat.{Ordering}
use mathlib.Core.Option
use pqc_qkd_hybrid_network.Base.{
  ℕ, ◌-◌, ◌%◌, String, Bool, true, false, not, ◌&&◌, Option, none, some, List, [], ◌∷◌, ◌++◌,
  length, get_elem?, ◌==◌, if◌then◌else◌,
}
use pqc_qkd_hybrid_network.Base.Text.{text}
use pqc_qkd_hybrid_network.E2e.State.{dwell_done}
use pqc_qkd_hybrid_network.Lab.Links.{
  outage, LinkState, FailureTarget, at_link, at_node, Network, inject, clear, by_link,
}
use pqc_qkd_hybrid_network.Lab.Generate.{Params, is_qkd}
use pqc_qkd_hybrid_network.Lab.Records.{tick_paces}
use pqc_qkd_hybrid_network.Lab.Routes.{find_link, down_text}
use pqc_qkd_hybrid_network.Lab.Scenario.{Scenario, Catalog}
use pqc_qkd_hybrid_network.Lab.State.{
  Status, idle, running, paused, stepped, is_running, Sim, Platform, is_some,
}
use pqc_qkd_hybrid_network.Lab.Stream.{reroute}
use pqc_qkd_hybrid_network.Lab.Advance.{advance}
use pqc_qkd_hybrid_network.Lab.Load.{Demand, Called, clear_key_material, load}

-- A call of the page or of the timer, with the ids of a preset and of a scenario; `seed` is what
-- `seeds.next()` returns, and `now` the time of the call.
pub data Event : Type 0 where
  start resume : (now : ℕ) → Event
  pause reset dispose : Event
  step : (now : ℕ) → Event
  set_pace : (ms : ℕ) → Event
  load_preset : (preset_id : String) (scenario_id : Option String) → Event
  set_demand : Demand → Event
  fail_target : FailureTarget → Event
  clear_target : Option FailureTarget → Event
  fail_random : (seed : ℕ) → Event
  timer : (now : ℕ) → Event

-- `ensureLoop` and `stopLoop`
abbrev pub ensure_loop : ℕ → Sim → Sim
ensure_loop now s = if s.timer_on then s else record s { last_advance = now; timer_on = true }

abbrev pub stop_loop : Sim → Sim
stop_loop s = record s { timer_on = false }

abbrev pub is_pace : ℕ → List ℕ → Bool
is_pace ms [] = false
is_pace ms (x ∷ xs) = if x == ms then true else is_pace ms xs

abbrev pub is_paused : Status → Bool
is_paused paused = true
is_paused _ = false

-- The network of the simulator, changed.
abbrev pub on_network : (Network → Network) → Sim → Sim
on_network f s =
    let n = f (record { links = s.lab.links; down_nodes = s.lab.down_nodes }) in
    record s { lab = record s.lab { links = n.links; down_nodes = n.down_nodes } }

abbrev pub pend : String → Sim → Sim
pend event s = record s { pending_event = s.pending_event ++ event ∷ [] }

-- Whether a target is there: a link has to be one of the network, a node need not.
abbrev pub is_target : List LinkState → FailureTarget → Bool
is_target links (at_link id why) = is_some (find_link id links)
is_target links (at_node id) = true

unfoldable pub failure_text : FailureTarget → String
unfolding text
failure_text (at_link id why) =
    text (id ∷ " " ∷ down_text (some (by_link (Option.get_or why outage))) ∷ [])
failure_text (at_node id) = text ("node " ∷ id ∷ " down" ∷ [])

unfoldable pub repair_text : Option FailureTarget → String
unfolding text
repair_text none = "all failures cleared"
repair_text (some (at_link id why)) = text (id ∷ " restored" ∷ [])
repair_text (some (at_node id)) = text ("node " ∷ id ∷ " restored" ∷ [])

abbrev pub is_repair : List LinkState → Option FailureTarget → Bool
is_repair links none = true
is_repair links (some t) = is_target links t

-- The links that a random outage can hit.
unfoldable pub candidates : List LinkState → List LinkState
candidates [] = []
candidates (l ∷ ls) =
    let rest = candidates ls in
    if is_qkd l.kind && (not l.down && not l.not_in_run) then l ∷ rest else rest

-- `candidates[seed % candidates.length]`
unfoldable pub random_target : ℕ → List LinkState → Option FailureTarget
unfolding candidates
random_target seed links =
    Option.map (λ l. at_link l.id (some outage))
      (get_elem? (candidates links) (seed % length (candidates links)))

abbrev pub stopped_idle : Sim → Sim
stopped_idle s = record s { status = idle; timer_on = false }

module _ (p : Params) (collate : String → String → Ordering) (w : Platform) where
  -- `injectFailure` and `clearFailure`
  unfoldable pub inject_failure : FailureTarget → Sim → Sim
  inject_failure t s =
      let s' = pend (failure_text t) (on_network (inject t) s) in
      if is_target s.lab.links t then reroute collate s.lab.key_bits s' else s

  unfoldable pub clear_failure : Option FailureTarget → Sim → Sim
  clear_failure t s =
      let s' = pend (repair_text t) (on_network (clear t) s) in
      if is_repair s.lab.links t then reroute collate s.lab.key_bits s' else s

  -- `step`: a tick from idle or paused, refused while running.
  unfoldable pub step_once : ℕ → Sim → Sim
  step_once now s =
      let ticked = advance p collate w now (record s { status = stepped }) in
      if is_running s.status
      then s
      else if is_paused s.status
      then record ticked { status = paused }
      else ticked

  -- `onTimer`, with the platform's clock for both of its times.
  unfoldable pub on_timer : ℕ → Sim → Sim
  on_timer now s =
      let ticked = advance p collate w now (record s { last_advance = now }) in
      if not (is_running s.status)
      then s
      else if not (dwell_done (now - s.last_advance) s.pace_ms)
      then s
      else ticked

module _ (c : Catalog) (p : Params) (collate : String → String → Ordering) (w : Platform) where
  -- `setDemand`: free play only.
  unfoldable pub demand_anew : Demand → Sim → Called
  demand_anew d s =
      let s' : Sim = record (stopped_idle s) {
        lab = record s.lab { demand_from = d.from; demand_to = d.to };
        keys_per_s = some d.keys_per_s;
      } in
      if is_some s.scenario then (s, false) else load p collate w c s.preset.id none (some d) s'

  -- The methods, each with whether it throws.
  unfoldable pub handle : Event → Sim → Called
  handle (start now) s = (ensure_loop now (record s { status = running }), false)
  handle (resume now) s = (ensure_loop now (record s { status = running }), false)
  handle pause s = (stop_loop (record s { status = paused }), false)
  handle (step now) s = (step_once p collate w now s, false)
  handle reset s =
      load p collate w c s.preset.id (Option.map (λ (sc : Scenario). sc.id) s.scenario) none
        (stopped_idle s)
  handle dispose s = (clear_key_material (stop_loop s), false)
  handle (set_pace ms) s = (if is_pace ms tick_paces then record s { pace_ms = ms } else s, false)
  handle (load_preset preset_id scenario_id) s =
      load p collate w c preset_id scenario_id none (stopped_idle s)
  handle (set_demand d) s = demand_anew d s
  handle (fail_target t) s = (inject_failure p collate w t s, false)
  handle (clear_target t) s = (clear_failure p collate w t s, false)
  handle (fail_random seed) s = elim (random_target seed s.lab.links) [
    | none ↦ (s, false)
    | some t ↦ (inject_failure p collate w t s, false)
  ]
  handle (timer now) s = (on_timer p collate w now s, false)
