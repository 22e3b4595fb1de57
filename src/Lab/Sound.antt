-- ===== src/Lab/Sound.antt =====
-- The invariant of the protocol lab (protocolLabSim.ts): its accounting fits what it has loaded, and its
-- records and its timer keep within their limits.
use pqc_qkd_hybrid_network.Base.{
  ◌≤◌, ◌<◌, ◌≡◌, sym, ap, subst, ◌∙◌, Bool, true, false, Option, none, some, List, length,
}
use pqc_qkd_hybrid_network.Lab.Links.{Accounting, keys, route_only}
use pqc_qkd_hybrid_network.Lab.Records.{TickStepId, history_limit, message_limit}
use pqc_qkd_hybrid_network.Lab.Scenario.{Run, Scenario, with_buffer, accounting_of}
use pqc_qkd_hybrid_network.Lab.State.{Sim, Service, is_running, is_some}
use pqc_qkd_hybrid_network.Lab.Load.{belongs}
use pqc_qkd_hybrid_network.Lab.Traces.{Traces}

abbrev pub is_free_play : Accounting → Bool
is_free_play keys = true
is_free_play route_only = true
is_free_play _ = false

abbrev pub has_buffer : Run → Bool
has_buffer (with_buffer run) = true
has_buffer _ = false

-- The accounting is that of the scenario's run, or one of free play, and a run with a buffer has its
-- service.
abbrev pub AreMatched : Option Scenario → Accounting → Option Service → Type 0
AreMatched none accounting svc = is_free_play accounting ≡ true
AreMatched (some sc) accounting svc =
    (accounting ≡ accounting_of sc.run) × (has_buffer sc.run ≡ true → is_some svc ≡ true)

abbrev pub IsMatched : Sim → Type 0
IsMatched s = AreMatched s.scenario s.lab.accounting s.service

-- The timeline, the history and the reroutes are within their limits, less than one key of demand is
-- carried over, and the timer is set only while the simulator runs.
pub record IsBounded (s : Sim) : Type 0 where
  pub history : length s.history ≤ history_limit
  pub messages : length s.messages ≤ message_limit
  pub reroutes : length s.lab.reroutes ≤ history_limit
  pub credit : s.demand_credit < 1000
  pub looped : s.timer_on ≡ true → is_running s.status ≡ true

-- The accounting is matched, the limits are kept, and the scenario belongs to the preset, whose free
-- play counts keys or routes.
pub record IsSound (s : Sim) : Type 0 where
  pub matched : IsMatched s
  pub bounded : IsBounded s
  pub belonging : belongs s.preset s.scenario ≡ true
  pub free : is_free_play s.preset.free_play ≡ true

AreMatched-later :
    (sc : Option Scenario) (accounting : Accounting) (svc svc' : Option Service)
    → (is_some svc ≡ true → is_some svc' ≡ true)
    → AreMatched sc accounting svc
    → AreMatched sc accounting svc'
AreMatched-later none accounting svc svc' h m = m
AreMatched-later (some sc) accounting svc svc' h m = (m.0, λ e. h (m.1 e))

Traces-IsMatched : (ids : List TickStepId) (s t : Sim) → Traces ids s t → IsMatched s → IsMatched t
Traces-IsMatched ids s t tr m =
    subst (λ sc. AreMatched sc t.lab.accounting t.service) (sym (ap (λ k. k.scenario) tr.kept))
      (subst (λ a. AreMatched s.scenario a t.service) (sym (ap (λ k. k.accounting) tr.kept))
        (AreMatched-later s.scenario s.lab.accounting s.service t.service tr.service m))

Traces-IsBounded : (ids : List TickStepId) (s t : Sim) → Traces ids s t → IsBounded s → IsBounded t
Traces-IsBounded ids s t tr b = record {
  history = subst (λ xs. length xs ≤ history_limit) (sym (ap (λ k. k.history) tr.kept)) b.history;
  messages = tr.messages b.messages;
  reroutes = tr.reroutes b.reroutes;
  credit = tr.credit b.credit;
  looped = λ e.
      ap (λ k. is_running k.status) tr.kept ∙ b.looped (sym (ap (λ k. k.timer_on) tr.kept) ∙ e);
}

pub Traces-IsSound : (ids : List TickStepId) (s t : Sim) → Traces ids s t → IsSound s → IsSound t
Traces-IsSound ids s t tr h = record {
  matched = Traces-IsMatched ids s t tr h.matched;
  bounded = Traces-IsBounded ids s t tr h.bounded;
  belonging = ap (λ k. belongs k.preset k.scenario) tr.kept ∙ h.belonging;
  free = ap (λ k. is_free_play k.preset.free_play) tr.kept ∙ h.free;
}
