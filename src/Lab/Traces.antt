-- ===== src/Lab/Traces.antt =====
-- What the parts of a tick of the protocol lab (protocolLabSim.ts) leave alone, and what they add to its
-- trace.
use Prim.Native.Nat.{Ordering}
use mathlib.Core.List.{append-nil, append_assoc, map-append}
use pqc_qkd_hybrid_network.Base.{
  ℕ, suc, ◌%◌, ◌≤◌, ◌<◌, ◌≡◌, refl, sym, ap, subst, ◌∙◌, inl, inr, String, Bool, true, not, ◌&&◌,
  Option, none, some, List, [], ◌∷◌, ◌++◌, map, length, length-drop, ltb, ◌==◌, if_both, arith,
  Bool-cases,
}
use pqc_qkd_hybrid_network.Etsi004.Stream.{Transition, CallResult}
use pqc_qkd_hybrid_network.Routing.Rank.{RouteChoice}
use pqc_qkd_hybrid_network.Routing.Select.{NoRoute}
use pqc_qkd_hybrid_network.Lab.Links.{Accounting}
use pqc_qkd_hybrid_network.Lab.Records.{
  Lane, TickStepId, route, StepOutcome, TickStep, TickRec, Reroute, message_limit, history_limit,
  push_limited, trace_route, log_message,
}
use pqc_qkd_hybrid_network.Lab.Routes.{Lab}
use pqc_qkd_hybrid_network.Lab.Choose.{choose_route, note_reroute, same_key, key_of}
use pqc_qkd_hybrid_network.Lab.Scenario.{Preset, Scenario}
use pqc_qkd_hybrid_network.Lab.State.{
  Status, Service, Sim, Platform, is_some, log, log_004, note, note_route, note_relay, relay_key,
}
use pqc_qkd_hybrid_network.Lab.Stream.{reroute}

pub length-snoc {ℓ} : {A : Type ℓ} (ys : List A) (y : A) → length (ys ++ y ∷ []) ≡ suc (length ys)
length-snoc [] y = refl
length-snoc (z ∷ ys) y = ap suc (length-snoc ys y)

pub length-push_limited {ℓ} :
    {A : Type ℓ} (limit : ℕ) (xs : List A) (x : A)
    → length xs ≤ limit
    → length (push_limited limit xs x) ≤ limit
length-push_limited limit xs x h = elim (Bool-cases (ltb limit (length (xs ++ x ∷ [])))) [
  | inl over ↦ rw over (omega (arith, length-drop 1 (xs ++ x ∷ []), length-snoc xs x))
  | inr fits ↦ rw fits (ground arith)
]

-- The fields that a part of a tick leaves alone.
pub record Kept : Type 0 where
  pub preset : Preset
  pub scenario : Option Scenario
  pub status : Status
  pub timer_on : Bool
  pub accounting : Accounting
  pub history : List TickRec

abbrev pub kept_of : Sim → Kept
kept_of s = record {
  preset = s.preset;
  scenario = s.scenario;
  status = s.status;
  timer_on = s.timer_on;
  accounting = s.lab.accounting;
  history = s.history;
}

-- The parts of a tick that its trace holds, in order.
unfoldable pub traced_ids : List TickStep → List TickStepId
traced_ids steps = map (λ t. t.id) steps

-- From one state to another, those fields are kept, the timeline, the reroutes and the credit stay
-- within their limits, and the trace grows by some parts.
pub record Traces (ids : List TickStepId) (s t : Sim) : Type 0 where
  pub kept : kept_of t ≡ kept_of s
  pub messages : length s.messages ≤ message_limit → length t.messages ≤ message_limit
  pub reroutes : length s.lab.reroutes ≤ history_limit → length t.lab.reroutes ≤ history_limit
  pub credit : s.demand_credit < 1000 → t.demand_credit < 1000
  pub service : is_some s.service ≡ true → is_some t.service ≡ true
  pub traced : traced_ids t.trace_steps ≡ traced_ids s.trace_steps ++ ids

infixl 5 ◌⨾◌
pub ◌⨾◌ :
    {xs ys : List TickStepId} {s t u : Sim} → Traces xs s t → Traces ys t u → Traces (xs ++ ys) s u
◌⨾◌ {xs} {ys} {s} p q = record {
  kept = q.kept ∙ p.kept;
  messages = λ h. q.messages (p.messages h);
  reroutes = λ h. q.reroutes (p.reroutes h);
  credit = λ h. q.credit (p.credit h);
  service = λ h. q.service (p.service h);
  traced = q.traced ∙ ap (λ z. z ++ ys) p.traced ∙ append_assoc (traced_ids s.trace_steps) xs ys;
}

-- The fields that `Traces` speaks of.
pub record Traced : Type 0 where
  pub kept : Kept
  pub message_count : ℕ
  pub reroutes : List Reroute
  pub credit : ℕ
  pub has_service : Bool
  pub steps : List TickStep

abbrev pub traced_of : Sim → Traced
traced_of s = record {
  kept = kept_of s;
  message_count = length s.messages;
  reroutes = s.lab.reroutes;
  credit = s.demand_credit;
  has_service = is_some s.service;
  steps = s.trace_steps;
}

-- A change of other fields traces nothing.
pub silent : (s t : Sim) → traced_of t ≡ traced_of s → Traces [] s t
silent s t e = record {
  kept = ap (λ c. c.kept) e;
  messages = λ h. subst (λ n. n ≤ message_limit) (sym (ap (λ c. c.message_count) e)) h;
  reroutes = λ h. subst (λ rs. length rs ≤ history_limit) (sym (ap (λ c. c.reroutes) e)) h;
  credit = λ h. subst (λ n. n < 1000) (sym (ap (λ c. c.credit) e)) h;
  service = λ h. ap (λ c. c.has_service) e ∙ h;
  traced = ap (λ c. traced_ids c.steps) e ∙ sym (append-nil (traced_ids s.trace_steps));
}

-- What is left of a credit is below one key.
pub owed-Traces : (n : ℕ) (s : Sim) → Traces [] s (record s { demand_credit = n % 1000 })
owed-Traces n s = record {
  kept = refl;
  messages = λ h. h;
  reroutes = λ h. h;
  credit = λ h. omega arith;
  service = λ h. h;
  traced = sym (append-nil (traced_ids s.trace_steps));
}

-- A service that is written is there.
pub served-Traces : (svc : Service) (s : Sim) → Traces [] s (record s { service = some svc })
served-Traces svc s = record {
  kept = refl;
  messages = λ h. h;
  reroutes = λ h. h;
  credit = λ h. h;
  service = λ h. refl;
  traced = sym (append-nil (traced_ids s.trace_steps));
}

pub log-Traces :
    (lane : Lane) (said : String) (code : Option ℕ) (transition : Option Transition) (s : Sim)
    → Traces [] s (log lane said code transition s)
unfolding log log_message
log-Traces lane said code transition s = record {
  kept = refl;
  messages = length-push_limited message_limit s.messages _;
  reroutes = λ h. h;
  credit = λ h. h;
  service = λ h. h;
  traced = sym (append-nil (traced_ids s.trace_steps));
}

pub log_004-Traces : (call : String) (r : CallResult) (s : Sim) → Traces [] s (log_004 call r s)
unfolding log_004 log_message
log_004-Traces call r s = record {
  kept = refl;
  messages = length-push_limited message_limit s.messages _;
  reroutes = λ h. h;
  credit = λ h. h;
  service = λ h. h;
  traced = sym (append-nil (traced_ids s.trace_steps));
}

pub note-Traces :
    (id : TickStepId) (outcome : StepOutcome) (said : String) (s : Sim)
    → Traces (id ∷ []) s (note id outcome said s)
unfolding note traced_ids
note-Traces id outcome said s = record {
  kept = refl;
  messages = λ h. h;
  reroutes = λ h. h;
  credit = λ h. h;
  service = λ h. h;
  traced = map-append (λ t. t.id) s.trace_steps _;
}

traced_ids-trace_route :
    (r : Option RouteChoice) (why : Option NoRoute) (steps : List TickStep)
    → traced_ids (trace_route r why steps) ≡ traced_ids steps ++ route ∷ []
unfolding traced_ids trace_route
traced_ids-trace_route none why steps = map-append (λ t. t.id) steps _
traced_ids-trace_route (some r) why steps = map-append (λ t. t.id) steps _

pub note_route-Traces : (s : Sim) → Traces (route ∷ []) s (note_route s)
unfolding note_route
note_route-Traces s = record {
  kept = refl;
  messages = λ h. h;
  reroutes = λ h. h;
  credit = λ h. h;
  service = λ h. h;
  traced = traced_ids-trace_route s.lab.route s.lab.route_none s.trace_steps;
}

pub note_relay-Traces : (amount : String) (s : Sim) → Traces [] s (note_relay amount s)
unfolding note_relay
note_relay-Traces amount s = silent s (note_relay amount s) refl

pub relay_key-Traces : (w : Platform) (s : Sim) → Traces [] s (relay_key w s).0
unfolding relay_key
relay_key-Traces w s = silent s (relay_key w s).0 refl

pub note_reroute-le :
    (lab : Lab) (prev new : Option RouteChoice) (rs : List Reroute)
    → length rs ≤ history_limit
    → length (note_reroute lab prev new rs) ≤ history_limit
unfolding note_reroute
note_reroute-le lab prev new rs h =
    let P : List Reroute → Type 0 = λ xs. length xs ≤ history_limit in
    elim (Bool-cases (length rs == 0 && not (same_key (key_of new) none))) [
      | inl first ↦ rw first (omega arith)
      | inr later ↦ rw later (
          if_both P (same_key (key_of prev) (key_of new)) _ _ h
            (length-push_limited history_limit rs _ h))
    ]

pub reroute-Traces :
    (collate : String → String → Ordering) (need : ℕ) (s : Sim)
    → Traces [] s (reroute collate need s)
unfolding reroute choose_route
reroute-Traces collate need s = record {
  kept = refl;
  messages = λ h. h;
  reroutes = note_reroute-le s.lab _ _ s.lab.reroutes;
  credit = λ h. h;
  service = λ h. h;
  traced = sym (append-nil (traced_ids s.trace_steps));
}
