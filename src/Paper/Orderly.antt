-- ===== src/Paper/Orderly.antt =====
-- What the state of the paper flow simulator (services/webui-frontend/src/lib/sim/paperSim.ts) keeps to,
-- and that recording an action, beginning a cycle and setting the timer keep it so.
use pqc_qkd_hybrid_network.Base.{
  ℕ, ◌+◌, ◌-◌, ◌≤◌, ◌≡◌, refl, ap, inl, inr, Bool, true, false, none, List, [], ◌∷◌, ◌++◌, length,
  length-append, length-drop, All, ◌==◌, arith, Bool-cases, if_both, if◌then◌else◌,
}
use pqc_qkd_hybrid_network.E2e.State.{running}
use pqc_qkd_hybrid_network.E2e.Crypto.{World}
use pqc_qkd_hybrid_network.E2e.Fields.{is_running}
use pqc_qkd_hybrid_network.E2e.Bounds.{Fits}
use pqc_qkd_hybrid_network.Lab.Records.{push_limited}
use pqc_qkd_hybrid_network.Lab.State.{is_some}
use pqc_qkd_hybrid_network.Paper.State.{Scheduled, Action, PhaseRec}
use pqc_qkd_hybrid_network.Paper.Fields.{
  Sim, is_reached, record_action, push_history, enter_phase, begin_cycle, ensure_loop,
}
use pqc_qkd_hybrid_network.Paper.Control.{begin_if_idle}

-- A cycle that is going on is not counted as a success yet.
abbrev pub under_way : ℕ → ℕ
under_way phase = if phase == 0 then 0 else 1

-- The keys of a cycle: none is carried into it, so that there is no QKD key up to phase 2, which makes
-- it, and no secret up to phase 4, which makes it, and phase 5 has the secret.
pub record Keyed (phase : ℕ) (key secret : Bool) : Type 0 where
  pub fresh_key : 1 ≤ phase → phase ≤ 2 → key ≡ false
  pub fresh_secret : 1 ≤ phase → phase ≤ 4 → secret ≡ false
  pub has_secret : phase ≡ 5 → secret ≡ true

-- Outside a cycle nothing is asked of the keys.
pub Keyed-home : (key secret : Bool) → Keyed 0 key secret
Keyed-home key secret = record {
  fresh_key = λ low high. absurd (omega (arith, low));
  fresh_secret = λ low high. absurd (omega (arith, low));
  has_secret = λ e. absurd (ground arith);
}

-- The phase exists, with the keys of its cycle; a run is in a phase, and the timer is that of a run.
pub record Ready (phase : ℕ) (key secret : Bool) (runs timer : Bool) : Type 0 where
  pub exists : phase ≤ 5
  pub keyed : Keyed phase key secret
  pub going : runs ≡ true → 1 ≤ phase
  pub timed : timer ≡ true → runs ≡ true

pub record Bounded (hop phase cycles succeeded kept phases logged actions : ℕ) : Type 0 where
  pub hops : (1 ≤ hop) × (hop ≤ 8)
  pub cycles_fit : succeeded + under_way phase ≤ cycles
  pub history_fits : Fits kept 30 phases
  pub actions_fit : Fits logged 50 actions

-- A stage is stamped exactly when the clock has reached it.
abbrev pub IsStamped : ℕ → Scheduled → Type 0
IsStamped elapsed c = is_some c.triggered_at ≡ is_reached elapsed c

-- A cascade whose stages are all stamped in time, and which is there exactly while a layer has failed.
pub record Stamped (failed : Bool) (elapsed : ℕ) (cascade : List Scheduled) : Type 0 where
  pub stamps : All (IsStamped elapsed) cascade
  pub at_rest : failed ≡ false → (cascade ≡ []) × (elapsed ≡ 0)

pub record Orderly (ready bounded stamped : Type 0) : Type 0 where
  pub is_ready : ready
  pub is_bounded : bounded
  pub is_stamped : stamped

abbrev pub IsReady : Sim → Type 0
IsReady s =
    Ready s.phase (is_some s.qkd_key) (is_some s.pqc_secret) (is_running s.status) s.has_timer

abbrev pub IsBounded : Sim → Type 0
IsBounded s =
    Bounded s.hop s.phase s.cycles_total s.cycles_succeeded (length s.history) s.phases_total
      (length s.actions) s.actions_total

abbrev pub AreStamped : Sim → Type 0
AreStamped s = Stamped (is_some s.fail_layer) s.cascade_elapsed_ms s.cascade

abbrev pub IsOrderly : Sim → Type 0
IsOrderly s = Orderly (IsReady s) (IsBounded s) (AreStamped s)

push_limited-Fits {ℓ} :
    {A : Type ℓ} (limit : ℕ) (xs : List A) (x : A) (n : ℕ)
    → 1 ≤ limit
    → Fits (length xs) limit n
    → Fits (length (push_limited limit xs x)) limit (n + 1)
push_limited-Fits limit xs x n pos f =
    let e = length-append xs (x ∷ []) in
    let d = length-drop 1 (xs ++ x ∷ []) in
    let le = f.below in
    let le' = f.counted in record { below = ground arith; counted = ground arith }

push_history-Fits :
    (history : List PhaseRec) (r : PhaseRec) (n : ℕ)
    → Fits (length history) 30 n
    → Fits (length (push_history history r)) 30 (n + 1)
unfolding push_history
push_history-Fits history r n f =
    let e = length-append history (r ∷ []) in
    let d = length-drop (length (history ++ r ∷ []) - 30) (history ++ r ∷ []) in
    let le = f.below in
    let le' = f.counted in record { below = ground arith; counted = ground arith }

module _ (w : World) where
  pub record_action-IsOrderly :
      (a : Action) (s : Sim) → IsOrderly s → IsOrderly (record_action w a s)
  unfolding record_action
  record_action-IsOrderly a s h =
      let b = h.is_bounded in
      record {
        is_ready = h.is_ready;
        is_bounded = record {
          hops = b.hops;
          cycles_fit = b.cycles_fit;
          history_fits = b.history_fits;
          actions_fit =
              push_limited-Fits 50 s.actions _ s.actions_total (omega arith) b.actions_fit;
        };
        is_stamped = h.is_stamped;
      }

  -- Entering a phase that exists, with the keys that it asks for, in a cycle that is not over.
  pub enter_phase-IsOrderly :
      (n : ℕ) (s : Sim)
      → 1 ≤ n
      → n ≤ 5
      → Keyed n (is_some s.qkd_key) (is_some s.pqc_secret)
      → s.cycles_succeeded + 1 ≤ s.cycles_total
      → (s.has_timer ≡ true → is_running s.status ≡ true)
      → IsBounded s
      → AreStamped s
      → IsOrderly (enter_phase w n s)
  unfolding enter_phase
  enter_phase-IsOrderly n s low high keyed room timed b stamped = record {
    is_ready = record { exists = high; keyed = keyed; going = λ e. low; timed = timed };
    is_bounded = record {
      hops = b.hops;
      cycles_fit = ground arith;
      history_fits = push_history-Fits s.history _ s.phases_total b.history_fits;
      actions_fit = b.actions_fit;
    };
    is_stamped = stamped;
  }

  -- A cycle begins at phase 0.
  pub begin_cycle-IsOrderly :
      (s : Sim)
      → s.cycles_succeeded ≤ s.cycles_total
      → (s.has_timer ≡ true → is_running s.status ≡ true)
      → IsBounded s
      → AreStamped s
      → IsOrderly (begin_cycle w s)
  unfolding begin_cycle
  begin_cycle-IsOrderly s room timed b stamped =
      enter_phase-IsOrderly 1
        (record s {
          cycles_total = s.cycles_total + 1;
          cycle_accepted = true;
          qkd_key = none;
          pqc_secret = none;
        })
        (omega arith) (omega arith)
        (record {
          fresh_key = λ low high. refl;
          fresh_secret = λ low high. refl;
          has_secret = λ e. absurd (ground arith);
        })
        (omega arith) timed
        (record {
          hops = b.hops;
          cycles_fit = let c = b.cycles_fit in ground arith;
          history_fits = b.history_fits;
          actions_fit = b.actions_fit;
        })
        stamped

  begin_if_idle-status : (s : Sim) → (begin_if_idle w s).status ≡ s.status
  unfolding begin_if_idle begin_cycle enter_phase
  begin_if_idle-status s =
      if_both (λ t. t.status ≡ s.status) (s.phase == 0) (begin_cycle w s) s refl refl

  begin_if_idle-IsOrderly :
      (s : Sim) → IsOrderly s → IsOrderly (begin_if_idle w (record s { status = running }))
  unfolding begin_if_idle
  begin_if_idle-IsOrderly s h = elim (Bool-cases (s.phase == 0)) [
    | inl first ↦
        let c = h.is_bounded.cycles_fit in
        rw first (
          begin_cycle-IsOrderly (record s { status = running }) (omega arith) (λ e. refl)
            h.is_bounded h.is_stamped)
    | inr later ↦ rw later (record {
      is_ready = record {
        exists = h.is_ready.exists;
        keyed = h.is_ready.keyed;
        going = λ e. ground arith;
        timed = λ e. refl;
      };
      is_bounded = h.is_bounded;
      is_stamped = h.is_stamped;
    })
  ]

  -- The timer is set for a run.
  ensure_loop-IsOrderly :
      (s : Sim) → is_running s.status ≡ true → IsOrderly s → IsOrderly (ensure_loop w s)
  unfolding ensure_loop
  ensure_loop-IsOrderly s runs h = if_both IsOrderly s.has_timer s _ h (record {
    is_ready = record {
      exists = h.is_ready.exists;
      keyed = h.is_ready.keyed;
      going = h.is_ready.going;
      timed = λ e. runs;
    };
    is_bounded = h.is_bounded;
    is_stamped = h.is_stamped;
  })

  -- What `start` and `resume` do after they have recorded their action.
  pub set_going-IsOrderly :
      (s : Sim)
      → IsOrderly s
      → IsOrderly (ensure_loop w (begin_if_idle w (record s { status = running })))
  set_going-IsOrderly s h =
      ensure_loop-IsOrderly (begin_if_idle w (record s { status = running }))
        (ap is_running (begin_if_idle-status (record s { status = running })))
        (begin_if_idle-IsOrderly s h)
