-- ===== src/Paper/Moved.antt =====
-- `runPhase` of the paper flow simulator (services/webui-frontend/src/lib/sim/paperSim.ts): it keeps the
-- state orderly, and leaves the status and the timer.
use pqc_qkd_hybrid_network.Base.{
  ℕ, ◌+◌, ◌≤◌, ◌≡◌, refl, sym, ap, subst, ◌∙◌, inl, inr, Bool, true, false, ◌||◌, Option, none,
  some, List, [], ◌∷◌, length, leb, arith, Bool-cases, Option-cases, if_both, if◌then◌else◌,
}
use pqc_qkd_hybrid_network.E2e.State.{Status}
use pqc_qkd_hybrid_network.E2e.Crypto.{Noble, World}
use pqc_qkd_hybrid_network.E2e.Fields.{is_running}
use pqc_qkd_hybrid_network.Lab.State.{is_some}
use pqc_qkd_hybrid_network.Paper.State.{PhaseBudget, budget_of, PhaseRec}
use pqc_qkd_hybrid_network.Paper.Fields.{Sim, emit, enter_phase, begin_cycle}
use pqc_qkd_hybrid_network.Paper.Work.{
  Worked, fails_at, plain_work, close_open, account, end_cycle, move_on, note_failed, work_of,
  run_budget, run_phase,
}
use pqc_qkd_hybrid_network.Paper.Orderly.{
  AreStamped, Keyed, Keyed-home, IsOrderly, IsBounded, enter_phase-IsOrderly, begin_cycle-IsOrderly,
}
use pqc_qkd_hybrid_network.Paper.Done.{Yields, Yields-map, budget_of-phase, Done, work_of-Done}

abbrev pub control : Sim → Status × Bool
control s = (s.status, s.has_timer)

length-close_open :
    (w : World) (phase : ℕ) (done : Worked) (history rs : List PhaseRec)
    → close_open w phase done history ≡ some rs
    → length rs ≡ length history
unfolding close_open
length-close_open w phase done [] rs e = absurd (cc e)
length-close_open w phase done (r ∷ history) rs e =
    elim (Option-cases (close_open w phase done history)) [
      | inl miss ↦ ground arith
      | inr (rs', hit) ↦ let same = length-close_open w phase done history rs' hit in ground arith
    ]

account-IsBounded :
    (w : World) (phase : ℕ) (done : Worked) → IsBounded done.sim → IsBounded (account w phase done)
unfolding account
account-IsBounded w phase done h = elim (Option-cases (close_open w phase done done.sim.history)) [
  | inl miss ↦ rw miss h
  | inr (rs, hit) ↦ rw (hit, length-close_open w phase done done.sim.history rs hit) h
]

-- The timer is that of a run.
abbrev IsRun : Sim → Type 0
IsRun s = s.has_timer ≡ true → is_running s.status ≡ true

-- The keys that the next phase asks for.
abbrev AreNext : ℕ → Sim → Type 0
AreNext n s = Keyed (n + 1) (is_some s.qkd_key) (is_some s.pqc_secret)

module _ (noble : Noble) (w : World) where
  abbrev ended_of : Sim → Sim
  ended_of s = record s {
    cycles_succeeded = if s.cycle_accepted then s.cycles_succeeded + 1 else s.cycles_succeeded;
    phase = 0;
  }

  -- A phase that is over, with what it has left.
  end_cycle-IsOrderly :
      (s : Sim) → 1 ≤ s.phase → IsRun s → IsBounded s → AreStamped s → IsOrderly (end_cycle w s)
  unfolding end_cycle
  end_cycle-IsOrderly s low timed bounded stamped =
      let c = bounded.cycles_fit in
      let b : IsBounded (ended_of s) = record {
        hops = bounded.hops;
        cycles_fit = ground arith;
        history_fits = bounded.history_fits;
        actions_fit = bounded.actions_fit;
      } in
      elim (Bool-cases (is_running s.status)) [
        | inl runs ↦ rw runs (begin_cycle-IsOrderly w (ended_of s) (ground arith) timed b stamped)
        | inr rests ↦ rw rests (record {
          is_ready = record {
            exists = omega arith;
            keyed = Keyed-home (is_some s.qkd_key) (is_some s.pqc_secret);
            going = λ e. absurd (cc (sym rests ∙ e));
            timed = timed;
          };
          is_bounded = b;
          is_stamped = stamped;
        })
      ]

  move_on-IsOrderly :
      (failed : Bool) (s : Sim)
      → 1 ≤ s.phase
      → IsRun s
      → IsBounded s
      → AreStamped s
      → (failed ≡ false → s.phase ≤ 4 → AreNext s.phase s)
      → IsOrderly (move_on w s.phase failed s)
  unfolding move_on
  move_on-IsOrderly failed s low timed bounded stamped next =
      elim (Bool-cases (failed || leb 5 s.phase)) [
        | inl over ↦ rw over (end_cycle-IsOrderly s low timed bounded stamped)
        | inr on ↦
            let c = bounded.cycles_fit in
            rw on (
              enter_phase-IsOrderly w (s.phase + 1) s (omega arith) (ground arith)
                (next (ground arith) (ground arith)) (ground arith) timed bounded stamped)
      ]

  -- The keys that the work of a phase leaves are those that the next asks for.
  Done-AreNext :
      (b : PhaseBudget) (s : Sim) (done : Worked)
      → 1 ≤ b.phase
      → Keyed b.phase (is_some s.qkd_key) (is_some s.pqc_secret)
      → Done b false s done
      → b.phase ≤ 4
      → AreNext b.phase done.sim
  Done-AreNext b s done low k d high = record {
    fresh_key = λ one two.
        ap is_some (d.keeps_key (λ e. omega (arith, e, two)))
        ∙ k.fresh_key low (omega (arith, two));
    fresh_secret = λ one four.
        ap is_some (d.keeps (λ e. omega (arith, e, four)))
        ∙ k.fresh_secret low (omega (arith, four));
    has_secret = λ five. d.makes refl (omega (arith, five));
  }

  -- After the work of a phase.
  worked-IsOrderly :
      (b : PhaseBudget) (failed : Bool) (s : Sim) (done : Worked)
      → b.phase ≡ s.phase
      → 1 ≤ s.phase
      → IsOrderly s
      → Done b failed s done
      → IsOrderly (move_on w b.phase failed (account w b.phase done))
  unfolding account
  worked-IsOrderly b failed s done at low h d =
      let same : done.sim.phase ≡ b.phase = ap (λ t. t.phase) d.same ∙ sym at in
      let keyed =
        subst (λ n. Keyed n (is_some s.qkd_key) (is_some s.pqc_secret)) (sym at) h.is_ready.keyed in
      subst (λ n. IsOrderly (move_on w n failed (account w b.phase done))) same
        (move_on-IsOrderly failed (account w b.phase done) (omega (arith, same, at, low))
          (subst IsRun (sym d.same) h.is_ready.timed)
          (account-IsBounded w b.phase done (subst IsBounded (sym d.same) h.is_bounded))
          (subst AreStamped (sym d.same) h.is_stamped)
          (λ ok high.
            subst (λ n. AreNext n done.sim) (sym same)
              (Done-AreNext b s done (omega (arith, at, low)) keyed
                (subst (λ f. Done b f s done) ok d) (omega (arith, same, high)))))

  run_budget-IsOrderly :
      (b : PhaseBudget) (s : Sim)
      → b.phase ≡ s.phase
      → 1 ≤ s.phase
      → IsOrderly s
      → Yields IsOrderly (run_budget noble w b s)
  unfolding run_budget
  run_budget-IsOrderly b s at low h = elim (Bool-cases (fails_at s.fail_layer b.phase)) [
    | inl fails ↦ rw fails (
        worked-IsOrderly b true (note_failed true s) (plain_work b true (note_failed true s)) at low
          h
          (record {
            same = refl;
            keeps_key = λ e. refl;
            keeps = λ e. refl;
            makes = λ ok e. absurd (cc ok);
          }))
    | inr works ↦ rw works (
        Yields-map (Done b false s) IsOrderly
          (λ done. emit (move_on w b.phase false (account w b.phase done))) (work_of noble w b s)
          (λ done d. worked-IsOrderly b false s done at low h d) (work_of-Done noble w b s))
  ]

  -- `runPhase` keeps a orderly state so, where it does not throw.
  pub run_phase-IsOrderly : (s : Sim) → IsOrderly s → Yields IsOrderly (run_phase noble w s)
  unfolding run_phase
  run_phase-IsOrderly s h = go (budget_of s.phase) (budget_of-phase s.phase)
    where
      go :
          (o : Option PhaseBudget)
          → Yields (λ b. (b.phase ≡ s.phase) × (1 ≤ s.phase)) o
          → Yields IsOrderly (elim o [ none ↦ none | some b ↦ run_budget noble w b s ])
      go none y = tt
      go (some b) (at, low) = run_budget-IsOrderly b s at low h

  move_on-control : (n : ℕ) (failed : Bool) (s : Sim) → control (move_on w n failed s) ≡ control s
  unfolding move_on end_cycle begin_cycle enter_phase
  move_on-control n failed s =
      if_both (λ t. control t ≡ control s) (failed || leb 5 n) (end_cycle w s)
        (enter_phase w (n + 1) s)
        (if_both (λ t. control t ≡ control s) (is_running s.status) (begin_cycle w (ended_of s))
          (ended_of s) refl refl)
        refl

  run_budget-control :
      (b : PhaseBudget) (s : Sim) → Yields (λ t. control t ≡ control s) (run_budget noble w b s)
  unfolding run_budget account
  run_budget-control b s = elim (Bool-cases (fails_at s.fail_layer b.phase)) [
    | inl fails ↦ rw fails (move_on-control b.phase true _)
    | inr works ↦ rw works (
        Yields-map (Done b false s) (λ t. control t ≡ control s)
          (λ done. emit (move_on w b.phase false (account w b.phase done))) (work_of noble w b s)
          (λ done d. move_on-control b.phase false (account w b.phase done) ∙ ap control d.same)
          (work_of-Done noble w b s))
  ]

  -- `runPhase` leaves the status and the timer as they are.
  pub run_phase-control : (s : Sim) → Yields (λ t. control t ≡ control s) (run_phase noble w s)
  unfolding run_phase
  run_phase-control s = go (budget_of s.phase)
    where
      go :
          (o : Option PhaseBudget)
          → Yields
              (λ t. control t ≡ control s)
              (elim o [ none ↦ none | some b ↦ run_budget noble w b s ])
      go none = tt
      go (some b) = run_budget-control b s
