-- ===== src/Paper/Separate.antt =====
-- The payload of the paper flow simulator (services/webui-frontend/src/lib/sim/paperSim.ts) depends on no
-- QKD key: the hops' keys and the key of the data tunnel never meet.
use mathlib.Core.Option
use pqc_qkd_hybrid_network.Base.{
  ℕ, ◌+◌, ◌≡◌, refl, sym, ap, ◌∙◌, inl, inr, Bool, true, false, ◌||◌, Option, none, some, List, leb,
  ◌==◌, take, Bool-cases, if_both, Option-both,
}
use pqc_qkd_hybrid_network.E2e.Crypto.{Noble, World, chacha_seal, to_hex}
use pqc_qkd_hybrid_network.E2e.Fields.{is_running}
use pqc_qkd_hybrid_network.Paper.State.{PhaseBudget, budget_of}
use pqc_qkd_hybrid_network.Paper.Fields.{Sim, emit, enter_phase, begin_cycle}
use pqc_qkd_hybrid_network.Paper.Work.{
  b64, Worked, fails_at, note_failed, plain_work, payload, account, end_cycle, move_on, seal_work,
  with_hop_psk, hop_psk, tunnel_psk, data_work, hop_work, work_of, run_budget, run_phase,
}

-- The same but for the QKD key.
abbrev pub with_key : Option (List ℕ) → Sim → Sim
with_key key s = record s { qkd_key = key }

abbrev pub payload_of : Option Sim → Option (List ℕ)
payload_of o = Option.map (λ t. t.last_payload) o

abbrev sealed_by : Option Worked → Option (List ℕ)
sealed_by o = Option.map (λ d. d.sim.last_payload) o

abbrev HasPayload : Sim → Sim → Type 0
HasPayload s t = (t.last_payload ≡ s.last_payload)

map-map {ℓ} :
    {A B C : Type ℓ} (f : A → B) (g : B → C) (h : A → C) (o : Option A)
    → ((a : A) → g (f a) ≡ h a)
    → Option.map g (Option.map f o) ≡ Option.map h o
map-map f g h none same = refl
map-map f g h (some a) same = ap some (same a)

module _ (noble : Noble) (w : World) where
  move_on-payload :
      (n : ℕ) (failed : Bool) (s : Sim) → (move_on w n failed s).last_payload ≡ s.last_payload
  unfolding move_on end_cycle begin_cycle enter_phase
  move_on-payload n failed s =
      if_both (HasPayload s) (failed || leb 5 n) (end_cycle w s) (enter_phase w (n + 1) s)
        (if_both (HasPayload s) (is_running s.status) _ _ refl refl) refl

  hop_work-payload :
      (b : PhaseBudget) (s : Sim) → (hop_work noble w b s).sim.last_payload ≡ s.last_payload
  hop_work-payload b s =
      Option-both (λ (d : Worked). d.sim.last_payload ≡ s.last_payload) s.qkd_key
        (plain_work b false s)
        (λ key. with_hop_psk (take 16 (to_hex (hop_psk noble w key))) (plain_work b false s)) refl
        (λ key. refl)

  data_work-payload :
      (b : PhaseBudget) (key : Option (List ℕ)) (s : Sim)
      → sealed_by (data_work noble w b (with_key key s)) ≡ sealed_by (data_work noble w b s)
  unfolding data_work seal_work payload
  data_work-payload b key s = go s.pqc_secret
    where
      sealed : Sim → Option (List ℕ) → Option Worked
      sealed t none = none
      sealed t (some secret) =
          Option.map (λ r. seal_work b t (tunnel_psk noble w secret) r.0 r.1)
            (chacha_seal noble w 0 (tunnel_psk noble w secret) (payload s))

      go : (o : Option (List ℕ)) → sealed_by (sealed (with_key key s) o) ≡ sealed_by (sealed s o)
      go none = refl
      go (some secret) =
          let o = chacha_seal noble w 0 (tunnel_psk noble w secret) (payload s) in
          map-map _ (λ d. d.sim.last_payload) (λ r. b64 r.0) o (λ r. refl)
          ∙ sym (map-map _ (λ d. d.sim.last_payload) (λ r. b64 r.0) o (λ r. refl))

  work_of-payload :
      (b : PhaseBudget) (key : Option (List ℕ)) (s : Sim)
      → sealed_by (work_of noble w b (with_key key s)) ≡ sealed_by (work_of noble w b s)
  unfolding work_of
  work_of-payload b key s = elim (Bool-cases (b.phase == 2)) [
    | inl two ↦ rw two refl
    | inr not_two ↦ rw not_two (elim (Bool-cases (b.phase == 3)) [
      | inl three ↦
          rw three (ap some (hop_work-payload b (with_key key s) ∙ sym (hop_work-payload b s)))
      | inr not_three ↦ rw not_three (elim (Bool-cases (b.phase == 4)) [
        | inl four ↦ rw four refl
        | inr not_four ↦ rw not_four (elim (Bool-cases (b.phase == 5)) [
          | inl five ↦ rw five (data_work-payload b key s)
          | inr not_five ↦ rw not_five refl
        ])
      ])
    ])
  ]

  settled-payload :
      (b : PhaseBudget) (failed : Bool) (o : Option Worked)
      → payload_of (Option.map (λ done. emit (move_on w b.phase failed (account w b.phase done))) o)
        ≡ sealed_by o
  unfolding account
  settled-payload b failed o =
      map-map (λ done. emit (move_on w b.phase failed (account w b.phase done)))
        (λ t. t.last_payload) (λ done. done.sim.last_payload) o
        (λ done. move_on-payload b.phase failed (account w b.phase done))

  run_budget-payload :
      (b : PhaseBudget) (key : Option (List ℕ)) (s : Sim)
      → payload_of (run_budget noble w b (with_key key s)) ≡ payload_of (run_budget noble w b s)
  unfolding run_budget
  run_budget-payload b key s = elim (Bool-cases (fails_at s.fail_layer b.phase)) [
    | inl fails ↦ rw fails (
        settled-payload b true (some (plain_work b true (note_failed true (with_key key s))))
        ∙ sym (settled-payload b true (some (plain_work b true (note_failed true s)))))
    | inr works ↦ rw works (
        settled-payload b false (work_of noble w b (with_key key s))
        ∙ (work_of-payload b key s ∙ sym (settled-payload b false (work_of noble w b s))))
  ]

  -- Whether a phase throws, and the payload that it leaves, depend on no QKD key.
  pub run_phase_separate :
      (key : Option (List ℕ)) (s : Sim)
      → payload_of (run_phase noble w (with_key key s)) ≡ payload_of (run_phase noble w s)
  unfolding run_phase
  run_phase_separate key s = go (budget_of s.phase)
    where
      run : Sim → Option PhaseBudget → Option Sim
      run t none = none
      run t (some b) = run_budget noble w b t

      go : (o : Option PhaseBudget) → payload_of (run (with_key key s) o) ≡ payload_of (run s o)
      go none = refl
      go (some b) = run_budget-payload b key s
