-- ===== src/Paper/Done.antt =====
-- `runPhase` of the paper flow simulator (services/webui-frontend/src/lib/sim/paperSim.ts): what the work of
-- a phase changes.
use mathlib.Core.Option
use pqc_qkd_hybrid_network.Base.{
  ℕ, ◌≤◌, ◌≡◌, ◌≢◌, refl, inl, inr, Bool, true, false, Option, none, some, List, [], ◌∷◌, take,
  ◌==◌, ==_iff, arith, Bool-cases, Option-both, find, All,
}
use pqc_qkd_hybrid_network.E2e.Crypto.{Noble, World, chacha_seal, to_hex}
use pqc_qkd_hybrid_network.Lab.State.{is_some}
use pqc_qkd_hybrid_network.Paper.State.{PhaseBudget, phase_budgets, budget_of}
use pqc_qkd_hybrid_network.Paper.Fields.{Sim}
use pqc_qkd_hybrid_network.Paper.Work.{
  Worked, plain_work, tunnel_psk, data_work, hop_work, work_of, payload, seal_work, with_hop_psk,
  hop_psk,
}

-- What holds of the result, if there is one.
abbrev pub Yields {ℓ} : {A : Type ℓ} → (A → Type 0) → Option A → Type 0
Yields Q none = Unit {0}
Yields Q (some a) = Q a

pub Yields-map {ℓ} :
    {A B : Type ℓ} (P : A → Type 0) (Q : B → Type 0) (f : A → B) (o : Option A)
    → ((a : A) → P a → Q (f a))
    → Yields P o
    → Yields Q (Option.map f o)
Yields-map P Q f none step h = tt
Yields-map P Q f (some a) step h = step a h

Yields-all {ℓ} :
    {A B : Type ℓ} (Q : B → Type 0) (f : A → B) (o : Option A)
    → ((a : A) → Q (f a))
    → Yields Q (Option.map f o)
Yields-all Q f none h = tt
Yields-all Q f (some a) h = h a

find-phase :
    (n : ℕ) (bs : List PhaseBudget)
    → All (λ b. 1 ≤ b.phase) bs
    → Yields (λ b. (b.phase ≡ n) × (1 ≤ n)) (find (λ b. b.phase == n) bs)
find-phase n [] pos = tt
find-phase n (b ∷ bs) (low, pos) = elim (Bool-cases (b.phase == n)) [
  | inl same ↦ rw same ((==_iff b.phase n).0 same, ground arith)
  | inr other ↦ rw other (find-phase n bs pos)
]

pub budget_of-phase : (n : ℕ) → Yields (λ b. (b.phase ≡ n) × (1 ≤ n)) (budget_of n)
budget_of-phase n =
    find-phase n phase_budgets
      (omega arith, (omega arith, (omega arith, (omega arith, (omega arith, tt)))))

-- The work of a phase changes keys and the payload alone: the QKD key in phase 2 only, and the secret
-- in phase 4 only, which makes one.
pub record Done (b : PhaseBudget) (failed : Bool) (s : Sim) (done : Worked) : Type 0 where
  pub same : done.sim ≡ record s {
    qkd_key = done.sim.qkd_key;
    pqc_secret = done.sim.pqc_secret;
    last_payload = done.sim.last_payload;
  }
  pub keeps_key : b.phase ≢ 2 → done.sim.qkd_key ≡ s.qkd_key
  pub keeps : b.phase ≢ 4 → done.sim.pqc_secret ≡ s.pqc_secret
  pub makes : failed ≡ false → b.phase ≡ 4 → is_some done.sim.pqc_secret ≡ true

module _ (noble : Noble) (w : World) where
  data_work-Done :
      (b : PhaseBudget) (s : Sim) → b.phase ≡ 5 → Yields (Done b false s) (data_work noble w b s)
  unfolding data_work seal_work
  data_work-Done b s five = Option-both (Yields (Done b false s)) s.pqc_secret none _ tt (λ secret.
      Yields-all (Done b false s) (λ r. seal_work b s (tunnel_psk noble w secret) r.0 r.1)
        (chacha_seal noble w 0 (tunnel_psk noble w secret) (payload s))
        (λ r. record {
          same = refl;
          keeps_key = λ h. refl;
          keeps = λ h. refl;
          makes = λ ok h. absurd (omega (arith, five, h));
        }))

  hop_work-Done : (b : PhaseBudget) (s : Sim) → b.phase ≡ 3 → Done b false s (hop_work noble w b s)
  hop_work-Done b s three =
      Option-both (Done b false s) s.qkd_key (plain_work b false s)
        (λ key. with_hop_psk (take 16 (to_hex (hop_psk noble w key))) (plain_work b false s))
        (record {
          same = refl;
          keeps_key = λ h. refl;
          keeps = λ h. refl;
          makes = λ ok h. absurd (omega (arith, three, h));
        })
        (λ key. record {
          same = refl;
          keeps_key = λ h. refl;
          keeps = λ h. refl;
          makes = λ ok h. absurd (omega (arith, three, h));
        })

  pub work_of-Done : (b : PhaseBudget) (s : Sim) → Yields (Done b false s) (work_of noble w b s)
  unfolding work_of
  work_of-Done b s = elim (Bool-cases (b.phase == 2)) [
    | inl two ↦ rw two (record {
      same = refl;
      keeps_key = λ h. absurd (h (ground arith));
      keeps = λ h. refl;
      makes = λ ok h. absurd (ground arith);
    })
    | inr not_two ↦ rw not_two (elim (Bool-cases (b.phase == 3)) [
      | inl three ↦ rw three (hop_work-Done b s (ground arith))
      | inr not_three ↦ rw not_three (elim (Bool-cases (b.phase == 4)) [
        | inl four ↦ rw four (record {
          same = refl;
          keeps_key = λ h. refl;
          keeps = λ h. absurd (h (ground arith));
          makes = λ ok h. refl;
        })
        | inr not_four ↦ rw not_four (elim (Bool-cases (b.phase == 5)) [
          | inl five ↦ rw five (data_work-Done b s (ground arith))
          | inr not_five ↦ rw not_five (record {
            same = refl;
            keeps_key = λ h. refl;
            keeps = λ h. refl;
            makes = λ ok h. absurd (ground arith);
          })
        ])
      ])
    ])
  ]
