-- ===== src/Lab/Refused.antt =====
-- When `load` of the protocol lab (services/webui-frontend/src/lib/sim/protocolLabSim.ts) throws.
use Prim.Native.Nat.{Ordering}
use pqc_qkd_hybrid_network.Base.{
  ◌≡◌, ◌≢◌, refl, sym, ap, subst, ◌∙◌, ◌↔◌, ◌⊎◌, inl, inr, String, Bool, true, false, Option, none,
  some, List, [], ◌∷◌, All, find, str_eq, eq_iff, some_inj, Bool-cases, Option-cases,
}
use pqc_qkd_hybrid_network.Lab.Generate.{Params}
use pqc_qkd_hybrid_network.Lab.Scenario.{Preset, Scenario, Catalog, preset_by_id, scenario_by_id}
use pqc_qkd_hybrid_network.Lab.State.{Sim, Platform}
use pqc_qkd_hybrid_network.Lab.Load.{Demand, belongs, load_found, load_listed, load}

-- No element passes the test.
abbrev pub IsAbsent {ℓ} : {A : Type ℓ} → (A → Bool) → List A → Type 0
IsAbsent test xs = All (λ x. test x ≡ false) xs

-- A scenario is refused for a preset that is there: it is not in the catalog, or is one of another preset.
abbrev pub IsForeign : Catalog → String → Option String → Type 0
IsForeign c preset_id none = ⊥
IsForeign c preset_id (some id) =
    (id ≢ "")
    × (IsAbsent (λ s. str_eq s.id id) c.scenarios
        ⊎ ((s : Scenario) × (scenario_by_id id c.scenarios ≡ some s) × (s.preset_id ≢ preset_id)))

find-IsAbsent {ℓ} :
    {A : Type ℓ} (test : A → Bool) (xs : List A) → (find test xs ≡ none) ↔ IsAbsent test xs
find-IsAbsent test [] = (λ _. tt, λ _. refl)
find-IsAbsent test (x ∷ xs) = elim (Bool-cases (test x)) [
  | inl hit ↦ (λ e. absurd (cc (rw hit at e)), λ h. absurd (cc (sym hit ∙ h.0)))
  | inr miss ↦
      let (f, g) = find-IsAbsent test xs in (λ e. (miss, f (rw miss at e)), λ h. rw miss (g h.1))
]

find-test {ℓ} :
    {A : Type ℓ} (test : A → Bool) (xs : List A) (x : A) → find test xs ≡ some x → test x ≡ true
find-test test [] x e = absurd (cc e)
find-test test (y ∷ ys) x e = elim (Bool-cases (test y)) [
  | inl hit ↦ subst (λ z. test z ≡ true) (some_inj (rw hit at e)) hit
  | inr miss ↦ find-test test ys x (rw miss at e)
]

same_text : (a b : String) → str_eq a b ≡ true → a ≡ b
same_text a b h = (eq_iff a b).0 h

other_text : (a b : String) → str_eq a b ≡ false → a ≢ b
other_text a b h e = cc (sym h ∙ (eq_iff a b).1 e)

not_same : (a b : String) → a ≢ b → str_eq a b ≡ false
not_same a b h = elim (Bool-cases (str_eq a b)) [
  | inl same ↦ absurd (h (same_text a b same))
  | inr other ↦ other
]

-- A scenario that is found is a foreign one only by its preset.
foreign :
    (c : Catalog) (sc : Scenario) (id preset_id own_id : String)
    → own_id ≡ preset_id
    → scenario_by_id id c.scenarios ≡ some sc
    → IsAbsent (λ t. str_eq t.id id) c.scenarios
      ⊎ ((t : Scenario) × (some sc ≡ some t) × (t.preset_id ≢ preset_id))
    → sc.preset_id ≢ own_id
foreign c sc id preset_id own_id same found (inl absent) e =
    cc (sym found ∙ (find-IsAbsent (λ t. str_eq t.id id) c.scenarios).1 absent)
foreign c sc id preset_id own_id same found (inr (t, found', other)) e =
    other (ap (λ (u : Scenario). u.preset_id) (sym (some_inj found')) ∙ (e ∙ same))

module _ (p : Params) (collate : String → String → Ordering) (w : Platform) where
  load_found-threw :
      (preset : Preset) (sc : Option Scenario) (d : Option Demand) (s : Sim)
      → ((load_found p collate w preset sc d s).1 ≡ true) ↔ (belongs preset sc ≡ false)
  unfolding load_found
  load_found-threw preset sc d s = elim (Bool-cases (belongs preset sc)) [
    | inl own ↦ rw own (λ e. absurd (cc e), λ e. absurd (cc e))
    | inr other ↦ rw other (λ e. refl, λ e. refl)
  ]

  -- `load` with a preset that is there.
  listed_throws_iff :
      (c : Catalog) (preset : Preset) (preset_id : String) (scenario_id : Option String)
      (d : Option Demand) (s : Sim)
      → preset.id ≡ preset_id
      → ((load_listed p collate w c preset scenario_id d s).1 ≡ true)
        ↔ IsForeign c preset_id scenario_id
  unfolding load_listed
  listed_throws_iff c preset preset_id none d s same =
      let (f, g) = load_found-threw preset none d s in (λ e. absurd (cc (f e)), λ h. absurd h)
  listed_throws_iff c preset preset_id (some id) d s same = elim (Bool-cases (str_eq id "")) [
    | inl empty ↦
        let (f, g) = load_found-threw preset none d s in
        rw (empty, load_listed) (λ e. absurd (cc (f e)), λ h. absurd (h.0 (same_text id "" empty)))
    | inr named ↦
        let named' = other_text id "" named in
        rw (named, load_listed)
          (elim (Option-cases (scenario_by_id id c.scenarios)) [
            | inl gone ↦ rw gone (
              λ e. (named', inl ((find-IsAbsent (λ t. str_eq t.id id) c.scenarios).0 gone)),
              λ h. refl,
            )
            | inr (sc, found) ↦
                let (f, g) = load_found-threw preset (some sc) d s in
                rw found (
                  λ e. (
                    named',
                    inr (
                      sc,
                      refl,
                      λ other. other_text sc.preset_id preset.id (f e) (other ∙ sym same),
                    ),
                  ),
                  λ h. g (
                      not_same sc.preset_id preset.id
                        (foreign c sc id preset_id preset.id same found h.1)),
                )
          ])
  ]

  -- `load` throws exactly where the catalog has no preset with the id, or where a scenario id is given
  -- that is not empty and the catalog has no scenario with that id or one of another preset.
  pub load_throws_iff :
      (c : Catalog) (preset_id : String) (scenario_id : Option String) (d : Option Demand) (s : Sim)
      → ((load p collate w c preset_id scenario_id d s).1 ≡ true)
        ↔ IsAbsent (λ q. str_eq q.id preset_id) c.presets ⊎ IsForeign c preset_id scenario_id
  unfolding load
  load_throws_iff c preset_id scenario_id d s =
      let (f, g) = find-IsAbsent (λ q. str_eq q.id preset_id) c.presets in
      elim (Option-cases (preset_by_id preset_id c.presets)) [
        | inl gone ↦ rw (gone, load) (λ e. inl (f gone), λ h. refl)
        | inr (preset, found) ↦
            let same =
              same_text preset.id preset_id
                (find-test (λ q. str_eq q.id preset_id) c.presets preset found) in
            let (h, k) = listed_throws_iff c preset preset_id scenario_id d s same in
            rw (found, load)
              (
                λ e. inr (h e),
                λ o. elim o [ inl absent ↦ absurd (cc (sym found ∙ g absent)) | inr bad ↦ k bad ],
              )
      ]
