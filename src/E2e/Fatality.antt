-- ===== src/E2e/Fatality.antt =====
-- Which failures end a run of the end-to-end simulator (e2eSim.ts), and what the key derivation of
-- step 3 is left with.
use pqc_qkd_hybrid_network.Base.{
  ℕ, ◌+◌, ◌-◌, ◌*◌, ◌<◌, ◌≡◌, refl, ◌≢◌, ◌↔◌, ◌⊎◌, inl, inr, true, some, List, [], ◌∷◌, ltb,
  if◌then◌else◌, ◌++◌, take, All,
}
use pqc_qkd_hybrid_network.E2e.State.{Mode, mode_a, mode_b, mode_c, Layer, qkd, pqc, data_layer}
use pqc_qkd_hybrid_network.E2e.Crypto.{Noble, World, encode_utf8, mode_text}
use pqc_qkd_hybrid_network.E2e.Fields.{Sim, is_fatal}

-- The key sources of a mode.
abbrev pub sources : Mode → List Layer
sources mode_a = qkd ∷ []
sources mode_b = pqc ∷ []
sources mode_c = qkd ∷ pqc ∷ []

-- A failure of a layer is fatal exactly when the layer is the data layer or it is every key source of
-- the mode.
pub is_fatal_iff :
    (f : Layer) (m : Mode)
    → (is_fatal (some f) m ≡ true) ↔ (f ≡ data_layer) ⊎ All (λ s. s ≡ f) (sources m)
unfolding is_fatal
is_fatal_iff data_layer m = (λ _. inl refl, λ _. refl)
is_fatal_iff qkd mode_a = (λ _. inr (refl, tt), λ _. refl)
is_fatal_iff qkd mode_b =
    (λ e. absurd (cc e), λ h. elim h [ inl e ↦ absurd (cc e) | inr a ↦ absurd (cc a.0) ])
is_fatal_iff qkd mode_c =
    (λ e. absurd (cc e), λ h. elim h [ inl e ↦ absurd (cc e) | inr a ↦ absurd (cc a.1.0) ])
is_fatal_iff pqc mode_a =
    (λ e. absurd (cc e), λ h. elim h [ inl e ↦ absurd (cc e) | inr a ↦ absurd (cc a.0) ])
is_fatal_iff pqc mode_b = (λ _. inr (refl, tt), λ _. refl)
is_fatal_iff pqc mode_c =
    (λ e. absurd (cc e), λ h. elim h [ inl e ↦ absurd (cc e) | inr a ↦ absurd (cc a.0) ])

-- What the code relies on of the key derivation: it returns bytes.
pub record ReturnsBytes (noble : Noble) : Type 0 where
  pub bytes : (ikm salt info : List ℕ) (n : ℕ) → All (λ b. b < 256) (noble.hkdf ikm salt info n)

-- The value of a hexadecimal digit, and the bytes of a text of such digits.
abbrev pub digit_value : ℕ → ℕ
digit_value c = if ltb c 58 then c - 48 else c - 87

abbrev pub hex_bytes : List ℕ → List ℕ
hex_bytes [] = []
hex_bytes (c ∷ []) = []
hex_bytes (c ∷ d ∷ cs) = (16 * digit_value c + digit_value d) ∷ hex_bytes cs

-- The PQC leg of a cycle: there is none in QKD-only mode or when the PQC layer has failed, and 32 random
-- bytes otherwise.
abbrev pub IsLeg : World → Sim → List ℕ → Type 0
IsLeg w sim leg =
    ((sim.s.mode ≡ mode_a) ⊎ (sim.s.failed_layer ≡ some pqc)) × (leg ≡ [])
    ⊎ (sim.s.mode ≢ mode_a) × (sim.s.failed_layer ≢ some pqc) × (leg ≡ w.draw 0 32)

-- What step 3 leaves: the leg, and the key and the shown prefix that follow from it and the QKD key.
pub record IsKeyed (noble : Noble) (w : World) (sim next : Sim) : Type 0 where
  pub leg : IsLeg w sim next.pqc_secret
  pub key :
      (sim.qkd_key ≡ []) × (next.pqc_secret ≡ []) × (next.derived ≡ [])
      ⊎ (sim.qkd_key ++ next.pqc_secret ≢ [])
        × (next.derived
            ≡ noble.hkdf
                (sim.qkd_key ++ next.pqc_secret)
                (encode_utf8 "pqcqkd-e2e")
                (encode_utf8 "mode-" ++ mode_text sim.s.mode)
                32)
  pub prefix : hex_bytes next.s.last_psk_prefix_hex ≡ take 8 next.derived
