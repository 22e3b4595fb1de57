-- ===== src/E2e/Stranded.antt =====
-- The hybrid mode of the end-to-end simulator (e2eSim.ts) when the failed layer is replaced in the
-- middle of a cycle.
use mathlib.Core.Option
use pqc_qkd_hybrid_network.Base.{
  ℕ, zero, suc, ◌≤◌, ◌≡◌, ◌≢◌, refl, sym, ap, subst, ◌∙◌, true, false, ◌&&◌, none, some, List, [],
  length, ◌==◌, arith,
}
use pqc_qkd_hybrid_network.E2e.State.{mode_b, mode_c, qkd, pqc}
use pqc_qkd_hybrid_network.E2e.Crypto.{Noble, World, chacha_seal, chacha_encrypt}
use pqc_qkd_hybrid_network.E2e.Fields.{Sim, exit, is_layer, is_mode, is_fatal}
use pqc_qkd_hybrid_network.E2e.Work.{
  exchange_key_ids, pqc_leg, pqc_handshake, seal_packets, data_exchange,
}
use pqc_qkd_hybrid_network.E2e.Sim.{inject_failure}
use pqc_qkd_hybrid_network.E2e.Cases.{Run, exchange_key_ids-IsSameRun, pqc_handshake-IsSameRun}

-- What the code relies on of the cipher: it throws on a key that is not 32 bytes long.
pub record IsStrict (noble : Noble) : Type 0 where
  pub throws :
      (key nonce aad plain : List ℕ) → length key ≢ 32 → noble.encrypt key nonce aad plain ≡ none

no_qkd_left :
    (w : World) (sim : Sim)
    → is_layer qkd sim.s.failed_layer ≡ true
    → (exchange_key_ids w sim).qkd_key ≡ []
unfolding exchange_key_ids exit
no_qkd_left w sim h = rw h refl

no_pqc_left : (w : World) (sim : Sim) → is_layer pqc sim.s.failed_layer ≡ true → pqc_leg w sim ≡ []
unfolding pqc_leg
no_pqc_left w sim h = rw h refl

no_key_left :
    (noble : Noble) (w : World) (sim : Sim)
    → sim.qkd_key ≡ []
    → pqc_leg w sim ≡ []
    → (pqc_handshake noble w sim).derived ≡ []
unfolding pqc_handshake exit
no_key_left noble w sim a b =
    let h : (length sim.qkd_key == 0 && length (pqc_leg w sim) == 0) ≡ true = rw (a, b) refl in
    rw h refl

no_seal :
    (noble : Noble) (w : World) (key : List ℕ) (n : ℕ)
    → IsStrict noble
    → key ≡ []
    → 1 ≤ n
    → seal_packets noble w key 0 n ≡ none
unfolding seal_packets chacha_encrypt chacha_seal Option.bind
no_seal noble w key zero strict e le = absurd (omega arith)
no_seal noble w key (suc n) strict e le =
    rw (strict.throws key _ _ _ (λ l. ground (arith, ap (λ (k : List ℕ). length k) e))) refl

no_exchange :
    (noble : Noble) (w : World) (sim : Sim)
    → IsStrict noble
    → is_fatal sim.s.failed_layer sim.s.mode ≡ false
    → sim.derived ≡ []
    → 1 ≤ sim.cycle_packets
    → data_exchange noble w sim ≡ none
unfolding data_exchange
no_exchange noble w sim strict goes_on empty le =
    rw (goes_on, no_seal noble w sim.derived sim.cycle_packets strict empty le) refl

-- In hybrid mode, with a cipher that takes keys of 32 bytes only: when the QKD layer is failed in
-- step 2 and the operator then fails the PQC layer instead, step 3 derives no key although the
-- failure is not fatal, and step 4 of the cycle throws.
pub swapped_failure_throws :
    (noble : Noble) (w2 w w3 w4 : World) (sim : Sim)
    → IsStrict noble
    → sim.s.mode ≡ mode_c
    → sim.s.failed_layer ≡ some qkd
    → 1 ≤ sim.cycle_packets
    → let next = pqc_handshake noble w3 (inject_failure w pqc (exchange_key_ids w2 sim)) in
      (next.derived ≡ [])
      × (is_fatal next.s.failed_layer next.s.mode ≡ false)
      × (data_exchange noble w4 next ≡ none)
unfolding inject_failure is_fatal
swapped_failure_throws noble w2 w w3 w4 sim strict hybrid failed le =
    let s1 = exchange_key_ids w2 sim in
    let s2 = inject_failure w pqc s1 in
    let next = pqc_handshake noble w3 s2 in
    let a = no_qkd_left w2 sim (ap (is_layer qkd) failed) in
    let r1 = exchange_key_ids-IsSameRun w2 sim in
    let r2 = pqc_handshake-IsSameRun w3 s2 noble in
    let empty = no_key_left noble w3 s2 a (no_pqc_left w3 s2 refl) in
    let mode : next.s.mode ≡ mode_c =
      ap (λ (r : Run). r.mode) r2 ∙ (ap (λ (r : Run). r.mode) r1 ∙ hybrid) in
    let layer : next.s.failed_layer ≡ some pqc = ap (λ (r : Run). r.failed) r2 in
    let latched : next.cycle_packets ≡ sim.cycle_packets =
      ap (λ (r : Run). r.latched) r2 ∙ ap (λ (r : Run). r.latched) r1 in
    let survives : is_fatal next.s.failed_layer next.s.mode ≡ false =
      ap (λ l. is_fatal l next.s.mode) layer ∙ ap (λ m. is_mode m mode_b) mode in
    (
      empty,
      survives,
      no_exchange noble w4 next strict survives empty (subst (λ n. 1 ≤ n) (sym latched) le),
    )
