-- ===== src/Rounds/Tests.antt =====
-- Rounds of qkdRounds.ts from concrete draws, and the first seeded draws.
use pqc_qkd_hybrid_network.Base.{ℕ, ◌≡◌, refl, false, true, some, if◌then◌else◌, ◌==◌}
use pqc_qkd_hybrid_network.Lab.Relay.{xor_bits}
use pqc_qkd_hybrid_network.Rounds.{
  mdi, psi_minus, mdi_outcomes, relay_of, mdi_round, plain_round, play_round, bob_final_bit,
  or_bits, next_seed, seeded_draw,
}
use pqc_qkd_hybrid_network.Rounds.Keys.{IsAgreed, play_round-IsAgreed}

-- The rectilinear basis for both, bits 0 and 1, and an answer of the relay.
abbrev draws : ℕ → ℕ
draws k = if k == 3 then 3000000000 else 7

round_tests :
    ((play_round mdi draws).relay ≡ some psi_minus)
    × ((play_round mdi draws).flip ≡ true)
    × (bob_final_bit (play_round mdi draws) ≡ false)
unfolding play_round mdi_round plain_round relay_of mdi_outcomes
round_tests = (refl, refl, refl)

-- mulberry32 from the seed 1.
seed_tests :
    (seeded_draw (next_seed 1) ≡ 2693262067) × (seeded_draw (next_seed (next_seed 1)) ≡ 11749833)
unfolding seeded_draw xor_bits or_bits
seed_tests = (refl, refl)

play_round-IsAgreed_example : IsAgreed (play_round mdi draws)
play_round-IsAgreed_example = play_round-IsAgreed mdi draws
