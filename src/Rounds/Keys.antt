-- ===== src/Rounds/Keys.antt =====
-- The bits of a round of qkdRounds.ts, and the range of the seeded draws.
use pqc_qkd_hybrid_network.Base.{
  ℕ, zero, suc, ◌*◌, ◌/◌, ◌<◌, ◌≡◌, ◌⊎◌, refl, inl, inr, Bool, true, false, none, some, arith,
}
use pqc_qkd_hybrid_network.Lab.Relay.{xor_bits}
use pqc_qkd_hybrid_network.Rounds.{
  RoundProtocol, bb84, bbm92, mdi, Basis, rectilinear, diagonal, Round, mdi_outcomes, relay_of,
  mdi_round, plain_round, play_round, bob_final_bit, pick_basis, pick_bit, seeded_draw,
}

-- A kept round gives both parties the key, and only a kept round gives one.
abbrev pub IsAgreed : Round → Type 0
IsAgreed r =
    (r.kept ≡ true) × (r.key ≡ some r.alice.bit) × (bob_final_bit r ≡ r.alice.bit)
    ⊎ (r.kept ≡ false) × (r.key ≡ none)

plain_round-IsAgreed :
    (p : RoundProtocol) (a b : Basis) (x y : Bool) → IsAgreed (plain_round p a b x y)
unfolding plain_round
plain_round-IsAgreed p rectilinear rectilinear x y = inl (refl, refl, refl)
plain_round-IsAgreed p diagonal diagonal x y = inl (refl, refl, refl)
plain_round-IsAgreed p rectilinear diagonal x y = inr (refl, refl)
plain_round-IsAgreed p diagonal rectilinear x y = inr (refl, refl)

-- No draw below 1 picks an outcome of probability 0.
mdi_round-IsAgreed :
    (a b : Basis) (x y : Bool) (u : ℕ)
    → IsAgreed (
        mdi_round
          (record { basis = a; bit = x })
          (record { basis = b; bit = y })
          (relay_of (mdi_outcomes a x b y) u))
unfolding mdi_round relay_of mdi_outcomes
mdi_round-IsAgreed rectilinear diagonal x y u = inr (refl, refl)
mdi_round-IsAgreed diagonal rectilinear x y u = inr (refl, refl)
mdi_round-IsAgreed rectilinear rectilinear true true u = ground arith
mdi_round-IsAgreed rectilinear rectilinear false false u = ground arith
mdi_round-IsAgreed rectilinear rectilinear true false u = ground arith
mdi_round-IsAgreed rectilinear rectilinear false true u = ground arith
mdi_round-IsAgreed diagonal diagonal true true u = ground arith
mdi_round-IsAgreed diagonal diagonal false false u = ground arith
mdi_round-IsAgreed diagonal diagonal true false u = ground arith
mdi_round-IsAgreed diagonal diagonal false true u = ground arith

-- Whatever the draws are, a round that is kept gives Alice and Bob, after his flip, the same bit, which
-- is the key; a round that is not kept gives no key.
pub play_round-IsAgreed : (p : RoundProtocol) (draw : ℕ → ℕ) → IsAgreed (play_round p draw)
unfolding play_round
play_round-IsAgreed mdi draw =
    mdi_round-IsAgreed (pick_basis (draw 0)) (pick_basis (draw 1)) (pick_bit (draw 2))
      (pick_bit (draw 3)) (draw 4)
play_round-IsAgreed bb84 draw =
    plain_round-IsAgreed bb84 (pick_basis (draw 0)) (pick_basis (draw 1)) (pick_bit (draw 2))
      (pick_bit (draw 3))
play_round-IsAgreed bbm92 draw =
    plain_round-IsAgreed bbm92 (pick_basis (draw 0)) (pick_basis (draw 1)) (pick_bit (draw 2))
      (pick_bit (draw 3))

pow2 : ℕ → ℕ
pow2 zero = 1
pow2 (suc w) = 2 * pow2 w

xor_bits-lt : (w a b : ℕ) → xor_bits w a b < pow2 w
unfolding xor_bits pow2
xor_bits-lt zero a b = omega arith
xor_bits-lt (suc w) a b = omega (arith, xor_bits-lt w (a / 2) (b / 2))

-- A seeded draw is below 1, which is 2^32 parts.
pub seeded_draw-lt : (a : ℕ) → seeded_draw a < 4294967296
unfolding seeded_draw pow2
seeded_draw-lt a = xor_bits-lt 32 _ _
