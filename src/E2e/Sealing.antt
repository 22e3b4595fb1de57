-- ===== src/E2e/Sealing.antt =====
-- The bytes that step 4 of the end-to-end simulator (e2eSim.ts) seals.
use mathlib.Core.Option
use pqc_qkd_hybrid_network.Base.{
  ℕ, zero, suc, ◌+◌, ◌*◌, ◌/◌, ◌%◌, ◌≤◌, ◌<◌, ◌≡◌, refl, ap, some, List, [], ◌∷◌, ◌++◌, length,
  length-append, arith,
}
use pqc_qkd_hybrid_network.E2e.Crypto.{Noble, World, encode_utf8, digits, chacha_encrypt}
use pqc_qkd_hybrid_network.E2e.Work.{ping, seal_packets}

-- What the code relies on of the cipher: with a key of 32 bytes it seals, and appends a tag of 16.
pub record IsCipher (noble : Noble) : Type 0 where
  pub seals :
      (key nonce aad plain : List ℕ)
      → length key ≡ 32
      → (c : List ℕ) × (noble.encrypt key nonce aad plain ≡ some c) × (length c ≡ length plain + 16)

-- A draw has the size that was asked for.
abbrev pub IsDrawn : World → Type 0
IsDrawn w = (n size : ℕ) → length (w.draw n size) ≡ size

pow10 : ℕ → ℕ
pow10 zero = 1
pow10 (suc k) = 10 * pow10 k

digits-some : (fuel n : ℕ) → 1 ≤ length (digits fuel n)
unfolding digits
digits-some zero n = omega arith
digits-some (suc fuel) n =
    let e = length-append (digits fuel (n / 10)) ((48 + n % 10) ∷ []) in ground arith

-- A number below 10 to the power of `k + 1` has at most `k + 1` digits.
length-digits : (k fuel n : ℕ) → n < pow10 (suc k) → length (digits fuel n) ≤ suc k
unfolding digits pow10
length-digits k zero n lt = omega arith
length-digits zero (suc fuel) n lt = ground arith
length-digits (suc k) (suc fuel) n lt =
    let e = length-append (digits fuel (n / 10)) ((48 + n % 10) ∷ []) in
    let ih = length-digits k fuel (n / 10) (omega arith) in ground arith

length-ping : (i : ℕ) → length (ping i) ≡ length (digits i i) + 40
unfolding ping
length-ping i =
    let e =
      length-append (encode_utf8 "PING ")
        (digits i i ++ encode_utf8 " Alice->Bob over Quantum-Secure VPN") in
    let e' = length-append (digits i i) (encode_utf8 " Alice->Bob over Quantum-Secure VPN") in
    omega arith

module _ (noble : Noble) (w : World) (key : List ℕ) (cipher : IsCipher noble) (drawn : IsDrawn w)
    (whole : length key ≡ 32) where
  chacha_encrypt-total :
      (n : ℕ) (plain : List ℕ) → chacha_encrypt noble w n key plain ≡ some (length plain + 28)
  unfolding chacha_encrypt
  chacha_encrypt-total n plain =
      let (c, e, len) = cipher.seals key (w.draw n 12) (encode_utf8 "alice->bob") plain whole in
      let d = drawn n 12 in rw e (ap some (omega arith))

  -- The loop of step 4 with the cipher and the browser as documented and a key of 32 bytes: sealing
  -- `n` packets, the last of which is numbered below 1024, never throws, and each counts for at
  -- least 69 bytes and at most 72.
  pub seal_packets_bytes :
      (n i : ℕ)
      → i + n ≤ 1024
      → (b : ℕ) × (seal_packets noble w key i n ≡ some b) × (n * 69 ≤ b) × (b ≤ n * 72)
  unfolding seal_packets pow10 Option.bind
  seal_packets_bytes zero i le = (0, refl, omega arith, omega arith)
  seal_packets_bytes (suc n) i le =
      let (b, e, lo, hi) = seal_packets_bytes n (i + 1) (omega arith) in
      let c = chacha_encrypt-total i (ping i) in
      let len = length-ping i in
      let some_digit = digits-some i i in
      let few_digits = length-digits 3 i i (small i le) in
      (length (ping i) + 28 + b, rw (c, e) refl, omega arith, omega arith)
    where
      small : (i : ℕ) → i + suc n ≤ 1024 → i < pow10 4
      small i h = omega arith
