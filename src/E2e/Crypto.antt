-- ===== src/E2e/Crypto.antt =====
-- services/webui-frontend/src/lib/sim/crypto.ts as far as the end-to-end simulator calls it. Bytes
-- and the code points of a text are lists of numbers; the functions of @noble and of the browser are
-- parameters.
use Prim.Native.Char.{code}
use mathlib.Core.Option
use pqc_qkd_hybrid_network.Base.{
  ℕ, zero, suc, ◌+◌, ◌/◌, ◌%◌, String, Option, List, [], ◌∷◌, ◌++◌, length, ltb, if◌then◌else◌,
}
use pqc_qkd_hybrid_network.E2e.State.{Mode, mode_a, mode_b, mode_c}

-- `hkdf(sha3_256, ikm, salt, info, length)`, and `chacha20poly1305(key, nonce, aad).encrypt(plain)`,
-- which throws (`none`) on a key that is not 32 bytes long.
pub record Noble : Type 0 where
  pub hkdf : (ikm salt info : List ℕ) → ℕ → List ℕ
  pub encrypt : (key nonce aad plain : List ℕ) → Option (List ℕ)

-- What the browser returns during one call: the clocks, the bytes of the n-th draw, and a UUID.
pub record World : Type 0 where
  pub date_now : ℕ
  pub performance_now : ℕ
  pub draw : ℕ → (size : ℕ) → List ℕ
  pub random_uuid : String

-- `TextEncoder.encode` on ASCII text.
abbrev pub encode_utf8 : String → List ℕ
encode_utf8 String.[] = []
encode_utf8 (String.◌∷◌ c s) = code c ∷ encode_utf8 s

-- A number in decimal, as code points; a number has at most as many digits as its value plus one.
unfoldable pub digits : ℕ → ℕ → List ℕ
digits zero n = (48 + n) ∷ []
digits (suc fuel) n =
    let rest = digits fuel (n / 10) in
    if ltb n 10 then (48 + n) ∷ [] else rest ++ (48 + n % 10) ∷ []

abbrev pub hex_digit : ℕ → ℕ
hex_digit d = if ltb d 10 then 48 + d else 87 + d

-- `toHex`: two digits for each byte.
unfoldable pub to_hex : List ℕ → List ℕ
to_hex [] = []
to_hex (b ∷ bs) = hex_digit (b / 16) ∷ hex_digit (b % 16) ∷ to_hex bs

-- The mode as `deriveHkdfSha3` is given it.
abbrev pub mode_text : Mode → List ℕ
mode_text mode_a = encode_utf8 "A"
mode_text mode_b = encode_utf8 "B"
mode_text mode_c = encode_utf8 "C"

module _ (noble : Noble) where
  unfoldable pub derive_hkdf_sha3 : (qkd_key pqc_key mode : List ℕ) → List ℕ
  derive_hkdf_sha3 qkd_key pqc_key mode =
      noble.hkdf (qkd_key ++ pqc_key) (encode_utf8 "pqcqkd-e2e") (encode_utf8 "mode-" ++ mode) 32

  -- `chachaSeal`: the ciphertext with its nonce, the n-th draw.
  unfoldable pub chacha_seal : World → ℕ → List ℕ → List ℕ → Option (List ℕ × List ℕ)
  chacha_seal w n key plain =
      let nonce = w.draw n 12 in
      Option.map (λ ciphertext. (ciphertext, nonce))
        (noble.encrypt key nonce (encode_utf8 "alice->bob") plain)

  -- `chachaEncrypt`: the lengths of the two, added.
  unfoldable pub chacha_encrypt : World → ℕ → List ℕ → List ℕ → Option ℕ
  unfolding chacha_seal
  chacha_encrypt w n key plain =
      Option.map (λ r. length r.0 + length r.1) (chacha_seal w n key plain)
