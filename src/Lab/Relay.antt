-- ===== src/Lab/Relay.antt =====
-- `relaySample` of the protocol lab (services/webui-frontend/src/lib/sim/protocolLabSim.ts): a key
-- that crosses a route under one-time pads. Bytes are numbers below 256; the random bytes that the
-- call draws are arguments.
use pqc_qkd_hybrid_network.Base.{
  ℕ, zero, suc, ◌+◌, ◌*◌, ◌/◌, ◌%◌, ◌<◌, ◌≤◌, ◌≡◌, refl, ap, ◌∙◌, Bool, true, false, ◌&&◌, List, [],
  ◌∷◌, map, length, take, ◌==◌, All, arith,
}
use pqc_qkd_hybrid_network.E2e.Crypto.{to_hex}

-- `a ^ b` of numbers with `w` binary digits.
unfoldable pub xor_bits : ℕ → ℕ → ℕ → ℕ
xor_bits zero a b = 0
xor_bits (suc w) a b = (a % 2 + b % 2) % 2 + 2 * xor_bits w (a / 2) (b / 2)

-- `xs.map((b, i) => b ^ pad[i])`; past the end of the pad the byte is kept, as `b ^ undefined` keeps it.
unfoldable pub xor_pad : List ℕ → List ℕ → List ℕ
unfolding xor_bits
xor_pad [] pad = []
xor_pad (b ∷ bs) [] = b ∷ xor_pad bs []
xor_pad (b ∷ bs) (p ∷ pad) = xor_bits 8 b p ∷ xor_pad bs pad

-- The loop over the hops: what a node sends and what the next one recovers.
unfoldable pub carry : List ℕ → List (List ℕ) → List ℕ
unfolding xor_pad
carry carried [] = carried
carry carried (pad ∷ pads) = carry (xor_pad (xor_pad carried pad) pad) pads

-- `carried.every((b, i) => b === key[i])`
unfoldable pub same_bytes : List ℕ → List ℕ → Bool
same_bytes [] key = true
same_bytes (b ∷ bs) [] = false
same_bytes (b ∷ bs) (k ∷ ks) = (b == k) && same_bytes bs ks

pub record LastRelay : Type 0 where
  pub hops : ℕ
  pub key_prefix : List ℕ
  pub pad_prefixes : List (List ℕ)
  pub recovered_equals_sent : Bool

-- `PREFIX_HEX`
abbrev pub prefix_hex : ℕ
prefix_hex = 16

abbrev pub prefix : List ℕ → List ℕ
prefix bytes = take prefix_hex (to_hex bytes)

-- The state that is kept of a key relayed over a route with one pad for each of its hops.
unfoldable pub relay_sample : List ℕ → List (List ℕ) → LastRelay
unfolding carry same_bytes to_hex
relay_sample key pads = record {
  hops = length pads;
  key_prefix = prefix key;
  pad_prefixes = map prefix pads;
  recovered_equals_sent = same_bytes (carry key pads) key;
}

pow2 : ℕ → ℕ
pow2 zero = 1
pow2 (suc w) = 2 * pow2 w

-- Removing a pad that was added gives the number back.
xor_bits_twice : (w a b : ℕ) → a < pow2 w → xor_bits w (xor_bits w a b) b ≡ a
unfolding xor_bits pow2
xor_bits_twice zero a b lt = omega arith
xor_bits_twice (suc w) a b lt =
    let r = xor_bits w (a / 2) (b / 2) in
    let x = (a % 2 + b % 2) % 2 + 2 * r in
    let half : x / 2 ≡ r = omega arith in
    let ih = xor_bits_twice w (a / 2) (b / 2) (omega arith) in rw (half, ih) (omega arith)

abbrev pub AreBytes : List ℕ → Type 0
AreBytes = All (λ b. b < 256)

xor_pad_twice : (bs pad : List ℕ) → AreBytes bs → xor_pad (xor_pad bs pad) pad ≡ bs
unfolding xor_pad pow2
xor_pad_twice [] pad a = refl
xor_pad_twice (b ∷ bs) [] a = ap (λ xs. b ∷ xs) (xor_pad_twice bs [] a.1)
xor_pad_twice (b ∷ bs) (p ∷ pad) a =
    rw (xor_bits_twice 8 b p (small b a.0), xor_pad_twice bs pad a.1) refl
  where
    small : (b : ℕ) → b < 256 → b < pow2 8
    small b h = omega arith

carry_lem : (key : List ℕ) (pads : List (List ℕ)) → AreBytes key → carry key pads ≡ key
unfolding carry
carry_lem key [] a = refl
carry_lem key (pad ∷ pads) a = rw (xor_pad_twice key pad a) (carry_lem key pads a)

same_bytes_refl : (bs : List ℕ) → same_bytes bs bs ≡ true
unfolding same_bytes
same_bytes_refl [] = refl
same_bytes_refl (b ∷ bs) = ground (arith, same_bytes_refl bs)

length-take-le : (n : ℕ) (xs : List ℕ) → length (take n xs) ≤ n
length-take-le zero xs = omega arith
length-take-le (suc n) [] = omega arith
length-take-le (suc n) (x ∷ xs) = omega (arith, length-take-le n xs)

-- Whatever the pads of the hops are, the key that arrives is the key that was sent, byte by byte, the
-- relay is reported as recovered, and at most 16 hexadecimal digits of the key are kept.
pub relay_sample_recovers :
    (key : List ℕ) (pads : List (List ℕ))
    → AreBytes key
    → (carry key pads ≡ key)
      × ((relay_sample key pads).recovered_equals_sent ≡ true)
      × (length (relay_sample key pads).key_prefix ≤ 16)
unfolding relay_sample
relay_sample_recovers key pads a = (
  carry_lem key pads a,
  ap (λ c. same_bytes c key) (carry_lem key pads a) ∙ same_bytes_refl key,
  length-take-le 16 (to_hex key),
)
