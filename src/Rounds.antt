-- ===== src/Rounds.antt =====
-- One round of BB84, BBM92 or MDI-QKD, as the walk-through plays it, with the seeded draws
-- (services/webui-frontend/src/lib/sim/qkdRounds.ts). A draw in [0, 1) is a number of 2^32 parts of 1,
-- which is what `seededDraw` returns.
use pqc_qkd_hybrid_network.Base.{
  ℕ, zero, suc, ◌+◌, ◌*◌, ◌-◌, ◌/◌, ◌%◌, String, Bool, true, false, not, ◌&&◌, ◌||◌, Option, none,
  some, List, [], ◌∷◌, ltb, ◌==◌, if◌then◌else◌,
}
use pqc_qkd_hybrid_network.Lab.Relay.{xor_bits}
pub mod Keys
mod Tests

pub data RoundProtocol : Type 0 where
  bb84 bbm92 mdi : RoundProtocol

pub data Basis : Type 0 where
  rectilinear diagonal : Basis

pub data RelayResult : Type 0 where
  psi_minus psi_plus no_result : RelayResult

-- The parts of a round, in order.
abbrev pub round_parts : RoundProtocol → List String
round_parts bb84 =
    "Alice prepares a state" ∷ "The photon crosses the fibre" ∷ "Bob measures"
    ∷ "They compare bases" ∷ "Keep or discard" ∷ []
round_parts bbm92 =
    "The source emits a pair" ∷ "One photon goes each way" ∷ "Both measure" ∷ "They compare bases"
    ∷ "Keep or discard" ∷ []
round_parts mdi =
    "Alice and Bob each prepare" ∷ "The photons meet at the relay" ∷ "The relay announces"
    ∷ "They compare bases" ∷ "Bob flips, or not" ∷ "Keep or discard" ∷ []

-- A bit 1 is `true`.
pub record Prepared : Type 0 where
  pub basis : Basis
  pub bit : Bool

-- One constructor for each text of `why`.
pub data Why : Type 0 where
  no_relay_result bases_differ_at_relay bob_flips bob_keeps same_basis bases_differ : Why

pub record Round : Type 0 where
  pub protocol : RoundProtocol
  pub alice : Prepared
  pub bob : Prepared
  pub relay : Option RelayResult
  pub flip : Bool
  pub kept : Bool
  pub key : Option Bool
  pub why : Why

abbrev pub state_label : Basis → Bool → String
state_label rectilinear false = "H"
state_label rectilinear true = "V"
state_label diagonal false = "D"
state_label diagonal true = "A"

-- The probabilities of the outcomes in quarters.
pub record Outcomes : Type 0 where
  pub plus : ℕ
  pub minus : ℕ
  pub nothing : ℕ

abbrev pub same_bit : Bool → Bool → Bool
same_bit true b = b
same_bit false b = not b

abbrev pub are_same : Basis → Basis → Bool
are_same rectilinear rectilinear = true
are_same diagonal diagonal = true
are_same _ _ = false

abbrev pub is_rectilinear : Basis → Bool
is_rectilinear rectilinear = true
is_rectilinear diagonal = false

unfoldable pub mdi_outcomes : Basis → Bool → Basis → Bool → Outcomes
mdi_outcomes a a_bit b b_bit =
    if not (are_same a b)
    then record { plus = 1; minus = 1; nothing = 2 }
    else if is_rectilinear a
    then if same_bit a_bit b_bit
      then record { plus = 0; minus = 0; nothing = 4 }
      else record { plus = 2; minus = 2; nothing = 0 }
    else if same_bit a_bit b_bit
    then record { plus = 2; minus = 0; nothing = 2 }
    else record { plus = 0; minus = 2; nothing = 2 }

abbrev pub is_result : RelayResult → Bool
is_result no_result = false
is_result _ = true

abbrev pub is_minus : RelayResult → Bool
is_minus psi_minus = true
is_minus _ = false

-- Table I: a flip in the rectilinear basis, and in the diagonal one only on the minus state.
abbrev pub mdi_bob_flips : Basis → RelayResult → Bool
mdi_bob_flips basis relay = is_result relay && (is_rectilinear basis || is_minus relay)

-- A quarter and a half of the unit of a draw.
abbrev pub quarter : ℕ
quarter = 1073741824

abbrev pub half : ℕ
half = 2147483648

abbrev pub pick_basis : ℕ → Basis
pick_basis u = if ltb u half then rectilinear else diagonal

abbrev pub pick_bit : ℕ → Bool
pick_bit u = if ltb u half then false else true

-- The outcome that a draw picks.
unfoldable pub relay_of : Outcomes → ℕ → RelayResult
relay_of o u =
    if ltb u (o.minus * quarter)
    then psi_minus
    else if ltb u ((o.minus + o.plus) * quarter)
    then psi_plus
    else no_result

-- A round of MDI-QKD, from what the parties prepared and the answer of the relay.
unfoldable pub mdi_round : Prepared → Prepared → RelayResult → Round
mdi_round alice bob relay =
    let same = are_same alice.basis bob.basis in
    let kept = same && is_result relay in
    let flip = same && mdi_bob_flips alice.basis relay in
    record {
      protocol = mdi;
      alice = alice;
      bob = bob;
      relay = some relay;
      flip = flip;
      kept = kept;
      key = if kept then some alice.bit else none;
      why =
          if not (is_result relay)
          then no_relay_result
          else if not same
          then bases_differ_at_relay
          else if flip
          then bob_flips
          else bob_keeps;
    }

-- A round without a relay; a different basis gives Bob the bit of a draw.
unfoldable pub plain_round : RoundProtocol → Basis → Basis → Bool → Bool → Round
plain_round protocol a_basis b_basis a_bit coin =
    let same = are_same a_basis b_basis in
    record {
      protocol = protocol;
      alice = record { basis = a_basis; bit = a_bit };
      bob = record { basis = b_basis; bit = if same then a_bit else coin };
      relay = none;
      flip = false;
      kept = same;
      key = if same then some a_bit else none;
      why = if same then same_basis else bases_differ;
    }

-- `playRound`, of the draws in order.
unfoldable pub play_round : RoundProtocol → (ℕ → ℕ) → Round
unfolding mdi_round plain_round relay_of mdi_outcomes
play_round mdi draw =
    let alice : Prepared = record { basis = pick_basis (draw 0); bit = pick_bit (draw 2) } in
    let bob : Prepared = record { basis = pick_basis (draw 1); bit = pick_bit (draw 3) } in
    mdi_round alice bob (relay_of (mdi_outcomes alice.basis alice.bit bob.basis bob.bit) (draw 4))
play_round bb84 draw =
    plain_round bb84 (pick_basis (draw 0)) (pick_basis (draw 1)) (pick_bit (draw 2))
      (pick_bit (draw 3))
play_round bbm92 draw =
    plain_round bbm92 (pick_basis (draw 0)) (pick_basis (draw 1)) (pick_bit (draw 2))
      (pick_bit (draw 3))

-- Bob's bit after any flip.
abbrev pub bob_final_bit : Round → Bool
bob_final_bit r = if r.flip then not r.bob.bit else r.bob.bit

abbrev pub word : ℕ
word = 4294967296

-- `a | b` of numbers with `w` binary digits.
unfoldable pub or_bits : ℕ → ℕ → ℕ → ℕ
or_bits zero a b = 0
or_bits (suc w) a b = (if a % 2 + b % 2 == 0 then 0 else 1) + 2 * or_bits w (a / 2) (b / 2)

-- The state of `seededDraw` after a draw.
abbrev pub next_seed : ℕ → ℕ
next_seed a = (a + 1831565813) % word

-- What `seededDraw` returns of the new state, in parts of 2^32. Arithmetic on 32 bits, signed or not,
-- is that of the remainders of 2^32.
unfoldable pub seeded_draw : ℕ → ℕ
seeded_draw a =
    let t = xor_bits 32 a (a / 32768) * or_bits 32 a 1 % word in
    let t' = xor_bits 32 t ((t + xor_bits 32 t (t / 128) * or_bits 32 t 61 % word) % word) in
    xor_bits 32 t' (t' / 16384)
