-- ===== src/Etsi004/Supply.antt =====
-- Chunks that wait to be read (etsi004.ts): `undelivered` counts them, and a `getKey` that leaves the
-- index to the key manager succeeds exactly when there is one.
use native.Mathlib.Decide.{dec_lt}
use pqc_qkd_hybrid_network.Base.{
  ℕ, zero, suc, ◌-◌, ◌≡◌, sym, subst, ◌∙◌, ◌≤◌, ◌<◌, ◌↔◌, inl, inr, String, true, false, some, none,
  List, [], ◌∷◌, All, ◌==◌, arith, Bool-cases, length, get_elem?-some_lt, get_elem?_lt_some,
}
use pqc_qkd_hybrid_network.Base.Dict.{lookup}
use pqc_qkd_hybrid_network.Base.Int.{pos, sub_ℕ}
use pqc_qkd_hybrid_network.Etsi004.Stream.{
  Side, side_a, side_b, at_side, established, closed, is_state, Stream, has, t11, Env,
}
use pqc_qkd_hybrid_network.Etsi004.Read.{next_for, read_open}
use pqc_qkd_hybrid_network.Etsi004.Km.{Km, undelivered, get_key}
use pqc_qkd_hybrid_network.Etsi004.Next.{
  le-length_of_covered, next_for_least, without, length-without,
}
use pqc_qkd_hybrid_network.Etsi004.Invariant.{IsDistinct, IsDelivered, IsValid, IsKmValid}
use pqc_qkd_hybrid_network.Etsi004.Success.{get_key_success}
use pqc_qkd_hybrid_network.Etsi004.Once.{get_key_known, read_open_fresh}

IsDistinct-has-without : (a b : ℕ) (xs : List ℕ) → has xs b ≡ false → has (without a xs) b ≡ false
IsDistinct-has-without a b [] h = h
IsDistinct-has-without a b (x ∷ xs) h = ground (arith, IsDistinct-has-without a b xs)

IsDistinct-without : (a : ℕ) (xs : List ℕ) → IsDistinct xs → IsDistinct (without a xs)
IsDistinct-without a [] d = tt
IsDistinct-without a (x ∷ xs) d =
    ground (arith, IsDistinct-without a xs, IsDistinct-has-without a x xs)

below_absent :
    (n : ℕ) (xs : List ℕ) → has xs n ≡ false → All (λ i. i < suc n) xs → All (λ i. i < n) xs
below_absent n [] h b = tt
below_absent n (x ∷ xs) h b = (ground arith, below_absent n xs (ground arith) b.1)

below-without_last :
    (n : ℕ) (xs : List ℕ)
    → IsDistinct xs
    → All (λ i. i < suc n) xs
    → All (λ i. i < n) (without n xs)
below-without_last n [] d b = tt
below-without_last n (x ∷ xs) d b = elim (Bool-cases (x == n)) [
  | inl top ↦
      let e : x ≡ n = ground arith in
      rw top (below_absent n xs (subst (λ k. has xs k ≡ false) e d.0) b.1)
  | inr low ↦ rw low (ground arith, below-without_last n xs d.1 b.1)
]

-- Distinct numbers below n are n at most.
length-le_of_below : (n : ℕ) (xs : List ℕ) → IsDistinct xs → All (λ i. i < n) xs → length xs ≤ n
length-le_of_below zero [] d b = omega arith
length-le_of_below zero (x ∷ xs) d b = absurd (omega arith)
length-le_of_below (suc n) xs d b = elim (Bool-cases (has xs n)) [
  | inl top ↦ omega (
    arith,
    length-without n xs top,
    length-le_of_below n (without n xs) (IsDistinct-without n xs d) (below-without_last n xs d b),
  )
  | inr low ↦ omega (arith, length-le_of_below n xs d (below_absent n xs low b))
]

-- The count of delivered chunks is at most that of chunks.
delivered-le :
    (s : Stream) (side : Side)
    → is_state s.state closed ≡ false
    → IsValid s
    → IsDelivered (length s.chunks) (at_side side s.delivered)
delivered-le s side_a live v = ground arith
delivered-le s side_b live v = ground arith

pub undelivered_known :
    (m : Km) (k : String) (side : Side) (s : Stream)
    → lookup k m ≡ some s
    → undelivered m k side ≡ sub_ℕ (length s.chunks) (length (at_side side s.delivered))
unfolding undelivered
undelivered_known m k side s e = rw (e, undelivered)

sub_ℕ-eq-suc : (a b n : ℕ) → sub_ℕ a b ≡ pos (suc n) → b < a
sub_ℕ-eq-suc a b n h = ground arith

-- Room for one more index that is not delivered.
unread_count :
    (n i : ℕ) (ds : List ℕ) → IsDelivered n ds → has ds i ≡ false → i < n → suc (length ds) ≤ n
unread_count n i ds d unread lt = length-le_of_below n (i ∷ ds) (unread, d.distinct) (lt, d.below)

sub_ℕ-pos : (a b : ℕ) → b < a → sub_ℕ a b ≡ pos (suc (a - b - 1))
sub_ℕ-pos a b h = ground arith

-- Leaving the index to the key manager is asking for the next one.
pub read_open_next :
    (env : Env) (s : Stream) (side : Side) (size i : ℕ)
    → next_for s side ≡ some i
    → read_open env s side none size ≡ read_open env s side (some i) size
unfolding read_open
read_open_next env s side size i e = rw (e, read_open)

pub next-lt-length :
    (s : Stream) (side : Side) (i : ℕ)
    → ((k : ℕ) → k < i → has (at_side side s.delivered) k ≡ true)
    → length (at_side side s.delivered) < length s.chunks
    → i < length s.chunks
next-lt-length s side i covered lt = elim (dec_lt i (length s.chunks)) [
  | yes h ↦ h
  | no h ↦ absurd (
      omega (
        arith,
        le-length_of_covered (length s.chunks) (at_side side s.delivered)
            (λ k below. covered k (omega arith)),
      ))
]

unread-get_key :
    (env : Env) (m : Km) (side : Side) (k : String) (s : Stream)
    → lookup k m ≡ some s
    → s.state ≡ established
    → env.route_up ≡ true
    → length (at_side side s.delivered) < length s.chunks
    → (get_key env m side k none 0).1.transition ≡ t11
unread-get_key env m side k s there live up lt =
    let (i, e, unread, covered) = next_for_least s side in
    let (c, here) = get_elem?_lt_some s.chunks i (next-lt-length s side i covered lt) in
    rw (get_key_known env m side k none 0 s there (ground arith), read_open_next env s side 0 i e)
      (read_open_fresh env s side i c (ground arith) up unread here).0

get_key-undelivered :
    (env : Env) (m : Km) (side : Side) (k : String)
    → IsKmValid m
    → (get_key env m side k none 0).1.transition ≡ t11
    → (n : ℕ) × (undelivered m k side ≡ pos (suc n))
get_key-undelivered env m side k v h =
    let (s, _, there, live, rd, _) = get_key_success env m side k none 0 h in
    let ds = at_side side s.delivered in
    let lt =
      unread_count (length s.chunks) rd.at ds (delivered-le s side live (v k s there)) rd.unread
        (get_elem?-some_lt s.chunks rd.at rd.chunk rd.here) in
    (
      length s.chunks - length ds - 1,
      rw (undelivered_known m k side s there) (sub_ℕ-pos (length s.chunks) (length ds) lt),
    )

-- For a valid stream that both sides have opened and that has a route, `getKey` with a null index
-- and no metadata succeeds for a side exactly when `undelivered` is positive for that side.
pub get_key_iff_undelivered :
    (env : Env) (m : Km) (side : Side) (k : String) (s : Stream)
    → IsKmValid m
    → lookup k m ≡ some s
    → s.state ≡ established
    → env.route_up ≡ true
    → ((get_key env m side k none 0).1.transition ≡ t11)
      ↔ ((n : ℕ) × (undelivered m k side ≡ pos (suc n)))
get_key_iff_undelivered env m side k s v there live up = (
  get_key-undelivered env m side k v,
  λ p. unread-get_key env m side k s there live up (
      sub_ℕ-eq-suc (length s.chunks) (length (at_side side s.delivered)) p.0
        (sym (undelivered_known m k side s there) ∙ p.1)),
)
