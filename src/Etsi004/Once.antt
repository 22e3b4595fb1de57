-- ===== src/Etsi004/Once.antt =====
-- A chunk is read at most once on each side, and both sides read the same bytes (etsi004.ts).
use native.Mathlib.Nat.{sub-zero}
use pqc_qkd_hybrid_network.Base.{
  ℕ, ◌≡◌, refl, sym, ◌∙◌, subst, some_inj, ◌≢◌, inl, inr, String, true, false, Option, some, List,
  [], ◌∷◌, ◌++◌, All, get_elem?, arith, or_else, Option-cases,
}
use pqc_qkd_hybrid_network.Base.Dict.{lookup, lookup-insert_self}
use pqc_qkd_hybrid_network.Etsi004.Stream.{
  Side, side_a, side_b, other, at_side, pending_peer, closed, is_state, Stream, Chunk, has, add,
  t11, Env,
}
use pqc_qkd_hybrid_network.Etsi004.Open.{join_stream}
use pqc_qkd_hybrid_network.Etsi004.Read.{deliver, next_for, hand_out, read_at, read_open}
use pqc_qkd_hybrid_network.Etsi004.Km.{Km, get_key, close_stream}
use pqc_qkd_hybrid_network.Etsi004.Run.{Call, step, run}
use pqc_qkd_hybrid_network.Etsi004.Moves.{Move, create, join, extend, read, shut, step-Move}
use pqc_qkd_hybrid_network.Etsi004.Success.{read_at_cases, get_key_success}

has-append : (xs ys : List ℕ) (i : ℕ) → has xs i ≡ true → has (xs ++ ys) i ≡ true
has-append [] ys i h = cc
has-append (x ∷ xs) ys i h = ground (arith, has-append xs ys i)

has-add : (xs : List ℕ) (i j : ℕ) → has xs i ≡ true → has (add j xs) i ≡ true
unfolding add
has-add xs i j h = ground (arith, has-append xs (j ∷ []) i)

has-snoc_self : (xs : List ℕ) (i : ℕ) → has (xs ++ i ∷ []) i ≡ true
has-snoc_self [] i = ground arith
has-snoc_self (x ∷ xs) i = ground (arith, has-snoc_self xs i)

has-add_self : (xs : List ℕ) (i : ℕ) → has (add i xs) i ≡ true
unfolding add
has-add_self xs i = ground (arith, has-snoc_self xs i)

-- The index has been delivered to the side.
abbrev pub IsSpent : Side → ℕ → Stream → Type 0
IsSpent side i s = has (at_side side s.delivered) i ≡ true

deliver-IsSpent :
    (s : Stream) (side side' : Side) (i j : ℕ)
    → IsSpent side i s
    → IsSpent side i (deliver s side' j)
deliver-IsSpent s side_a side_a i j h = has-add s.delivered.on_a i j h
deliver-IsSpent s side_a side_b i j h = h
deliver-IsSpent s side_b side_a i j h = h
deliver-IsSpent s side_b side_b i j h = has-add s.delivered.on_b i j h

deliver-IsSpent_self : (s : Stream) (side : Side) (i : ℕ) → IsSpent side i (deliver s side i)
deliver-IsSpent_self s side_a i = has-add_self s.delivered.on_a i
deliver-IsSpent_self s side_b i = has-add_self s.delivered.on_b i

read_open-IsSpent :
    (env : Env) (s : Stream) (side side' : Side) (index : Option ℕ) (size i : ℕ)
    → IsSpent side i s
    → IsSpent side i (read_open env s side' index size).0
unfolding read_open
read_open-IsSpent env s side side' index size i h =
    elim (Option-cases (or_else index (next_for s side'))) [
      | inl out ↦ ground arith
      | inr (want, e) ↦ elim (read_at_cases env s side' want size) [
        | inl same ↦ ground arith
        | inr (c, _, done) ↦ ground (arith, deliver-IsSpent s side side' i want h)
      ]
    ]

join_stream-IsSpent :
    (s : Stream) (side side' : Side) (source destination k : String) (i : ℕ)
    → IsSpent side i s
    → IsSpent side i (join_stream s side' source destination k).0
unfolding join_stream
join_stream-IsSpent s side side' source destination k i h = ground arith

close_stream-IsSpent :
    (s : Stream) (side side' : Side) (i : ℕ)
    → IsSpent side i s
    → IsSpent side i (close_stream s side').0
unfolding close_stream
close_stream-IsSpent s side side' i h = ground arith

Move-IsSpent :
    {env : Env} {k : String} {before : Option Stream} {t : Stream} (side : Side) (i : ℕ)
    → Move env k before t
    → env.new_ksid ≢ k
    → ((s : Stream) → before ≡ some s → IsSpent side i s)
    → IsSpent side i t
Move-IsSpent side i (create _ _ _ _ own e) fresh h = absurd (fresh (sym own))
Move-IsSpent {k} side i (join s side' source destination b e) fresh h =
    rw e (join_stream-IsSpent s side side' source destination k i (h s b))
Move-IsSpent side i (extend s c b live e) fresh h = rw e (h s b)
Move-IsSpent {env} side i (read s side' index size b live e) fresh h =
    rw e (read_open-IsSpent env s side side' index size i (h s b))
Move-IsSpent side i (shut s side' b e) fresh h = rw e (close_stream-IsSpent s side side' i (h s b))

-- The index has been delivered to the side of the stream, if the stream is there.
abbrev pub IsSpentAt : Side → String → ℕ → Km → Type 0
IsSpentAt side k i m = (s : Stream) → lookup k m ≡ some s → IsSpent side i s

-- No call generates the Key_stream_ID anew.
abbrev pub AreFresh : String → List (Env × Call) → Type 0
AreFresh k cs = All (λ c. c.0.new_ksid ≢ k) cs

run-IsSpentAt :
    (side : Side) (k : String) (i : ℕ) (m : Km) (cs : List (Env × Call))
    → AreFresh k cs
    → IsSpentAt side k i m
    → IsSpentAt side k i (run m cs)
unfolding run
run-IsSpentAt side k i m [] fresh h = h
run-IsSpentAt side k i m (c ∷ cs) fresh h = run-IsSpentAt side k i (step m c) cs fresh.1 (λ t e.
    elim (step-Move m c k t e) [ inl old ↦ h t old | inr mv ↦ Move-IsSpent side i mv fresh.0 h ])

module _ (env : Env) (m : Km) (side : Side) (k : String) (index : Option ℕ) (size i : ℕ)
    (success : (get_key env m side k index size).1.transition ≡ t11)
    (at_i : (get_key env m side k index size).1.index ≡ some i) where
  -- The index is spent after the call,
  get_key-IsSpentAt : IsSpentAt side k i (get_key env m side k index size).0
  get_key-IsSpentAt u there =
      let (s, t, _, _, rd, after) = get_key_success env m side k index size success in
      let i_at : rd.at ≡ i = some_inj (sym rd.told ∙ at_i) in
      let t_u : t ≡ u = some_inj (sym (lookup-insert_self k t m) ∙ (rw after at there)) in
      subst (IsSpent side i) (sym rd.after ∙ t_u)
        (subst (λ j. IsSpent side i (deliver s side j)) (sym i_at) (deliver-IsSpent_self s side i))

  -- and was not before.
  not-IsSpentAt : ¬ IsSpentAt side k i m
  not-IsSpentAt spent =
      let (s, t, there, _, rd, after) = get_key_success env m side k index size success in
      let i_at : rd.at ≡ i = some_inj (sym rd.told ∙ at_i) in
      let unread : has (at_side side s.delivered) i ≡ false =
        subst (λ j. has (at_side side s.delivered) j ≡ false) i_at rd.unread in
      let used : IsSpent side i s = spent s there in cc

-- Once `getKey` has given the chunk at index `i` to a side, no later `getKey` of that side gives it
-- the chunk at `i` again: after any further calls that generate other Key_stream_IDs, and whether
-- the index is asked for or left to the key manager, a call that succeeds is at another index.
pub get_key_once :
    (env env' : Env) (m : Km) (side : Side) (k : String) (index index' : Option ℕ)
    (size size' i : ℕ) (cs : List (Env × Call))
    → (get_key env m side k index size).1.transition ≡ t11
    → (get_key env m side k index size).1.index ≡ some i
    → AreFresh k cs
    → (get_key env' (run (get_key env m side k index size).0 cs) side k index' size').1.transition
      ≡ t11
    → (get_key env' (run (get_key env m side k index size).0 cs) side k index' size').1.index
      ≢ some i
get_key_once env env' m side k index index' size size' i cs first at_i fresh again at_i' =
    not-IsSpentAt env' (run (get_key env m side k index size).0 cs) side k index' size' i again
      at_i'
      (run-IsSpentAt side k i (get_key env m side k index size).0 cs fresh
        (get_key-IsSpentAt env m side k index size i first at_i))

pub read_open_fresh :
    (env : Env) (s : Stream) (side : Side) (i : ℕ) (c : Chunk)
    → is_state s.state pending_peer ≡ false
    → env.route_up ≡ true
    → has (at_side side s.delivered) i ≡ false
    → get_elem? s.chunks i ≡ some c
    → ((read_open env s side (some i) 0).1.transition ≡ t11)
      × ((read_open env s side (some i) 0).1.index ≡ some i)
      × ((read_open env s side (some i) 0).1.key_buffer ≡ some c.bytes)
unfolding read_open read_at hand_out
read_open_fresh env s side i c peer up unread here = ground (arith, sub-zero i)

at_side-deliver-other :
    (s : Stream) (side : Side) (i : ℕ)
    → at_side (other side) (deliver s side i).delivered ≡ at_side (other side) s.delivered
at_side-deliver-other s side_a i = refl
at_side-deliver-other s side_b i = refl

-- `getKey` on a stream that is known and not closed.
pub get_key_known :
    (env : Env) (m : Km) (side : Side) (k : String) (index : Option ℕ) (size : ℕ) (s : Stream)
    → lookup k m ≡ some s
    → is_state s.state closed ≡ false
    → (get_key env m side k index size).1 ≡ (read_open env s side index size).1
unfolding get_key
get_key_known env m side k index size s e live = rw (e, get_key) (rw live)

-- When one side has read the chunk that the key manager chose or that it asked for, at index `i`,
-- and the peer then asks for `i`, which it has not read, in the same environment and without metadata
-- (a size of 0), the peer's `getKey` succeeds, at that index, with the same key bytes.
pub get_key_pair :
    (env : Env) (m : Km) (side : Side) (k : String) (index : Option ℕ) (size i : ℕ)
    → (get_key env m side k index size).1.transition ≡ t11
    → (get_key env m side k index size).1.index ≡ some i
    → ((s : Stream) → lookup k m ≡ some s → has (at_side (other side) s.delivered) i ≡ false)
    → let (m', r) = get_key env m side k index size in
      let r' = (get_key env m' (other side) k (some i) 0).1 in
      (r'.transition ≡ t11) × (r'.index ≡ some i) × (r'.key_buffer ≡ r.key_buffer)
get_key_pair env m side k index size i success at_i unread =
    let (s, t, there, live, rd, after) = get_key_success env m side k index size success in
    let m' = (get_key env m side k index size).0 in
    let i_at : rd.at ≡ i = some_inj (sym rd.told ∙ at_i) in
    let here : get_elem? s.chunks i ≡ some rd.chunk =
      subst (λ j. get_elem? s.chunks j ≡ some rd.chunk) i_at rd.here in
    let there' : lookup k m' ≡ some (deliver s side rd.at) =
      rw (after, rd.after) (lookup-insert_self k (deliver s side rd.at) m) in
    let r = get_key_known env m' (other side) k (some i) 0 (deliver s side rd.at) there' live in
    let (x, y, z) =
      read_open_fresh env (deliver s side rd.at) (other side) i rd.chunk rd.peer rd.route
        (rw (at_side-deliver-other s side rd.at) (unread s there)) here in
    rw (r, rd.handed) (x, y, z)
