-- ===== src/Lab/Served.antt =====
-- The loop of `consumeStream` of the protocol lab (protocolLabSim.ts) serves every request for which the
-- stream holds a chunk, on both sides and in step.
use native.Mathlib.Nat.{sub-zero}
use pqc_qkd_hybrid_network.Base.{
  ℕ, zero, suc, ◌+◌, ◌≤◌, ◌<◌, ◌≡◌, refl, sym, ap, subst, ◌∙◌, String, true, false, Option, none,
  some, List, length, get_elem?, get_elem?_lt_some, or_else, arith,
}
use pqc_qkd_hybrid_network.Base.Dict.{lookup, insert, lookup-insert_self}
use pqc_qkd_hybrid_network.Etsi004.Spec.{status_code, successful}
use pqc_qkd_hybrid_network.Etsi004.Stream.{
  Side, side_a, side_b, at_side, established, closed, StreamState, is_state, Stream, Chunk, has,
  add, t11, CallResult, Env, plain,
}
use pqc_qkd_hybrid_network.Etsi004.Read.{next_for, deliver, hand_out, read_at, read_open}
use pqc_qkd_hybrid_network.Etsi004.Km.{Km, get_key}
use pqc_qkd_hybrid_network.Etsi004.Next.{next_for_least}
use pqc_qkd_hybrid_network.Etsi004.Supply.{next-lt-length}
use pqc_qkd_hybrid_network.Lab.Traces.{length-snoc}
use pqc_qkd_hybrid_network.Lab.Wording.{is_status}
use pqc_qkd_hybrid_network.Lab.Consume.{Reads, one_read, read_loop}

-- The result of a read of a chunk, without metadata.
abbrev handed : ℕ → Chunk → CallResult
handed i c = record (plain (status_code successful) t11) {
  index = some i;
  key_buffer = some c.bytes;
}

read_open_handed :
    (env : Env) (s : Stream) (side : Side) (index : Option ℕ) (i : ℕ) (c : Chunk)
    → s.state ≡ established
    → env.route_up ≡ true
    → or_else index (next_for s side) ≡ some i
    → has (at_side side s.delivered) i ≡ false
    → get_elem? s.chunks i ≡ some c
    → read_open env s side index 0 ≡ (deliver s side i, handed i c)
unfolding read_open read_at hand_out
read_open_handed env s side index i c live up want unread here = ground (arith, sub-zero i)

get_key_handed :
    (env : Env) (m : Km) (side : Side) (k : String) (index : Option ℕ) (s : Stream) (i : ℕ)
    (c : Chunk)
    → lookup k m ≡ some s
    → s.state ≡ established
    → env.route_up ≡ true
    → or_else index (next_for s side) ≡ some i
    → has (at_side side s.delivered) i ≡ false
    → get_elem? s.chunks i ≡ some c
    → get_key env m side k index 0 ≡ (insert k (deliver s side i) m, handed i c)
unfolding get_key
get_key_handed env m side k index s i c there live up want unread here =
    let read = read_open_handed env s side index i c live up want unread here in
    rw (there, get_key) (rw (not_closed s.state live, read) refl)
  where
    not_closed : (st : StreamState) → st ≡ established → is_state st closed ≡ false
    not_closed st e = rw e refl

-- Both sides have read the same chunks in the same order, on an open stream with a route.
pub record IsInStep (k : String) (m : Km) (s : Stream) : Type 0 where
  pub there : lookup k m ≡ some s
  pub live : s.state ≡ established
  pub in_step : s.delivered.on_b ≡ s.delivered.on_a

abbrev pub both_read : ℕ → Stream → Stream
both_read i s = deliver (deliver s side_a i) side_b i

length-add : (i : ℕ) (xs : List ℕ) → has xs i ≡ false → length (add i xs) ≡ suc (length xs)
unfolding add
length-add i xs new = rw new (length-snoc xs i)

module _ (env : Env) (k : String) (up : env.route_up ≡ true) where
  -- One round: the next chunk, on both sides.
  read_round :
      (n : ℕ) (m : Km) (s : Stream)
      → IsInStep k m s
      → length s.delivered.on_a < length s.chunks
      → (i : ℕ) × (m' : Km) × (read_loop (suc n) env k m ≡ one_read (some i) (read_loop n env k m'))
        × (has s.delivered.on_a i ≡ false)
        × IsInStep k m' (both_read i s)
  unfolding read_loop is_status
  read_round n m s h lt =
      let (i, e, unread, covered) = next_for_least s side_a in
      let (c, here) = get_elem?_lt_some s.chunks i (next-lt-length s side_a i covered lt) in
      let ma = insert k (deliver s side_a i) m in
      let mb = insert k (both_read i s) ma in
      let a = get_key_handed env m side_a k none s i c h.there h.live up e unread here in
      let b =
        get_key_handed env ma side_b k (some i) (deliver s side_a i) i c (lookup-insert_self k _ m)
          h.live up refl (ap (λ xs. has xs i) h.in_step ∙ unread) here in
      (
        i,
        mb,
        rw (a, b) refl,
        unread,
        record { there = lookup-insert_self k _ ma; live = h.live; in_step = ap (add i) h.in_step },
      )

  -- What the loop leaves of requests that the stream can serve.
  pub record IsServed (n : ℕ) (s : Stream) (r : Reads) : Type 0 where
    pub all_served : r.served ≡ n
    pub none_failed : r.failed ≡ none
    pub after : Stream
    pub in_step : IsInStep k r.km after
    pub kept : after.chunks ≡ s.chunks
    pub read : length after.delivered.on_a ≡ length s.delivered.on_a + n

  -- While the stream holds a chunk for each request, the loop serves them all, fails none, and leaves
  -- both sides with the same chunks read.
  pub read_loop-IsServed :
      (n : ℕ) (m : Km) (s : Stream)
      → IsInStep k m s
      → length s.delivered.on_a + n ≤ length s.chunks
      → IsServed n s (read_loop n env k m)
  unfolding read_loop
  read_loop-IsServed zero m s h le = record {
    all_served = refl;
    none_failed = refl;
    after = s;
    in_step = h;
    kept = refl;
    read = omega arith;
  }
  read_loop-IsServed (suc n) m s h le =
      let (i, m', e, unread, next) = read_round n m s h (omega arith) in
      let grown = length-add i s.delivered.on_a unread in
      let rest = read_loop-IsServed n m' (both_read i s) next (omega (arith, grown)) in
      subst (IsServed (suc n) s) (sym e) (record {
        all_served = ap suc rest.all_served;
        none_failed = rest.none_failed;
        after = rest.after;
        in_step = rest.in_step;
        kept = rest.kept;
        read = omega (arith, grown, rest.read);
      })
