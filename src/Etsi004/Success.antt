-- ===== src/Etsi004/Success.antt =====
-- What a `getKey` of etsi004.ts does to the stream, and what it means that it succeeds.
use native.Mathlib.Nat.{sub-zero}
use pqc_qkd_hybrid_network.Base.{
  ℕ, ◌-◌, ◌≡◌, refl, ◌⊎◌, inl, inr, String, true, false, Option, some, get_elem?, arith, ltb, ◌&&◌,
  Bool-cases, Option-cases, or_else,
}
use pqc_qkd_hybrid_network.Base.Dict.{lookup, insert}
use pqc_qkd_hybrid_network.Etsi004.Stream.{
  Side, at_side, pending_peer, closed, is_state, Stream, Chunk, has, t11, CallResult, Env,
}
use pqc_qkd_hybrid_network.Etsi004.Read.{
  deliver, encoded_length, next_for, hand_out, read_at, read_open,
}
use pqc_qkd_hybrid_network.Etsi004.Km.{Km, get_key}

-- What `hand_out` does to the stream: nothing, or the delivery of the index.
pub hand_out_cases :
    (env : Env) (s : Stream) (side : Side) (want size : ℕ) (c : Chunk)
    → ((hand_out env s side want size c).0 ≡ s)
      ⊎ ((hand_out env s side want size c).0 ≡ deliver s side want)
unfolding hand_out
hand_out_cases env s side want size c =
    elim (Bool-cases (
      ltb 0 size
      && ltb size (encoded_length (record { age = env.now - c.available_at; hops = c.hops })))) [
        | inl small ↦ inl (rw small)
        | inr fits ↦ inr (rw fits)
      ]

-- What `read_at` does to the stream.
pub read_at_cases :
    (env : Env) (s : Stream) (side : Side) (want size : ℕ)
    → ((read_at env s side want size).0 ≡ s)
      ⊎ ((c : Chunk) × (get_elem? s.chunks want ≡ some c)
          × ((read_at env s side want size).0 ≡ deliver s side want))
unfolding read_at
read_at_cases env s side want size = elim (Bool-cases (has (at_side side s.delivered) want)) [
  | inl old ↦ inl (rw old)
  | inr new ↦ elim (Option-cases (get_elem? s.chunks want)) [
    | inl out ↦ inl (rw (new, sub-zero want, out, read_at))
    | inr (c, here) ↦
        rw (new, sub-zero want, here, read_at)
          (elim (hand_out_cases env s side want size c) [
            | inl same ↦ inl same
            | inr done ↦ inr (c, refl, done)
          ])
  ]
]

-- A read that succeeds: the chunk that is handed out, and what the read requires and changes.
pub record IsRead (env : Env) (s : Stream) (side : Side) (index : Option ℕ) (t : Stream)
    (r : CallResult) : Type 0 where
  pub at : ℕ
  pub chunk : Chunk
  pub wanted : or_else index (next_for s side) ≡ some at
  pub unread : has (at_side side s.delivered) at ≡ false
  pub here : get_elem? s.chunks at ≡ some chunk
  pub peer : is_state s.state pending_peer ≡ false
  pub route : env.route_up ≡ true
  pub told : r.index ≡ some at
  pub handed : r.key_buffer ≡ some chunk.bytes
  pub after : t ≡ deliver s side at

hand_out_success :
    (env : Env) (s : Stream) (side : Side) (want size : ℕ) (c : Chunk)
    → (hand_out env s side want size c).1.transition ≡ t11
    → ((hand_out env s side want size c).1.index ≡ some want)
      × ((hand_out env s side want size c).1.key_buffer ≡ some c.bytes)
      × ((hand_out env s side want size c).0 ≡ deliver s side want)
unfolding hand_out
hand_out_success env s side want size c h = ground arith

read_at_success :
    (env : Env) (s : Stream) (side : Side) (want size : ℕ)
    → (read_at env s side want size).1.transition ≡ t11
    → (has (at_side side s.delivered) want ≡ false)
      × ((c : Chunk) × (get_elem? s.chunks want ≡ some c)
          × ((read_at env s side want size).1.key_buffer ≡ some c.bytes))
      × ((read_at env s side want size).1.index ≡ some want)
      × ((read_at env s side want size).0 ≡ deliver s side want)
unfolding read_at
read_at_success env s side want size h = elim (Bool-cases (has (at_side side s.delivered) want)) [
  | inl old ↦ absurd (ground arith)
  | inr new ↦ elim (Option-cases (get_elem? s.chunks want)) [
    | inl out ↦ absurd (ground (arith, sub-zero want))
    | inr (c, here) ↦
        let p = hand_out_success env s side want size c (ground (arith, sub-zero want)) in
        (
          new,
          (c, here, ground (arith, sub-zero want)),
          ground (arith, sub-zero want),
          ground (arith, sub-zero want),
        )
  ]
]

read_open_success :
    (env : Env) (s : Stream) (side : Side) (index : Option ℕ) (size : ℕ)
    → (read_open env s side index size).1.transition ≡ t11
    → IsRead env s side index
        (read_open env s side index size).0
        (read_open env s side index size).1
unfolding read_open
read_open_success env s side index size h = elim (Option-cases (or_else index (next_for s side))) [
  | inl out ↦ absurd (ground arith)
  | inr (want, e) ↦
      let p = read_at_success env s side want size (ground arith) in
      record {
        at = want;
        chunk = p.1.0;
        wanted = e;
        unread = p.0;
        here = p.1.1;
        peer = ground arith;
        route = ground arith;
        told = ground arith;
        handed = ground arith;
        after = ground arith;
      }
]

-- A `getKey` that succeeds is a successful read of a stream that is known and not closed.
pub get_key_success :
    (env : Env) (m : Km) (side : Side) (k : String) (index : Option ℕ) (size : ℕ)
    → (get_key env m side k index size).1.transition ≡ t11
    → (s : Stream) × (t : Stream) × (lookup k m ≡ some s)
      × (is_state s.state closed ≡ false)
      × IsRead env s side index t (get_key env m side k index size).1
      × ((get_key env m side k index size).0 ≡ insert k t m)
unfolding get_key
get_key_success env m side k index size h = elim (Option-cases (lookup k m)) [
  | inl out ↦ absurd (ground arith)
  | inr (s, e) ↦ elim (Bool-cases (is_state s.state closed)) [
    | inl over ↦ absurd (ground arith)
    | inr live ↦ (
      s,
      (read_open env s side index size).0,
      e,
      live,
      rw (e, get_key) (rw live (read_open_success env s side index size (ground arith))),
      ground arith,
    )
  ]
]
