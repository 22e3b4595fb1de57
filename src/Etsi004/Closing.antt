-- ===== src/Etsi004/Closing.antt =====
-- The end of a stream (etsi004.ts): what two closes do, and that a closed stream stays closed.
use pqc_qkd_hybrid_network.Base.{
  ℕ, ◌≡◌, refl, sym, ◌≢◌, inl, inr, String, Option, some, none, List, [], ◌∷◌, arith, Option-cases,
}
use pqc_qkd_hybrid_network.Base.Dict.{lookup, lookup-insert_self, insert-lookup}
use pqc_qkd_hybrid_network.Etsi004.Spec.{status_code, ksid_in_use}
use pqc_qkd_hybrid_network.Etsi004.Stream.{
  Side, other, Qos, closed, Stream, t5, t17, t20, not_found, unknown_or_closed, Env,
}
use pqc_qkd_hybrid_network.Etsi004.Open.{join_stream}
use pqc_qkd_hybrid_network.Etsi004.Km.{Km, open_connect, supply, get_key, close_stream, close}
use pqc_qkd_hybrid_network.Etsi004.Run.{Call, step, run}
use pqc_qkd_hybrid_network.Etsi004.Moves.{Move, create, join, extend, read, shut, step-Move}
use pqc_qkd_hybrid_network.Etsi004.Once.{AreFresh}

join_stream_closed :
    (s : Stream) (side : Side) (source destination k : String)
    → s.state ≡ closed
    → ((join_stream s side source destination k).0 ≡ s)
      × ((join_stream s side source destination k).1.status ≡ status_code ksid_in_use)
      × ((join_stream s side source destination k).1.transition ≢ t5)
unfolding join_stream
join_stream_closed s side source destination k h = ground arith

-- The stream under the key, if it is there, is closed.
abbrev pub IsClosedAt : String → Km → Type 0
IsClosedAt k m = (s : Stream) → lookup k m ≡ some s → s.state ≡ closed

Move-closed :
    {env : Env} {k : String} {before : Option Stream} {t : Stream}
    → Move env k before t
    → env.new_ksid ≢ k
    → ((s : Stream) → before ≡ some s → s.state ≡ closed)
    → t.state ≡ closed
unfolding close_stream
Move-closed (create _ _ _ _ own e) fresh h = absurd (fresh (sym own))
Move-closed {k} (join s side source destination b e) fresh h =
    ground (arith, h s b, join_stream_closed s side source destination k)
Move-closed (extend s c b live e) fresh h = ground (arith, h s b)
Move-closed (read s side index size b live e) fresh h = ground (arith, h s b)
Move-closed (shut s side b e) fresh h = ground (arith, h s b)

run-IsClosedAt :
    (k : String) (m : Km) (cs : List (Env × Call))
    → AreFresh k cs
    → IsClosedAt k m
    → IsClosedAt k (run m cs)
unfolding run
run-IsClosedAt k m [] fresh h = h
run-IsClosedAt k m (c ∷ cs) fresh h =
    run-IsClosedAt k (step m c) cs fresh.1
      (λ t e. elim (step-Move m c k t e) [ inl old ↦ h t old | inr mv ↦ Move-closed mv fresh.0 h ])

-- The second side's close: T17 is taken exactly when the stream is closed by it.
close-IsClosedAt :
    (m : Km) (side : Side) (k : String)
    → (close m side k).1.transition ≡ t17
    → IsClosedAt k (close m side k).0
unfolding close close_stream
close-IsClosedAt m side k h t e = elim (Option-cases (lookup k m)) [
  | inl out ↦ absurd (ground arith)
  | inr (s, there) ↦ ground (arith, lookup-insert_self k (close_stream s side).0 m)
]

-- What a closed stream answers: nothing is read from it, supplied to it or opened on it.
pub record IsOver (m : Km) (k : String) : Type 0 where
  pub reads :
      (env : Env) (side : Side) (index : Option ℕ) (size : ℕ)
      → get_key env m side k index size ≡ (m, not_found unknown_or_closed)
  pub supplies : (env : Env) (bytes : List ℕ) (hops : ℕ) → supply env m k bytes hops ≡ (m, none)
  pub opens :
      (env : Env) (side : Side) (source destination : String) (qos : Qos)
      → ((open_connect env m side source destination qos (some k)).0 ≡ m)
        × ((open_connect env m side source destination qos (some k)).1.transition ≢ t5)
  pub closes : (side : Side) → ((close m side k).0 ≡ m) × ((close m side k).1.transition ≡ t20)

module _ (m : Km) (k : String) (h : IsClosedAt k m) where
  no_read :
      (env : Env) (side : Side) (index : Option ℕ) (size : ℕ)
      → get_key env m side k index size ≡ (m, not_found unknown_or_closed)
  unfolding get_key
  no_read env side index size = elim (Option-cases (lookup k m)) [
    | inl out ↦ rw (out, get_key)
    | inr (s, there) ↦ ground (arith, h s there)
  ]

  no_supply : (env : Env) (bytes : List ℕ) (hops : ℕ) → supply env m k bytes hops ≡ (m, none)
  unfolding supply
  no_supply env bytes hops = elim (Option-cases (lookup k m)) [
    | inl out ↦ rw (out, supply)
    | inr (s, there) ↦ ground (arith, h s there)
  ]

  no_open :
      (env : Env) (side : Side) (source destination : String) (qos : Qos)
      → ((open_connect env m side source destination qos (some k)).0 ≡ m)
        × ((open_connect env m side source destination qos (some k)).1.transition ≢ t5)
  unfolding open_connect
  no_open env side source destination qos = elim (Option-cases (lookup k m)) [
    | inl out ↦ rw (out, open_connect) (refl, λ e. cc)
    | inr (s, there) ↦
        let (same, _, other) = join_stream_closed s side source destination k (h s there) in
        rw (there, open_connect) (rw same (insert-lookup k s m there), other)
  ]

  no_close : (side : Side) → ((close m side k).0 ≡ m) × ((close m side k).1.transition ≡ t20)
  unfolding close close_stream
  no_close side = elim (Option-cases (lookup k m)) [
    | inl out ↦ rw (out, close) (refl, refl)
    | inr (s, there) ↦ ground (arith, h s there, insert-lookup k s m there)
  ]

  IsClosedAt-IsOver : IsOver m k
  IsClosedAt-IsOver = record {
    reads = no_read;
    supplies = no_supply;
    opens = no_open;
    closes = no_close;
  }

-- When a side's `close` takes T17, the stream is over for good: after any further calls that generate
-- other Key_stream_IDs, `getKey` answers HTTP 404, `supply` refuses, `openConnect` of the same
-- Key_stream_ID never joins it and `close` takes T20, and none of them changes the key manager.
pub close_final :
    (m : Km) (side : Side) (k : String) (cs : List (Env × Call))
    → (close m side k).1.transition ≡ t17
    → AreFresh k cs
    → IsOver (run (close m side k).0 cs) k
close_final m side k cs h fresh =
    IsClosedAt-IsOver (run (close m side k).0 cs) k
      (run-IsClosedAt k (close m side k).0 cs fresh (close-IsClosedAt m side k h))
