-- ===== src/Etsi004/Moves.antt =====
-- What a call of `Km004` (etsi004.ts) can do to one stream, as a step relation, and the theorem that
-- a call does nothing else.
use pqc_qkd_hybrid_network.Base.{
  ℕ, ◌≡◌, refl, subst, some_inj, ◌⊎◌, inl, inr, String, false, Option, none, some, List, [], ◌∷◌,
  ◌++◌, arith, str_eq, Bool-cases, Option-cases, eq_iff,
}
use pqc_qkd_hybrid_network.Base.Dict.{lookup, insert, lookup-insert}
use pqc_qkd_hybrid_network.Etsi004.Stream.{
  Side, Qos, established, closed, is_state, Stream, Chunk, Env,
}
use pqc_qkd_hybrid_network.Etsi004.Open.{join_stream, new_stream, counter_qos, unmet}
use pqc_qkd_hybrid_network.Etsi004.Read.{read_open}
use pqc_qkd_hybrid_network.Etsi004.Km.{
  Km, open_new, open_connect, supply, get_key, close_stream, close, clear,
}
use pqc_qkd_hybrid_network.Etsi004.Run.{Call, opens, supplies, gets, closes, clears, step}

-- From the stream that a key has, if any, to the one that the call leaves there.
pub data Move (env : Env) (k : String) (before : Option Stream) (t : Stream) : Type 0 where
  create :
      (side : Side) (source destination : String) (qos : Qos)
      → k ≡ env.new_ksid
      → t ≡ new_stream env side source destination qos
      → Move env k before t
  join :
      (s : Stream) (side : Side) (source destination : String)
      → before ≡ some s
      → t ≡ (join_stream s side source destination k).0
      → Move env k before t
  extend :
      (s : Stream) (c : Chunk)
      → before ≡ some s
      → s.state ≡ established
      → t ≡ record s { chunks = s.chunks ++ c ∷ [] }
      → Move env k before t
  read :
      (s : Stream) (side : Side) (index : Option ℕ) (size : ℕ)
      → before ≡ some s
      → is_state s.state closed ≡ false
      → t ≡ (read_open env s side index size).0
      → Move env k before t
  shut :
      (s : Stream) (side : Side)
      → before ≡ some s
      → t ≡ (close_stream s side).0
      → Move env k before t

-- What a call does to the whole map.
data Effect (env : Env) (m n : Km) : Type 0 where
  same : n ≡ m → Effect env m n
  wiped : n ≡ [] → Effect env m n
  moved : (k : String) (t : Stream) → Move env k (lookup k m) t → n ≡ insert k t m → Effect env m n

open_new-Effect :
    (env : Env) (m : Km) (side : Side) (source destination : String) (qos : Qos)
    → Effect env m (open_new env m side source destination qos).0
unfolding open_new
open_new-Effect env m side source destination qos = elim (Bool-cases env.route_up) [
  | inl up ↦ elim (Option-cases (unmet env qos)) [
    | inl met ↦
        moved env.new_ksid _ (create side source destination (counter_qos env qos) refl refl)
          (ground arith)
    | inr (d, e) ↦ same (ground arith)
  ]
  | inr down ↦ same (rw down)
]

open_connect-Effect :
    (env : Env) (m : Km) (side : Side) (source destination : String) (qos : Qos)
    (ksid : Option String)
    → Effect env m (open_connect env m side source destination qos ksid).0
unfolding open_connect
open_connect-Effect env m side source destination qos none =
    open_new-Effect env m side source destination qos
open_connect-Effect env m side source destination qos (some k) = elim (Option-cases (lookup k m)) [
  | inl out ↦ same (rw (out, open_connect))
  | inr (s, e) ↦ moved k _ (join s side source destination e refl) (rw (e, open_connect))
]

supply-Effect :
    (env : Env) (m : Km) (k : String) (bytes : List ℕ) (hops : ℕ)
    → Effect env m (supply env m k bytes hops).0
unfolding supply
supply-Effect env m k bytes hops = elim (Option-cases (lookup k m)) [
  | inl out ↦ same (rw (out, supply))
  | inr (s, e) ↦ elim (Bool-cases (is_state s.state established)) [
    | inl live ↦
        moved k _
          (extend s (record { bytes = bytes; available_at = env.now; hops = hops }) e (ground arith)
            refl)
          (ground arith)
    | inr idle ↦ same (ground arith)
  ]
]

get_key-Effect :
    (env : Env) (m : Km) (side : Side) (k : String) (index : Option ℕ) (size : ℕ)
    → Effect env m (get_key env m side k index size).0
unfolding get_key
get_key-Effect env m side k index size = elim (Option-cases (lookup k m)) [
  | inl out ↦ same (rw (out, get_key))
  | inr (s, e) ↦ elim (Bool-cases (is_state s.state closed)) [
    | inl over ↦ same (ground arith)
    | inr live ↦ moved k _ (read s side index size e live refl) (ground arith)
  ]
]

close-Effect : (env : Env) (m : Km) (side : Side) (k : String) → Effect env m (close m side k).0
unfolding close
close-Effect env m side k = elim (Option-cases (lookup k m)) [
  | inl out ↦ same (rw (out, close))
  | inr (s, e) ↦ moved k _ (shut s side e refl) (rw (e, close))
]

step-Effect : (m : Km) (c : Env × Call) → Effect c.0 m (step m c)
unfolding step clear
step-Effect m (env, opens side source destination qos ksid) =
    open_connect-Effect env m side source destination qos ksid
step-Effect m (env, supplies k bytes hops) = supply-Effect env m k bytes hops
step-Effect m (env, gets side k index size) = get_key-Effect env m side k index size
step-Effect m (env, closes side k) = close-Effect env m side k
step-Effect m (env, clears) = wiped refl

insert-Move :
    (env : Env) (m : Km) (k j : String) (s t : Stream)
    → Move env k (lookup k m) s
    → lookup j (insert k s m) ≡ some t
    → (lookup j m ≡ some t) ⊎ Move env j (lookup j m) t
insert-Move env m k j s t mv e = elim (Bool-cases (str_eq k j)) [
  | inl hit ↦ inr (
      subst (λ i. Move env i (lookup i m) t) ((eq_iff k j).0 hit)
        (subst (λ u. Move env k (lookup k m) u) (some_inj (rw (lookup-insert m k j s, hit) at e))
          mv))
  | inr miss ↦ inl (rw (lookup-insert m k j s, miss) at e)
]

-- A stream that stands after a call stood there before, or came about by a move.
pub step-Move :
    (m : Km) (c : Env × Call) (j : String) (t : Stream)
    → lookup j (step m c) ≡ some t
    → (lookup j m ≡ some t) ⊎ Move c.0 j (lookup j m) t
unfolding lookup
step-Move m c j t e = elim (step-Effect m c) [
  | same p ↦ inl (rw p at e)
  | wiped p ↦ absurd (cc (rw p at e))
  | moved k s mv p ↦ insert-Move c.0 m k j s t mv (rw p at e)
]
