-- ===== src/Etsi004/Invariant.antt =====
-- The invariant of the key manager's streams (etsi004.ts), kept by every call.
use pqc_qkd_hybrid_network.Base.{
  ℕ, ◌+◌, ◌<◌, ◌≡◌, refl, ◌⊎◌, inl, inr, String, Bool, true, false, Option, some, List, [], ◌∷◌,
  ◌++◌, length, All, All-append, get_elem?, get_elem?-some_lt, length-append, arith, ◌==◌,
  Bool-cases, Option-cases, or_else,
}
use pqc_qkd_hybrid_network.Base.Dict.{lookup}
use pqc_qkd_hybrid_network.Etsi004.Stream.{
  Side, side_a, side_b, PerSide, Qos, StreamState, pending_peer, established, closing, closed,
  Stream, Chunk, has, add, Env,
}
use pqc_qkd_hybrid_network.Etsi004.Open.{join_stream, new_stream}
use pqc_qkd_hybrid_network.Etsi004.Read.{deliver, next_for, read_at, read_open}
use pqc_qkd_hybrid_network.Etsi004.Success.{read_at_cases}
use pqc_qkd_hybrid_network.Etsi004.Km.{Km, close_stream}
use pqc_qkd_hybrid_network.Etsi004.Run.{Call, step, run}
use pqc_qkd_hybrid_network.Etsi004.Moves.{Move, create, join, extend, read, shut, step-Move}

-- No index stands twice.
abbrev pub IsDistinct : List ℕ → Type 0
IsDistinct [] = Unit {0}
IsDistinct (x ∷ xs) = (has xs x ≡ false) × IsDistinct xs

-- The delivered indices of a side: distinct, and each that of a chunk.
pub record IsDelivered (n : ℕ) (ds : List ℕ) : Type 0 where
  pub distinct : IsDistinct ds
  pub below : All (λ i. i < n) ds

pub record AreDelivered (s : Stream) : Type 0 where
  pub by_a : IsDelivered (length s.chunks) s.delivered.on_a
  pub by_b : IsDelivered (length s.chunks) s.delivered.on_b

-- Exactly one side.
abbrev pub IsOneSided : PerSide Bool → Type 0
IsOneSided r = (r.on_a ≡ true) × (r.on_b ≡ false) ⊎ (r.on_a ≡ false) × (r.on_b ≡ true)

-- What each state says of the flags and the chunks.
abbrev pub Fits : StreamState → Stream → Type 0
Fits pending_peer s =
    IsOneSided s.is_opened
    × (s.is_closed.on_a ≡ false)
    × (s.is_closed.on_b ≡ false)
    × (s.chunks ≡ [])
    × AreDelivered s
Fits established s =
    (s.is_opened.on_a ≡ true)
    × (s.is_opened.on_b ≡ true)
    × ((s.is_closed.on_a ≡ false) ⊎ (s.is_closed.on_b ≡ false))
    × AreDelivered s
Fits closing s =
    IsOneSided s.is_closed
    × ((s.is_opened.on_a ≡ true) ⊎ (s.is_opened.on_b ≡ true))
    × AreDelivered s
Fits closed s =
    (s.is_closed.on_a ≡ true)
    × (s.is_closed.on_b ≡ true)
    × (s.chunks ≡ [])
    × IsDistinct s.delivered.on_a
    × IsDistinct s.delivered.on_b

abbrev pub IsValid : Stream → Type 0
IsValid s = Fits s.state s

-- Every stream of the map is valid.
abbrev pub IsKmValid : Km → Type 0
IsKmValid m = (k : String) (s : Stream) → lookup k m ≡ some s → IsValid s

has-snoc :
    (xs : List ℕ) (i x : ℕ) → has xs x ≡ false → (i == x) ≡ false → has (xs ++ i ∷ []) x ≡ false
has-snoc [] i x h e = ground arith
has-snoc (y ∷ ys) i x h e = ground (arith, has-snoc ys i x)

IsDistinct-snoc :
    (xs : List ℕ) (i : ℕ) → IsDistinct xs → has xs i ≡ false → IsDistinct (xs ++ i ∷ [])
IsDistinct-snoc [] i d h = (refl, tt)
IsDistinct-snoc (x ∷ xs) i d h =
    (has-snoc xs i x d.0 (ground arith), IsDistinct-snoc xs i d.1 (ground arith))

add-IsDelivered : (n i : ℕ) (ds : List ℕ) → i < n → IsDelivered n ds → IsDelivered n (add i ds)
unfolding add
add-IsDelivered n i ds lt d = elim (Bool-cases (has ds i)) [
  | inl old ↦ rw old d
  | inr new ↦ rw new (record {
    distinct = IsDistinct-snoc ds i d.distinct new;
    below = All-append (λ j. j < n) ds (i ∷ []) d.below (lt, tt);
  })
]

All-lt_mono : (n : ℕ) (ds : List ℕ) → All (λ i. i < n) ds → All (λ i. i < n + 1) ds
All-lt_mono n [] h = tt
All-lt_mono n (d ∷ ds) h = (omega arith, All-lt_mono n ds h.1)

join_stream-IsValid :
    (s : Stream) (side : Side) (source destination ksid : String)
    → IsValid s
    → IsValid (join_stream s side source destination ksid).0
unfolding join_stream
join_stream-IsValid s side source destination ksid v = ground arith

AreDelivered-IsDistinct :
    (s : Stream) → AreDelivered s → IsDistinct s.delivered.on_a × IsDistinct s.delivered.on_b
AreDelivered-IsDistinct s d = (d.by_a.distinct, d.by_b.distinct)

close_stream-IsValid : (s : Stream) (side : Side) → IsValid s → IsValid (close_stream s side).0
unfolding close_stream
close_stream-IsValid s side v = ground (arith, AreDelivered-IsDistinct s)

IsDelivered-mono : (n : ℕ) (ds : List ℕ) → IsDelivered n ds → IsDelivered (n + 1) ds
IsDelivered-mono n ds d = record { distinct = d.distinct; below = All-lt_mono n ds d.below }

append-IsDelivered :
    (cs : List Chunk) (c : Chunk) (ds : List ℕ)
    → IsDelivered (length cs) ds
    → IsDelivered (length (cs ++ c ∷ [])) ds
append-IsDelivered cs c ds d = rw (length-append cs (c ∷ [])) (IsDelivered-mono (length cs) ds d)

append-AreDelivered :
    (s : Stream) (c : Chunk)
    → AreDelivered s
    → AreDelivered (record s { chunks = s.chunks ++ c ∷ [] })
append-AreDelivered s c d = record {
  by_a = append-IsDelivered s.chunks c s.delivered.on_a d.by_a;
  by_b = append-IsDelivered s.chunks c s.delivered.on_b d.by_b;
}

extend-IsValid :
    (s : Stream) (c : Chunk)
    → s.state ≡ established
    → IsValid s
    → IsValid (record s { chunks = s.chunks ++ c ∷ [] })
extend-IsValid s c live v = ground (arith, append-AreDelivered s c)

deliver-AreDelivered :
    (s : Stream) (side : Side) (i : ℕ)
    → i < length s.chunks
    → AreDelivered s
    → AreDelivered (deliver s side i)
deliver-AreDelivered s side_a i lt d = record {
  by_a = add-IsDelivered _ i s.delivered.on_a lt d.by_a;
  by_b = d.by_b;
}
deliver-AreDelivered s side_b i lt d = record {
  by_a = d.by_a;
  by_b = add-IsDelivered _ i s.delivered.on_b lt d.by_b;
}

-- Delivering an index of a chunk keeps a stream valid, whatever its state.
deliver-IsValid :
    (s : Stream) (side : Side) (i : ℕ) (c : Chunk)
    → get_elem? s.chunks i ≡ some c
    → IsValid s
    → IsValid (deliver s side i)
deliver-IsValid s side i c e v =
    ground (arith, get_elem?-some_lt s.chunks i c e, deliver-AreDelivered s side i)

read_at-IsValid :
    (env : Env) (s : Stream) (side : Side) (want size : ℕ)
    → IsValid s
    → IsValid (read_at env s side want size).0
read_at-IsValid env s side want size v = elim (read_at_cases env s side want size) [
  | inl same ↦ rw same v
  | inr (c, e, done) ↦ rw done (deliver-IsValid s side want c e v)
]

read_open-IsValid :
    (env : Env) (s : Stream) (side : Side) (index : Option ℕ) (size : ℕ)
    → IsValid s
    → IsValid (read_open env s side index size).0
unfolding read_open
read_open-IsValid env s side index size v = elim (Option-cases (or_else index (next_for s side))) [
  | inl out ↦ ground arith
  | inr (want, e) ↦ ground (arith, read_at-IsValid env s side want size v)
]

new_stream-IsValid :
    (env : Env) (side : Side) (source destination : String) (qos : Qos)
    → IsValid (new_stream env side source destination qos)
new_stream-IsValid env side_a source destination qos = ground arith
new_stream-IsValid env side_b source destination qos = ground arith

-- A move from a valid stream leads to a valid stream.
pub Move-IsValid :
    {env : Env} {k : String} {before : Option Stream} {t : Stream}
    → Move env k before t
    → ((s : Stream) → before ≡ some s → IsValid s)
    → IsValid t
Move-IsValid {env} (create side source destination qos own e) v =
    rw e (new_stream-IsValid env side source destination qos)
Move-IsValid {k} (join s side source destination b e) v =
    rw e (join_stream-IsValid s side source destination k (v s b))
Move-IsValid (extend s c b live e) v = rw e (extend-IsValid s c live (v s b))
Move-IsValid {env} (read s side index size b live e) v =
    rw e (read_open-IsValid env s side index size (v s b))
Move-IsValid (shut s side b e) v = rw e (close_stream-IsValid s side (v s b))

-- Every call, with any arguments and in any environment, keeps all streams of the key manager valid:
-- the flags, the chunks and the delivered indices of a stream are those that its state allows.
pub step-IsKmValid : (m : Km) (c : Env × Call) → IsKmValid m → IsKmValid (step m c)
step-IsKmValid m c v k t e = elim (step-Move m c k t e) [
  | inl old ↦ v k t old
  | inr mv ↦ Move-IsValid mv (v k)
]

-- Any calls, in any environments, on a key manager whose streams are valid leave all streams valid: in
-- each state the flags of the sides are those that it stands for, and the delivered indices of a side
-- are distinct; in each state but CLOSED, where the chunks are gone and the indices are kept, these
-- are indices of chunks of the stream; and a pending or closed stream has no chunks.
pub run-IsKmValid : (m : Km) (cs : List (Env × Call)) → IsKmValid m → IsKmValid (run m cs)
unfolding run
run-IsKmValid m [] v = v
run-IsKmValid m (c ∷ cs) v = run-IsKmValid (step m c) cs (step-IsKmValid m c v)
