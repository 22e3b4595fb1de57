-- ===== src/Etsi004/Offer.antt =====
-- The negotiation of `openConnect` (etsi004.ts): the counter-proposal of a refused request is one
-- that the key manager accepts.
use Prim.Native.Nat.{max}
use native.Mathlib.Nat.{mod_self, mul-mod_left}
use pqc_qkd_hybrid_network.Base.{
  ℕ, ◌+◌, ◌*◌, ◌/◌, ◌%◌, ◌≡◌, refl, ◌<◌, ◌⊎◌, inl, inr, String, true, false, Option, some, none,
  arith, ltb, ◌==◌, if◌then◌else◌, Bool-cases, Option-cases,
}
use pqc_qkd_hybrid_network.Base.Dict.{lookup, lookup-insert_self}
use pqc_qkd_hybrid_network.Etsi004.Spec.{preferred_metadata_mimetype}
use pqc_qkd_hybrid_network.Etsi004.Stream.{Side, Qos, Stream, pending_peer, t1, t2, Env}
use pqc_qkd_hybrid_network.Etsi004.Open.{
  offered_chunk, offered_min, new_stream, chunk_unmet, min_unmet, mimetype_unmet, counter_qos,
  unmet,
}
use pqc_qkd_hybrid_network.Etsi004.Km.{Km, open_new, open_connect}

max_multiple : (k q : ℕ) → max k (q * k) % k ≡ 0
max_multiple k q = elim (max_cases k (q * k)) [
  | inl e ↦ rw e (mod_self k)
  | inr e ↦ rw e (mul-mod_left q k)
]
  where
    max_cases : (a b : ℕ) → (max a b ≡ a) ⊎ (max a b ≡ b)
    max_cases a b = omega arith

-- The offered chunk size is a positive multiple of a relayed key.
offered_chunk_multiple :
    (k : ℕ) (asked : Option ℕ)
    → 0 < k
    → (0 < offered_chunk k asked) × (offered_chunk k asked % k ≡ 0)
unfolding offered_chunk chunk_unmet
offered_chunk_multiple k none h = (h, mod_self k)
offered_chunk_multiple k (some n) h = elim (Bool-cases (ltb 0 n)) [
  | inr nothing ↦ rw nothing (h, mod_self k)
  | inl some_bytes ↦ elim (Bool-cases (n % k == 0)) [
    | inl fits ↦ rw (some_bytes, fits) (ground arith, ground arith)
    | inr apart ↦ rw (some_bytes, apart) (omega arith, max_multiple k ((2 * n + k) / (2 * k)))
  ]
]

chunk_met : (k n : ℕ) → n % k ≡ 0 → chunk_unmet k (some n) ≡ false
unfolding chunk_unmet
chunk_met k n h = ground arith

-- The floor of the capacity is not above the capacity.
min_met : (lo cap : Option ℕ) → min_unmet (offered_min lo cap) cap ≡ false
unfolding min_unmet offered_min
min_met none none = refl
min_met none (some cap) = refl
min_met (some lo) none = refl
min_met (some lo) (some cap) = ground arith

mimetype_met :
    (m : Option String)
    → mimetype_unmet (if mimetype_unmet m then some preferred_metadata_mimetype else m) ≡ false
unfolding mimetype_unmet
mimetype_met none = refl
mimetype_met (some m) = ground arith

-- Nothing of the counter-proposal is refused.
unmet-counter_qos :
    (env : Env) (qos : Qos) → 0 < env.key_chunk_bytes → unmet env (counter_qos env qos) ≡ none
unfolding unmet counter_qos
unmet-counter_qos env qos h = ground (
  arith,
  offered_chunk_multiple env.key_chunk_bytes qos.key_chunk_size,
  chunk_met env.key_chunk_bytes (offered_chunk env.key_chunk_bytes qos.key_chunk_size),
  min_met qos.min_bps env.capacity,
  mimetype_met qos.metadata_mimetype,
)

-- The chunk size of an acceptable request is kept, and a missing one becomes one key.
chunk_kept : (k n : ℕ) → 0 < n → n % k ≡ 0 → offered_chunk k (some n) ≡ n
unfolding offered_chunk chunk_unmet
chunk_kept k n pos h = ground arith

counter_qos_met :
    (env : Env) (qos : Qos) (c : ℕ)
    → qos.key_chunk_size ≡ some c
    → 0 < c
    → c % env.key_chunk_bytes ≡ 0
    → min_unmet qos.min_bps env.capacity ≡ false
    → mimetype_unmet qos.metadata_mimetype ≡ false
    → counter_qos env qos ≡ qos
unfolding counter_qos offered_min
counter_qos_met env qos c size pos h lo mt = ground (arith, chunk_kept env.key_chunk_bytes c)

-- A counter-proposal is its own counter-proposal.
counter_qos-counter_qos :
    (env : Env) (qos : Qos)
    → 0 < env.key_chunk_bytes
    → counter_qos env (counter_qos env qos) ≡ counter_qos env qos
counter_qos-counter_qos env qos h =
    let k = env.key_chunk_bytes in
    let (pos, fits) = offered_chunk_multiple k qos.key_chunk_size h in
    counter_qos_met env (counter_qos env qos) (offered_chunk k qos.key_chunk_size)
      (unfold counter_qos in refl) pos fits (unfold counter_qos in min_met qos.min_bps env.capacity)
      (unfold counter_qos in mimetype_met qos.metadata_mimetype)

open_new_met :
    (env : Env) (m : Km) (side : Side) (source destination : String) (qos : Qos)
    → env.route_up ≡ true
    → unmet env qos ≡ none
    → counter_qos env qos ≡ qos
    → (let (n, a) = open_new env m side source destination qos in
        (a.transition ≡ t1)
        × (a.key_stream_id ≡ some env.new_ksid)
        × (a.qos ≡ some qos)
        × ((s : Stream) × (lookup env.new_ksid n ≡ some s)
            × (s.state ≡ pending_peer)
            × (s.qos ≡ qos)))
unfolding open_new
open_new_met env m side source destination qos up met kept =
    rw (met, open_new)
      (rw kept (
        rw up (
          refl,
          refl,
          refl,
          (
            new_stream env side source destination qos,
            lookup-insert_self env.new_ksid _ m,
            refl,
            refl,
          ),
        )))

open_new_refused :
    (env : Env) (m : Km) (side : Side) (source destination : String) (qos : Qos)
    → (open_new env m side source destination qos).1.transition ≡ t2
    → (env.route_up ≡ true)
      × ((open_new env m side source destination qos).0 ≡ m)
      × ((open_new env m side source destination qos).1.qos ≡ some (counter_qos env qos))
unfolding open_new
open_new_refused env m side source destination qos h = elim (Option-cases (unmet env qos)) [
  | inl met ↦ ground arith
  | inr (d, e) ↦ ground arith
]

-- When `openConnect` with a null Key_stream_ID answers QOS_NOT_MET (T2), it changes nothing and
-- returns a counter-proposal; asking again for that proposal, in the same environment and with keys
-- of at least one byte, opens a stream (T1) with exactly the proposed quality of service.
pub counter_offer_accepted :
    (env : Env) (m : Km) (side : Side) (source destination : String) (qos : Qos)
    → 0 < env.key_chunk_bytes
    → (open_connect env m side source destination qos none).1.transition ≡ t2
    → let (m', r) = open_connect env m side source destination qos none in
      (m' ≡ m)
      × ((offer : Qos) × (r.qos ≡ some offer)
          × (let (n, a) = open_connect env m side source destination offer none in
              (a.transition ≡ t1)
              × (a.key_stream_id ≡ some env.new_ksid)
              × (a.qos ≡ some offer)
              × ((s : Stream) × (lookup env.new_ksid n ≡ some s)
                  × (s.state ≡ pending_peer)
                  × (s.qos ≡ offer))))
unfolding open_connect
counter_offer_accepted env m side source destination qos h refused =
    let (up, same, offer) = open_new_refused env m side source destination qos refused in
    (
      same,
      (
        counter_qos env qos,
        offer,
        open_new_met env m side source destination (counter_qos env qos) up
            (unmet-counter_qos env qos h) (counter_qos-counter_qos env qos h),
      ),
    )
