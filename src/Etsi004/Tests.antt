-- ===== src/Etsi004/Tests.antt =====
-- Runs of `Km004` (services/webui-frontend/src/lib/sim/protocolLab/etsi004.ts) on concrete calls.
use pqc_qkd_hybrid_network.Base.{
  ℕ, ◌≡◌, refl, ◌≢◌, ◌↔◌, true, false, none, some, List, suc, ap, sym, some_inj, [], ◌∷◌, arith,
  str_eq,
}
use pqc_qkd_hybrid_network.Base.Dict.{lookup, insert}
use pqc_qkd_hybrid_network.Base.Int.{pos, negsuc}
use pqc_qkd_hybrid_network.Etsi004.Spec.{status_code, status_by_id}
use pqc_qkd_hybrid_network.Etsi004.Stream.{
  side_a, side_b, at_side, Qos, empty_qos, pending_peer, established, closing, closed, Stream,
  Chunk, has, add, t1, t5, t11, t21, Env,
}
use pqc_qkd_hybrid_network.Etsi004.Open.{
  join_stream, chunk_unmet, min_unmet, mimetype_unmet, offered_chunk, offered_min, counter_qos,
  unmet,
}
use pqc_qkd_hybrid_network.Etsi004.Read.{
  next_from, next_for, decimal_digits, encoded_length, hand_out, read_at, read_open,
}
use pqc_qkd_hybrid_network.Etsi004.Km.{
  Km, open_new, open_connect, supply, undelivered, get_key, close_stream, close,
}
use pqc_qkd_hybrid_network.Etsi004.Run.{Call, opens, supplies, step, run}
use pqc_qkd_hybrid_network.Etsi004.Invariant.{IsKmValid, run-IsKmValid}
use pqc_qkd_hybrid_network.Etsi004.Once.{get_key_once, get_key_pair}
use pqc_qkd_hybrid_network.Etsi004.Closing.{IsOver, close_final}
use pqc_qkd_hybrid_network.Etsi004.HalfClosed.{join_half_closed}
use pqc_qkd_hybrid_network.Etsi004.Supply.{get_key_iff_undelivered}
use pqc_qkd_hybrid_network.Etsi004.Offer.{counter_offer_accepted}

km004 : Unit {0}
unfolding open_new open_connect supply undelivered get_key close_stream close read_open read_at
    hand_out encoded_length decimal_digits next_for next_from unmet counter_qos mimetype_unmet
    offered_min offered_chunk min_unmet chunk_unmet join_stream lookup insert add step run
    status_code status_by_id
km004 = tt

abbrev env : Env
env = record {
  key_chunk_bytes = 2;
  route_up = true;
  capacity = some 5500;
  now = 120;
  new_ksid = "k";
}

abbrev later : Env
later = record env { now = 150; new_ksid = "z" }

-- Opened by A, joined by B, with two chunks supplied.
abbrev calls : List (Env × Call)
calls =
    (env, opens side_a "app-a" "app-b" empty_qos none)
    ∷ (env, opens side_b "app-b" "app-a" empty_qos (some "k"))
    ∷ (env, supplies "k" (7 ∷ 9 ∷ []) 2)
    ∷ (env, supplies "k" (4 ∷ 8 ∷ []) 3)
    ∷ []

abbrev pending : Stream
pending = record {
  ksid = "k";
  apps = record { source = "app-a"; destination = "app-b" };
  qos = record empty_qos { key_chunk_size = some 2 };
  is_opened = record { on_a = true; on_b = false };
  is_closed = record { on_a = false; on_b = false };
  state = pending_peer;
  chunks = [];
  delivered = record { on_a = []; on_b = [] };
}

abbrev chunk0 : Chunk
chunk0 = record { bytes = 7 ∷ 9 ∷ []; available_at = 120; hops = 2 }

abbrev chunk1 : Chunk
chunk1 = record { bytes = 4 ∷ 8 ∷ []; available_at = 120; hops = 3 }

abbrev live : Stream
live = record pending {
  is_opened = record { on_a = true; on_b = true };
  state = established;
  chunks = chunk0 ∷ chunk1 ∷ [];
}

abbrev km : Km
km = ("k", live) ∷ []

abbrev pending_km : Km
pending_km = ("k", pending) ∷ []

run_tests :
    (run [] calls ≡ km) × (step [] (env, opens side_a "app-a" "app-b" empty_qos none) ≡ pending_km)
unfolding km004
run_tests = (refl, refl)

-- `live` before the chunks.
abbrev half_open : Stream
half_open = record live { chunks = [] }

z_is_fresh : later.new_ksid ≢ "k"
z_is_fresh e = absurd (cc (ap (λ s. str_eq s "k") e))

[]-IsKmValid : IsKmValid []
unfolding lookup
[]-IsKmValid k s e = absurd (cc e)

km-IsKmValid : IsKmValid km
unfolding km004
km-IsKmValid = run-IsKmValid [] calls []-IsKmValid

run-IsKmValid_example : IsKmValid (run [] calls)
run-IsKmValid_example = run-IsKmValid [] calls []-IsKmValid

-- The key manager of `km` after A has read the chunk that comes first.
abbrev read_km : Km
read_km = ("k", record live { delivered = record { on_a = 0 ∷ []; on_b = [] } }) ∷ []

more : List (Env × Call)
more = (later, supplies "k" (1 ∷ 2 ∷ []) 2) ∷ []

-- A second read, left to the key manager, is at the next index; asked for again, the first is refused.
read_tests :
    ((get_key env km side_a "k" none 0).0 ≡ read_km)
    × ((get_key env read_km side_a "k" none 0).1.index ≡ some 1)
    × ((get_key env read_km side_a "k" (some 0) 0).1.transition ≡ t21)
    × ((get_key env read_km side_b "k" none 0).1.key_buffer ≡ some (7 ∷ 9 ∷ []))
unfolding km004
read_tests = (refl, refl, refl, refl)

get_key_once_example :
    (get_key later (run (get_key env km side_a "k" none 0).0 more) side_a "k" none 64).1.index
    ≢ some 0
unfolding km004 more
get_key_once_example =
    get_key_once env later km side_a "k" none none 0 64 0 more refl refl (z_is_fresh, tt) refl

get_key_pair_example :
    let (m', r) = get_key env km side_a "k" none 0 in
    let r' = (get_key env m' side_b "k" (some 0) 0).1 in
    (r'.transition ≡ t11) × (r'.index ≡ some 0) × (r'.key_buffer ≡ r.key_buffer)
unfolding km004
get_key_pair_example =
    get_key_pair env km side_a "k" none 0 0 refl refl
      (λ s e. ap (λ (t : Stream). has (at_side side_b t.delivered) 0) (sym (some_inj e)))

-- The key manager of `km` after A has closed its side.
abbrev closing_km : Km
closing_km =
    ("k", record live { state = closing; is_closed = record { on_a = true; on_b = false } }) ∷ []

close_final_example : IsOver (run (close closing_km side_b "k").0 more) "k"
unfolding km004 more
close_final_example = close_final closing_km side_b "k" more refl (z_is_fresh, tt)

join_half_closed_example :
    let m' = (close pending_km side_a "k").0 in
    let (m'', r) = open_connect env m' side_b "app-a" "app-b" empty_qos (some "k") in
    (r.transition ≡ t5)
    × ((t : Stream) × (lookup "k" m'' ≡ some t)
        × (t.state ≡ established)
        × (at_side side_a t.is_closed ≡ true))
unfolding km004
join_half_closed_example =
    join_half_closed pending_km env side_a "k" "app-a" "app-b" empty_qos pending refl refl refl refl
      refl refl

get_key_iff_undelivered_example :
    ((get_key env km side_b "k" none 0).1.transition ≡ t11)
    ↔ ((n : ℕ) × (undelivered km "k" side_b ≡ pos (suc n)))
unfolding km004
get_key_iff_undelivered_example =
    get_key_iff_undelivered env km side_b "k" live km-IsKmValid refl refl refl

abbrev odd : Qos
odd = record empty_qos { key_chunk_size = some 3; min_bps = some 9000 }

counter_offer_accepted_example :
    let (m', r) = open_connect env [] side_a "app-a" "app-b" odd none in
    (m' ≡ [])
    × ((offer : Qos) × (r.qos ≡ some offer)
        × (let (n, a) = open_connect env [] side_a "app-a" "app-b" offer none in
            (a.transition ≡ t1)
            × (a.key_stream_id ≡ some env.new_ksid)
            × (a.qos ≡ some offer)
            × ((s : Stream) × (lookup env.new_ksid n ≡ some s)
                × (s.state ≡ pending_peer)
                × (s.qos ≡ offer))))
unfolding km004
counter_offer_accepted_example =
    counter_offer_accepted env [] side_a "app-a" "app-b" odd (omega arith) refl

negotiation_tests :
    (counter_qos env odd ≡ record odd { key_chunk_size = some 4; min_bps = some 5000 })
    × (undelivered
          ((
            "k",
            record live {
              state = closed;
              chunks = [];
              delivered = record { on_a = 0 ∷ []; on_b = [] };
            },
          )
            ∷ [])
          "k"
          side_a
        ≡ negsuc 0)
unfolding km004
negotiation_tests = (refl, refl)
