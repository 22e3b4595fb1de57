-- ===== src/Lab/Refilled.antt =====
-- The loop of `refillStream` of the protocol lab (protocolLabSim.ts) ends, and what it has relayed then.
use Prim.Native.Nat.{Ordering}
use pqc_qkd_hybrid_network.Base.{
  ℕ, zero, suc, ◌+◌, ◌<◌, ◌≡◌, refl, ap, subst, ◌∙◌, inl, inr, String, true, false, not, Option,
  none, some, List, [], ◌∷◌, ◌++◌, length, arith, Bool-cases, Option-cases,
}
use pqc_qkd_hybrid_network.Base.Dict.{lookup, lookup-insert_self}
use pqc_qkd_hybrid_network.Base.Int.{pos, sub_ℕ, leb_ℤ}
use pqc_qkd_hybrid_network.Etsi004.Stream.{side_a, established, is_state, Stream, Chunk, Env}
use pqc_qkd_hybrid_network.Etsi004.Km.{Km, supply, undelivered}
use pqc_qkd_hybrid_network.Etsi004.Supply.{undelivered_known}
use pqc_qkd_hybrid_network.Routing.Rank.{RouteChoice}
use pqc_qkd_hybrid_network.Lab.Generate.{Params}
use pqc_qkd_hybrid_network.Lab.Choose.{choose_route}
use pqc_qkd_hybrid_network.Lab.State.{Sim, Platform, relay_key, log}
use pqc_qkd_hybrid_network.Lab.Traces.{length-snoc}
use pqc_qkd_hybrid_network.Lab.Stream.{
  reroute, is_short, is_low, missing, relay_over, Round, enough, routeless, waits, relays_one,
  RefillEnd, at_watermark, without_route, out_of_rounds, waiting_for, Refill, after_round, log_if,
  refill_round, refill_loop, refill_known,
}

-- How a refill has ended: the watermark is reached, no route is left, or the route holds less than a key.
abbrev pub HasEnded : Params → String → Sim → RefillEnd → Type 0
HasEnded p k s at_watermark = is_low p s.km k ≡ false
HasEnded p k s without_route = s.lab.route ≡ none
HasEnded p k s (waiting_for why) =
    (r : RouteChoice) × (s.lab.route ≡ some r) × (is_short s.lab.key_bits r ≡ true)
HasEnded p k s out_of_rounds = ⊥

-- After a refill the stream holds one chunk more for each key that was relayed, and is otherwise as it
-- was; and the refill has ended.
pub record IsRefilled (p : Params) (k : String) (before : Stream) (r : Refill) : Type 0 where
  pub after : Stream
  pub there : lookup k r.sim.km ≡ some after
  pub state : after.state ≡ before.state
  pub delivered : after.delivered ≡ before.delivered
  pub chunks : length after.chunks ≡ length before.chunks + r.relayed
  pub ended : HasEnded p k r.sim r.end

supply_known :
    (env : Env) (m : Km) (k : String) (bytes : List ℕ) (hops : ℕ) (st : Stream)
    → lookup k m ≡ some st
    → is_state st.state established ≡ true
    → (c : Chunk) × (lookup k (supply env m k bytes hops).0
        ≡ some (record st { chunks = st.chunks ++ c ∷ [] }))
unfolding supply
supply_known env m k bytes hops st there live = (
  record { bytes = bytes; available_at = env.now; hops = hops },
  rw (there, supply, live) (lookup-insert_self k _ m),
)

-- One more chunk leaves one fewer to relay.
missing_falls :
    (p : Params) (chunks read : ℕ)
    → not (leb_ℤ (pos p.low_watermark) (sub_ℕ chunks read)) ≡ true
    → suc (missing p (sub_ℕ (suc chunks) read)) ≡ missing p (sub_ℕ chunks read)
missing_falls p chunks read low = ground arith

missing_known :
    (p : Params) (m : Km) (k : String) (st : Stream)
    → lookup k m ≡ some st
    → missing p (undelivered m k side_a)
      ≡ missing p (sub_ℕ (length st.chunks) (length st.delivered.on_a))
missing_known p m k st there = ap (missing p) (undelivered_known m k side_a st there)

log_if-HasEnded :
    (p : Params) (k : String) (e : RefillEnd) (said : Option String) (s : Sim)
    → HasEnded p k s e
    → HasEnded p k (log_if said s) e
unfolding log
log_if-HasEnded p k e none s h = h
log_if-HasEnded p k at_watermark (some said) s h = h
log_if-HasEnded p k without_route (some said) s h = h
log_if-HasEnded p k (waiting_for why) (some said) s h = h
log_if-HasEnded p k out_of_rounds (some said) s h = h

log_if_km : (said : Option String) (s : Sim) → (log_if said s).km ≡ s.km
unfolding log
log_if_km none s = refl
log_if_km (some said) s = refl

-- The line of the timeline changes nothing of a refill.
log_if-IsRefilled :
    (p : Params) (k : String) (st : Stream) (r : Refill) (said : Option String)
    → IsRefilled p k st r
    → IsRefilled p k st (record r { sim = log_if said r.sim })
log_if-IsRefilled p k st r said h = record {
  after = h.after;
  there = ap (lookup k) (log_if_km said r.sim) ∙ h.there;
  state = h.state;
  delivered = h.delivered;
  chunks = h.chunks;
  ended = log_if-HasEnded p k r.end said r.sim h.ended;
}

module _ (p : Params) (collate : String → String → Ordering) (w : Platform) where
  -- What a round is, on a stream that is established.
  abbrev IsRound : String → Sim → Stream → Round → Type 0
  IsRound k s st enough = is_low p s.km k ≡ false
  IsRound k s st (routeless t) = (t.lab.route ≡ none) × (t.km ≡ s.km)
  IsRound k s st (waits t why) =
      ((r : RouteChoice) × (t.lab.route ≡ some r) × (is_short t.lab.key_bits r ≡ true))
      × (t.km ≡ s.km)
  IsRound k s st (relays_one t) =
      (is_low p s.km k ≡ true)
      × ((c : Chunk) × (lookup k t.km ≡ some (record st { chunks = st.chunks ++ c ∷ [] })))

  relay_over_known :
      (k : String) (r : RouteChoice) (s : Sim) (st : Stream)
      → lookup k s.km ≡ some st
      → is_state st.state established ≡ true
      → (c : Chunk) × (lookup k (relay_over w k r s).km
          ≡ some (record st { chunks = st.chunks ++ c ∷ [] }))
  unfolding relay_over relay_key
  relay_over_known k r s st there live = supply_known _ s.km k _ _ st there live

  refill_round-IsRound :
      (k : String) (s : Sim) (st : Stream)
      → lookup k s.km ≡ some st
      → is_state st.state established ≡ true
      → IsRound k s st (refill_round p collate w k s)
  unfolding refill_round reroute choose_route
  refill_round-IsRound k s st there live =
      let t = reroute collate s.lab.key_bits s in
      elim (Bool-cases (is_low p s.km k)) [
        | inr high ↦ rw high high
        | inl low ↦ elim (Option-cases t.lab.route) [
          | inl gone ↦ rw (low, gone) (gone, refl)
          | inr (r, found) ↦ elim (Bool-cases (is_short s.lab.key_bits r)) [
            | inl short ↦ rw (low, found, short) ((r, found, short), refl)
            | inr carries ↦ rw (low, found, carries) (low, relay_over_known k r t st there live)
          ]
        ]
      ]

  after_round-IsRefilled :
      (rest : Sim → Refill) (k : String) (s : Sim) (st : Stream) (x : Round)
      → lookup k s.km ≡ some st
      → IsRound k s st x
      → ((t : Sim) (c : Chunk)
          → lookup k t.km ≡ some (record st { chunks = st.chunks ++ c ∷ [] })
          → is_low p s.km k ≡ true
          → IsRefilled p k (record st { chunks = st.chunks ++ c ∷ [] }) (rest t))
      → IsRefilled p k st (after_round rest s x)
  unfolding after_round
  after_round-IsRefilled rest k s st enough there h go = record {
    after = st;
    there = there;
    state = refl;
    delivered = refl;
    chunks = omega arith;
    ended = h;
  }
  after_round-IsRefilled rest k s st (routeless t) there h go = record {
    after = st;
    there = ap (lookup k) h.1 ∙ there;
    state = refl;
    delivered = refl;
    chunks = omega arith;
    ended = h.0;
  }
  after_round-IsRefilled rest k s st (waits t why) there h go = record {
    after = st;
    there = ap (lookup k) h.1 ∙ there;
    state = refl;
    delivered = refl;
    chunks = omega arith;
    ended = h.0;
  }
  after_round-IsRefilled rest k s st (relays_one t) there h go =
      let low = h.0 in
      let (c, grown) = h.1 in
      let r = go t c grown low in
      record {
        after = r.after;
        there = r.there;
        state = r.state;
        delivered = r.delivered;
        chunks = omega (arith, r.chunks, length-snoc st.chunks c);
        ended = r.ended;
      }

  refill_loop-IsRefilled :
      (n : ℕ) (k : String) (s : Sim) (st : Stream)
      → lookup k s.km ≡ some st
      → is_state st.state established ≡ true
      → missing p (sub_ℕ (length st.chunks) (length st.delivered.on_a)) < n
      → IsRefilled p k st (refill_loop p collate w n k s)
  unfolding refill_loop
  refill_loop-IsRefilled zero k s st there live lt = absurd (omega arith)
  refill_loop-IsRefilled (suc n) k s st there live lt =
      after_round-IsRefilled (refill_loop p collate w n k) k s st _ there
        (refill_round-IsRound k s st there live)
        (λ t c grown low. refill_loop-IsRefilled n k t _ grown live (
          fewer c (
            subst (λ z. not (leb_ℤ (pos p.low_watermark) z) ≡ true)
              (undelivered_known s.km k side_a st there) low)))
    where
      fewer :
          (c : Chunk)
          → not (leb_ℤ (pos p.low_watermark) (sub_ℕ (length st.chunks) (length st.delivered.on_a)))
            ≡ true
          → missing p (sub_ℕ (length (st.chunks ++ c ∷ [])) (length st.delivered.on_a)) < n
      fewer c low =
          let e = missing_falls p (length st.chunks) (length st.delivered.on_a) low in
          rw (length-snoc st.chunks c) (omega arith)

  -- On a stream that is established, the refill ends within the rounds that it is given, at the watermark,
  -- without a route or on a route that holds less than a key, with one chunk more in the stream for
  -- each key that it relayed.
  pub refill_known-IsRefilled :
      (k : String) (s : Sim) (st : Stream)
      → lookup k s.km ≡ some st
      → is_state st.state established ≡ true
      → IsRefilled p k st (refill_known p collate w k s)
  unfolding refill_known
  refill_known-IsRefilled k s st there live =
      let n = missing p (undelivered s.km k side_a) in
      let enough_rounds = missing_known p s.km k st there in
      let r = refill_loop-IsRefilled (suc n) k s st there live (omega arith) in
      log_if-IsRefilled p k st (refill_loop p collate w (suc n) k s) _ r
