-- ===== src/Lab/Pipeline.antt =====
-- Each part of a tick of the protocol lab (protocolLabSim.ts) traces itself, once and in its place.
use Prim.Native.Nat.{Ordering}
use pqc_qkd_hybrid_network.Base.{
  ℕ, zero, suc, refl, String, not, Option, none, some, [], str_eq, if_both, Option-both,
}
use pqc_qkd_hybrid_network.Etsi004.Spec.{peer_not_connected}
use pqc_qkd_hybrid_network.Etsi004.Stream.{CallResult}
use pqc_qkd_hybrid_network.Routing.Rank.{RouteChoice}
use pqc_qkd_hybrid_network.Lab.Generate.{Params}
use pqc_qkd_hybrid_network.Lab.Wording.{is_status}
use pqc_qkd_hybrid_network.Lab.State.{Sim, Platform}
use pqc_qkd_hybrid_network.Lab.Stream.{
  join_peer, open_stream, relay_over, Round, enough, routeless, waits, relays_one, Refill, reroute,
  is_low, is_short, after_round, log_if, refill_round, refill_loop, refill_known, refill_stream,
}
use pqc_qkd_hybrid_network.Lab.Traces.{
  Traces, ◌⨾◌, silent, log-Traces, log_004-Traces, relay_key-Traces, reroute-Traces,
}

join_peer-Traces :
    (w : Platform) (s : Sim) (src dst : String) (a : CallResult)
    → Traces [] s (join_peer w s src dst a)
unfolding join_peer
join_peer-Traces w s src dst a =
    Option-both (Traces [] s) a.key_stream_id s _ (silent s s refl) (λ id.
      if_both (Traces [] s) (not (is_status peer_not_connected a)) _ _ (silent s s refl)
        (silent s _ refl ⨾ log_004-Traces _ _ _))

pub open_stream-Traces : (w : Platform) (s : Sim) → Traces [] s (open_stream w s)
unfolding open_stream
open_stream-Traces w s =
    if_both (Traces [] s) (str_eq s.lab.demand_from s.lab.demand_to) _ _ (silent s s refl)
      (silent s _ refl ⨾ log_004-Traces _ _ _ ⨾ join_peer-Traces w _ _ _ _)

relay_over-Traces :
    (w : Platform) (k : String) (r : RouteChoice) (s : Sim) → Traces [] s (relay_over w k r s)
unfolding relay_over
relay_over-Traces w k r s = silent s _ refl ⨾ relay_key-Traces w _ ⨾ silent _ _ refl

-- The state that a round of a refill leaves.
abbrev round_sim : Sim → Round → Sim
round_sim s enough = s
round_sim s (routeless t) = t
round_sim s (waits t why) = t
round_sim s (relays_one t) = t

log_if-Traces : (said : Option String) (s : Sim) → Traces [] s (log_if said s)
log_if-Traces none s = silent s s refl
log_if-Traces (some said) s = log-Traces _ said none none s

module _ (p : Params) (collate : String → String → Ordering) (w : Platform) where
  refill_round-Traces :
      (k : String) (s : Sim) → Traces [] s (round_sim s (refill_round p collate w k s))
  unfolding refill_round
  refill_round-Traces k s =
      let t = reroute collate s.lab.key_bits s in
      let moved = reroute-Traces collate s.lab.key_bits s in
      let P = λ (x : Round). Traces [] s (round_sim s x) in
      if_both P (not (is_low p s.km k)) _ _ (silent s s refl) (
        Option-both P t.lab.route _ _ moved (λ r.
          if_both P (is_short s.lab.key_bits r) _ _ moved (moved ⨾ relay_over-Traces w k r t)))

  after_round-Traces :
      (rest : Sim → Refill) (s : Sim) (x : Round)
      → Traces [] s (round_sim s x)
      → ((t : Sim) → Traces [] t (rest t).sim)
      → Traces [] s (after_round rest s x).sim
  unfolding after_round
  after_round-Traces rest s enough h k = h
  after_round-Traces rest s (routeless t) h k = h
  after_round-Traces rest s (waits t why) h k = h
  after_round-Traces rest s (relays_one t) h k = h ⨾ k t

  refill_loop-Traces :
      (n : ℕ) (k : String) (s : Sim) → Traces [] s (refill_loop p collate w n k s).sim
  unfolding refill_loop
  refill_loop-Traces zero k s = silent s s refl
  refill_loop-Traces (suc n) k s =
      after_round-Traces (refill_loop p collate w n k) s (refill_round p collate w k s)
        (refill_round-Traces k s) (refill_loop-Traces n k)

  refill_known-Traces : (k : String) (s : Sim) → Traces [] s (refill_known p collate w k s).sim
  unfolding refill_known
  refill_known-Traces k s = refill_loop-Traces _ k s ⨾ log_if-Traces _ _

  pub refill_stream-Traces : (s : Sim) → Traces [] s (refill_stream p collate w s).sim
  unfolding refill_stream
  refill_stream-Traces s =
      let P = λ (x : Refill). Traces [] s x.sim in
      if_both P _ _ _ (Option-both P s.ksid _ _ (silent s s refl) (λ k. refill_known-Traces k s))
        (silent s s refl)
