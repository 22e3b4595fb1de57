-- ===== src/Lab/Counted.antt =====
-- The counters of `consumeStream` of the protocol lab (protocolLabSim.ts).
use native.Mathlib.Nat.{sub_self, zero-mul}
use mathlib.Core.Option
use pqc_qkd_hybrid_network.Base.{
  ℕ, zero, suc, ◌+◌, ◌-◌, ◌*◌, ◌/◌, ◌%◌, ◌≤◌, ◌<◌, ◌≡◌, refl, ap, ◌∙◌, inl, inr, String, true, not,
  none, some, length, ltb, ◌==◌, if_both, Option-both, Option-known, arith, Bool-cases,
}
use pqc_qkd_hybrid_network.Etsi004.Spec.{successful}
use pqc_qkd_hybrid_network.Etsi004.Stream.{side_a, side_b, Stream, Env}
use pqc_qkd_hybrid_network.Etsi004.Km.{Km, get_key}
use pqc_qkd_hybrid_network.Lab.Wording.{is_status, failure_text}
use pqc_qkd_hybrid_network.Lab.State.{Sim, Platform, key_bytes, env_of, is_some, log}
use pqc_qkd_hybrid_network.Lab.Consume.{
  Reads, read_loop, Consumed, log_served, log_failed, refuse_all, read_all, due_credit,
  consume_stream,
}
use pqc_qkd_hybrid_network.Lab.Served.{IsInStep, read_loop-IsServed}

read_loop-le : (n : ℕ) (env : Env) (k : String) (m : Km) → (read_loop n env k m).served ≤ n
unfolding read_loop
read_loop-le zero env k m = omega arith
read_loop-le (suc n) env k m =
    let a = get_key env m side_a k none 0 in
    let b = get_key env a.0 side_b k a.1.index 0 in
    let P = λ (r : Reads). r.served ≤ suc n in
    if_both P (not (is_status successful a.1)) _ _ (omega arith) (
      if_both P (not (is_status successful b.1)) _ _ (omega arith)
        (omega (arith, read_loop-le n env k b.0)))

-- The counters of the requests and the credit.
abbrev counters : Sim → ℕ × ℕ × ℕ
counters s = (s.requests_ok, s.requests_failed, s.demand_credit)

counters-log_served : (r : Reads) (bits : ℕ) (s : Sim) → counters (log_served r bits s) ≡ counters s
unfolding log_served log
counters-log_served r bits s =
    if_both (λ (t : Sim). counters t ≡ counters s) (ltb 0 r.served) _ _ refl refl

counters-log_failed :
    (r : Reads) (missed : ℕ) (s : Sim) → counters (log_failed r missed s) ≡ counters s
unfolding log_failed log
counters-log_failed r missed s =
    Option-both (λ (t : Sim). counters t ≡ counters s) r.failed _ _ refl (λ f. refl)

-- The requests of a tick that are due are those served and those failed.
pub record IsCounted (s : Sim) (r : Consumed) : Type 0 where
  pub all_due : r.requested * 1000 + r.sim.demand_credit ≡ due_credit s
  pub carried : r.sim.demand_credit < 1000
  pub served : r.served ≤ r.requested
  pub ok : r.sim.requests_ok ≡ s.requests_ok + r.served
  pub failed : r.sim.requests_failed ≡ s.requests_failed + (r.requested - r.served)

module _ (w : Platform) where
  read_all-counters :
      (n : ℕ) (k : String) (s : Sim)
      → let r = read_all w n k s in
        (counters r.sim
          ≡ (s.requests_ok + r.served, s.requests_failed + (n - r.served), s.demand_credit))
        × (r.served ≤ n)
        × (r.requested ≡ n)
  unfolding read_all
  read_all-counters n k s = (
    counters-log_failed _ _ _ ∙ counters-log_served _ _ _,
    read_loop-le n (env_of w s) k s.km,
    refl,
  )

  read_all-IsCounted :
      (s t : Sim) (n : ℕ) (k : String)
      → n * 1000 + t.demand_credit ≡ due_credit s
      → t.demand_credit < 1000
      → t.requests_ok ≡ s.requests_ok
      → t.requests_failed ≡ s.requests_failed
      → IsCounted s (read_all w n k t)
  read_all-IsCounted s t n k due less ok failed =
      let (e, le, all) = read_all-counters n k t in
      let left = ap (λ (c : ℕ × ℕ × ℕ). c.2) e in
      record {
        all_due = omega (arith, all, left);
        carried = omega (arith, left);
        served = omega (arith, le, all);
        ok = omega (arith, ap (λ (c : ℕ × ℕ × ℕ). c.0) e);
        failed = omega (arith, ap (λ (c : ℕ × ℕ × ℕ). c.1) e, all);
      }

  -- In each tick the requests that are due, by the demand's credit in whole keys, are counted as served or
  -- as failed, and less than one key's credit is carried over.
  pub consume_stream-IsCounted : (s : Sim) → IsCounted s (consume_stream w s)
  unfolding consume_stream refuse_all log
  consume_stream-IsCounted s =
      let n = due_credit s / 1000 in
      let s' : Sim = record s { demand_credit = due_credit s % 1000 } in
      elim (Bool-cases (n == 0)) [
        | inl nothing ↦ rw nothing (record {
          all_due = ground arith;
          carried = omega arith;
          served = omega arith;
          ok = omega arith;
          failed = omega arith;
        })
        | inr due ↦ rw due (
            Option-both (IsCounted s) s.ksid _ _
              (record {
                all_due = omega arith;
                carried = omega arith;
                served = omega arith;
                ok = omega arith;
                failed = omega arith;
              })
              (λ k. read_all-IsCounted s s' n k (omega arith) (omega arith) refl refl))
      ]

  -- On a stream that both sides have read in step, with a route and a chunk for each request that is
  -- due, every request of the tick is served and none fails.
  pub consume_stream_serves :
      (s : Sim) (k : String) (st : Stream)
      → s.ksid ≡ some k
      → IsInStep k s.km st
      → is_some s.lab.route ≡ true
      → length st.delivered.on_a + due_credit s / 1000 ≤ length st.chunks
      → let r = consume_stream w s in (r.served ≡ r.requested) × (r.unmet ≡ 0) × (r.why ≡ none)
  unfolding consume_stream read_all
  consume_stream_serves s k st known h up le =
      let n = due_credit s / 1000 in
      let s' : Sim = record s { demand_credit = due_credit s % 1000 } in
      let served = read_loop-IsServed (env_of w s') k up n s.km st h le in
      let P = λ (r : Consumed). (r.served ≡ r.requested) × (r.unmet ≡ 0) × (r.why ≡ none) in
      if_both P (n == 0) _ _ (refl, refl, refl)
        (Option-known P s.ksid k _ _ known (
          served.all_served,
          rw served.all_served (none_left n _),
          ap (Option.map (failure_text (key_bytes s))) served.none_failed,
        ))
    where
      none_left : (n bits : ℕ) → (n - n) * bits ≡ 0
      none_left n bits = rw (sub_self n) (zero-mul bits)
