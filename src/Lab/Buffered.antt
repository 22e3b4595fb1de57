-- ===== src/Lab/Buffered.antt =====
-- The key store of a service in the protocol lab (protocolLabSim.ts), over a tick.
use Prim.Native.Nat.{Ordering}
use native.Mathlib.Nat.{add-mul}
use pqc_qkd_hybrid_network.Base.{
  ℕ, suc, ◌+◌, ◌-◌, ◌*◌, ◌≤◌, ◌<◌, ◌≡◌, refl, sym, ap, ◌∙◌, ◌⊎◌, inl, inr, String, Option, none,
  some, leb, Option-split, arith, Bool-cases,
}
use pqc_qkd_hybrid_network.Routing.Rank.{RouteChoice}
use pqc_qkd_hybrid_network.Lab.Tick.{Ticked}
use pqc_qkd_hybrid_network.Lab.Choose.{choose_route}
use pqc_qkd_hybrid_network.Lab.Scenario.{BufferRun}
use pqc_qkd_hybrid_network.Lab.State.{
  Sim, Service, Platform, log, note, note_route, note_relay, relay_key,
}
use pqc_qkd_hybrid_network.Lab.Stream.{reroute}
use pqc_qkd_hybrid_network.Lab.Modes.{
  due_keys, served_keys, serve_part, refill_service, refill_fails, refill_part, tick_buffer,
}

-- What a tick makes of a service that has served so many keys, over the route that it ends with: the
-- store holds what is left, above its mark; or what was left has fallen to the mark, and over a
-- route it is filled up, and without one the refill has failed.
pub record IsRefreshed (served : ℕ) (svc after : Service) (route : Option RouteChoice)
    : Type 0 where
  pub left :
      ((svc.refill_at < svc.stored - served)
        × (after.stored ≡ svc.stored - served)
        × (after.refills ≡ svc.refills)
        × (after.failed_refills ≡ svc.failed_refills))
      ⊎ ((svc.stored - served ≤ svc.refill_at)
          × ((r : RouteChoice) × (route ≡ some r))
          × (after.stored ≡ svc.refill_to)
          × (after.refills ≡ suc svc.refills)
          × (after.failed_refills ≡ svc.failed_refills))
      ⊎ ((svc.stored - served ≤ svc.refill_at)
          × (route ≡ none)
          × (after.stored ≡ svc.stored - served)
          × (after.refills ≡ svc.refills)
          × (after.failed_refills ≡ suc svc.failed_refills))
  pub capacity : after.capacity ≡ svc.capacity
  pub refill_at : after.refill_at ≡ svc.refill_at
  pub refill_to : after.refill_to ≡ svc.refill_to

-- The counts that a tick leaves. The keys that were due are the whole keys of the credit and the demand
-- of the tick, and the credit is what is over.
pub record IsAccounted (run : BufferRun) (svc : Service) (before : Sim) (t : Ticked) (due : ℕ)
    (served : ℕ) : Type 0 where
  pub whole : due * 1000 + t.sim.demand_credit ≡ before.demand_credit + run.rate * before.lab.tick_s
  pub credit : t.sim.demand_credit < 1000
  pub in_store : served ≤ svc.stored
  pub all_due : served ≤ due
  pub used_up : (served ≡ due) ⊎ (served ≡ svc.stored)
  pub requests_ok : t.sim.requests_ok ≡ before.requests_ok + served
  pub requests_failed : t.sim.requests_failed + served ≡ before.requests_failed + due
  pub delivered : t.delivered ≡ served * before.lab.key_bits
  pub unmet : t.delivered + t.unmet ≡ due * before.lab.key_bits

-- The counts of the requests.
pub record IsSameCount (before after : Sim) : Type 0 where
  pub credit : after.demand_credit ≡ before.demand_credit
  pub requests_ok : after.requests_ok ≡ before.requests_ok
  pub requests_failed : after.requests_failed ≡ before.requests_failed

module _ (collate : String → String → Ordering) (w : Platform) where
  abbrev Refreshed : ℕ → Service → Sim → Type 0
  Refreshed served svc s =
      (after : Service) × (s.service ≡ some after) × IsRefreshed served svc after s.lab.route

  refill_part-IsRefreshed :
      (served : ℕ) (svc : Service) (s : Sim)
      → let left : Service = record svc { stored = svc.stored - served } in
        s.service ≡ some left
        → Refreshed served svc (refill_part collate w left s)
          × IsSameCount s (refill_part collate w left s)
  unfolding refill_part refill_service refill_fails reroute choose_route log note note_route
      note_relay relay_key
  refill_part-IsRefreshed served svc s e =
      let left : Service = record svc { stored = svc.stored - served } in
      let n = left.refill_to - left.stored in
      elim (Bool-cases (leb left.stored left.refill_at)) [
        | inr above ↦ rw above (
          (
            left,
            e,
            record {
              left = inl (ground arith, refl, refl, refl);
              capacity = refl;
              refill_at = refl;
              refill_to = refl;
            },
          ),
          record { credit = refl; requests_ok = refl; requests_failed = refl },
        )
        | inl low ↦ rw low (
            Option-split (λ t. Refreshed served svc t × IsSameCount s t)
              (choose_route collate s.lab (n * s.lab.key_bits)).route _ _
              (λ gone. (
                (
                  record left { failed_refills = svc.failed_refills + 1 },
                  refl,
                  record {
                    left = inr (inr (ground arith, gone, refl, refl, omega arith));
                    capacity = refl;
                    refill_at = refl;
                    refill_to = refl;
                  },
                ),
                record { credit = refl; requests_ok = refl; requests_failed = refl },
              ))
              (λ r found. (
                (
                  record left { stored = svc.refill_to; refills = svc.refills + 1 },
                  refl,
                  record {
                    left = inr (inl (ground arith, (r, found), refl, omega arith, refl));
                    capacity = refl;
                    refill_at = refl;
                    refill_to = refl;
                  },
                ),
                record { credit = refl; requests_ok = refl; requests_failed = refl },
              )))
      ]

  -- A tick of a run with a service serves the keys that are due, which are the whole keys of the credit
  -- and the demand of the tick, as far as the store goes, counts the rest as failed and unmet, and
  -- carries the credit that is over. What is left stays where it is above the mark; where it has
  -- fallen to the mark, the store is filled up if there is a route, with one more refill, and if
  -- there is none one more refill has failed.
  pub tick_buffer-IsRefreshed :
      (run : BufferRun) (svc : Service) (s : Sim)
      → let t = tick_buffer collate w run svc s in
        (due : ℕ) × (served : ℕ) × Refreshed served svc t.sim × IsAccounted run svc s t due served
  unfolding tick_buffer serve_part note
  tick_buffer-IsRefreshed run svc s =
      let (refreshed, counts) =
        refill_part-IsRefreshed (served_keys run svc s) svc (serve_part run svc s) refl in
      let whole = s.demand_credit + run.rate * s.lab.tick_s in
      (
        due_keys run s,
        served_keys run svc s,
        refreshed,
        record {
          whole = omega (arith, counts.credit);
          credit = omega (arith, counts.credit);
          in_store = omega arith;
          all_due = omega arith;
          used_up = ground arith;
          requests_ok = counts.requests_ok;
          requests_failed = omega (arith, counts.requests_failed);
          delivered = refl;
          unmet = shared (due_keys run s) (served_keys run svc s) s.lab.key_bits (omega arith);
        },
      )
    where
      shared : (due served k : ℕ) → served ≤ due → served * k + (due - served) * k ≡ due * k
      shared due served k le =
          sym (add-mul served (due - served) k) ∙ ap (λ n. n * k) (omega (arith, le))
