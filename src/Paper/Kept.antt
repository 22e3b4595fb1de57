-- ===== src/Paper/Kept.antt =====
-- The controls of the paper flow simulator (services/webui-frontend/src/lib/sim/paperSim.ts) and its cascade
-- keep its state orderly.
use pqc_qkd_hybrid_network.Base.{
  ℕ, ◌-◌, ◌≤◌, ◌≡◌, refl, sym, ap, ◌∙◌, false, some, leb, arith, if_both, Option-both, Option-split,
}
use pqc_qkd_hybrid_network.Base.Int.{ℤ, pos, negsuc}
use pqc_qkd_hybrid_network.E2e.State.{Status, stepped, paused}
use pqc_qkd_hybrid_network.E2e.Crypto.{World}
use pqc_qkd_hybrid_network.E2e.Fields.{is_running}
use pqc_qkd_hybrid_network.E2e.Sim.{is_paused}
use pqc_qkd_hybrid_network.Lab.State.{is_some}
use pqc_qkd_hybrid_network.Paper.State.{
  Layer, cascade_emit_ms, did_run, did_pause, did_resume, did_reset, did_step, did_clear,
  did_set_hops, did_inject,
}
use pqc_qkd_hybrid_network.Paper.Fields.{Sim, initial, record_action, emit}
use pqc_qkd_hybrid_network.Paper.Control.{
  set_status, start, pause, resume, reset, clamp_hops, set_hop_count, inject_failure, clear_failure,
  advance_cascade, relabel, tick_cascade, emit_cascade,
}
use pqc_qkd_hybrid_network.Paper.Orderly.{
  Keyed-home, IsOrderly, record_action-IsOrderly, set_going-IsOrderly,
}
use pqc_qkd_hybrid_network.Paper.Moved.{control}
use pqc_qkd_hybrid_network.Paper.Stamps.{stamps-AreStamped, cascade_of-AreStamped}

-- A stop of the timer, with a status that is not running.
pub rests-IsOrderly :
    (status : Status) (s : Sim)
    → is_running status ≡ false
    → IsOrderly s
    → IsOrderly (record s { status = status; has_timer = false })
rests-IsOrderly status s rests h = record {
  is_ready = record {
    exists = h.is_ready.exists;
    keyed = h.is_ready.keyed;
    going = λ e. absurd (cc (sym rests ∙ e));
    timed = λ e. absurd (cc e);
  };
  is_bounded = h.is_bounded;
  is_stamped = h.is_stamped;
}

clamp_hops-bounds : (n : ℤ) → (1 ≤ clamp_hops n) × (clamp_hops n ≤ 8)
unfolding clamp_hops
clamp_hops-bounds (pos n) = (omega arith, omega arith)
clamp_hops-bounds (negsuc n) = (omega arith, omega arith)

module _ (w : World) where
  pub start-IsOrderly : (s : Sim) → IsOrderly s → IsOrderly (start w s)
  unfolding start
  start-IsOrderly s h =
      set_going-IsOrderly w (record_action w did_run s) (record_action-IsOrderly w did_run s h)

  pub resume-IsOrderly : (s : Sim) → IsOrderly s → IsOrderly (resume w s)
  unfolding resume
  resume-IsOrderly s h =
      set_going-IsOrderly w (record_action w did_resume s)
        (record_action-IsOrderly w did_resume s h)

  pub pause-IsOrderly : (s : Sim) → IsOrderly s → IsOrderly (pause w s)
  unfolding pause
  pause-IsOrderly s h =
      rests-IsOrderly paused (record_action w did_pause s) refl
        (record_action-IsOrderly w did_pause s h)

  pub inject_failure-IsOrderly :
      (l : Layer) (s : Sim) → IsOrderly s → IsOrderly (inject_failure w l s)
  unfolding inject_failure
  inject_failure-IsOrderly l s h =
      let r = record_action-IsOrderly w (did_inject l) s h in
      record {
        is_ready = r.is_ready;
        is_bounded = r.is_bounded;
        is_stamped = record {
          stamps = cascade_of-AreStamped w.date_now l;
          at_rest = λ e. absurd (cc e);
        };
      }

  pub clear_failure-IsOrderly : (s : Sim) → IsOrderly s → IsOrderly (clear_failure w s)
  unfolding clear_failure
  clear_failure-IsOrderly s h =
      let r = record_action-IsOrderly w did_clear s h in
      record {
        is_ready = r.is_ready;
        is_bounded = r.is_bounded;
        is_stamped = record { stamps = tt; at_rest = λ e. (refl, refl) };
      }

  pub set_hop_count-IsOrderly : (n : ℤ) (s : Sim) → IsOrderly s → IsOrderly (set_hop_count w n s)
  unfolding set_hop_count record_action
  set_hop_count-IsOrderly n s h =
      let r = record_action-IsOrderly w (did_set_hops (clamp_hops n)) s h in
      record {
        is_ready = r.is_ready;
        is_bounded = record {
          hops = clamp_hops-bounds n;
          cycles_fit = r.is_bounded.cycles_fit;
          history_fits = r.is_bounded.history_fits;
          actions_fit = r.is_bounded.actions_fit;
        };
        is_stamped = r.is_stamped;
      }

  pub reset-IsOrderly : (s : Sim) → IsOrderly s → IsOrderly (reset w s)
  unfolding reset
  reset-IsOrderly s h =
      record_action-IsOrderly w did_reset
        (record initial {
          hop = s.hop;
          last_tick_at = s.last_tick_at;
          last_cascade_emit = s.last_cascade_emit;
          phase_start = s.phase_start;
          shown = s.shown;
        })
        (record {
          is_ready = record {
            exists = omega arith;
            keyed = Keyed-home false false;
            going = λ e. absurd (cc e);
            timed = λ e. absurd (cc e);
          };
          is_bounded = record {
            hops = h.is_bounded.hops;
            cycles_fit = omega arith;
            history_fits = record { below = omega arith; counted = omega arith };
            actions_fit = record { below = omega arith; counted = omega arith };
          };
          is_stamped = record { stamps = tt; at_rest = λ e. (refl, refl) };
        })

  advance_cascade-IsOrderly :
      (dt : ℕ) (s : Sim) (l : Layer)
      → s.fail_layer ≡ some l
      → IsOrderly s
      → IsOrderly (advance_cascade w dt s)
  unfolding advance_cascade
  advance_cascade-IsOrderly dt s l failed h = record {
    is_ready = h.is_ready;
    is_bounded = h.is_bounded;
    is_stamped = record {
      stamps = stamps-AreStamped w.date_now s.cascade_elapsed_ms dt s.cascade h.is_stamped.stamps;
      at_rest = λ e. absurd (cc (sym (ap is_some failed) ∙ e));
    };
  }

  pub tick_cascade-IsOrderly : (s : Sim) → IsOrderly s → IsOrderly (tick_cascade w s)
  unfolding tick_cascade
  tick_cascade-IsOrderly s h =
      Option-split IsOrderly s.fail_layer s _ (λ e. h)
        (λ l failed.
          Option-both IsOrderly s.last_tick_at s (λ t. advance_cascade w (w.performance_now - t) s)
            h (λ t. advance_cascade-IsOrderly (w.performance_now - t) s l failed h))

  pub tick_cascade-control : (s : Sim) → control (tick_cascade w s) ≡ control s
  unfolding tick_cascade advance_cascade
  tick_cascade-control s =
      Option-both (λ t. control t ≡ control s) s.fail_layer s _ refl
        (λ l.
          Option-both (λ t. control t ≡ control s) s.last_tick_at s
            (λ t. advance_cascade w (w.performance_now - t) s) refl (λ t. refl))

  pub emit_cascade-IsOrderly : (s : Sim) → IsOrderly s → IsOrderly (emit_cascade w s)
  unfolding emit_cascade
  emit_cascade-IsOrderly s h = Option-both IsOrderly s.fail_layer s _ h (λ l.
      if_both IsOrderly (leb cascade_emit_ms (w.performance_now - s.last_cascade_emit))
        (emit (record s { last_cascade_emit = w.performance_now })) s h h)

  -- A step begins where the run rests.
  pub begun-IsOrderly :
      (s : Sim)
      → is_running s.status ≡ false
      → IsOrderly s
      → IsOrderly (set_status stepped (record_action w did_step s))
  unfolding record_action
  begun-IsOrderly s rests h =
      let r = record_action-IsOrderly w did_step s h in
      record {
        is_ready = record {
          exists = r.is_ready.exists;
          keyed = r.is_ready.keyed;
          going = λ e. absurd (cc e);
          timed = λ e. absurd (cc (sym rests ∙ r.is_ready.timed e));
        };
        is_bounded = r.is_bounded;
        is_stamped = r.is_stamped;
      }

  pub relabel-IsOrderly :
      (before : Status) (s : Sim) → s.has_timer ≡ false → IsOrderly s → IsOrderly (relabel before s)
  relabel-IsOrderly before s off h =
      if_both IsOrderly (is_paused before) (set_status paused s) s
        (record {
          is_ready = record {
            exists = h.is_ready.exists;
            keyed = h.is_ready.keyed;
            going = λ e. absurd (cc e);
            timed = λ e. absurd (cc (sym off ∙ e));
          };
          is_bounded = h.is_bounded;
          is_stamped = h.is_stamped;
        })
        h
