-- ===== src/Pages/Tests.antt =====
-- The badge and the verdict of the pages on concrete readings (wgStatusBadge.ts,
-- crosscheckVerdict.ts).
use pqc_qkd_hybrid_network.Base.{◌≡◌, refl, some}
use pqc_qkd_hybrid_network.Pages.{
  badge_ok, badge_warn, status_color, WgBadgeInput, wg_status_badge, text, not_known,
  verdict_display, describe_verdict,
}

-- A peer handshaked, and none within the limit.
abbrev diverged : WgBadgeInput
diverged = record {
  status = "established";
  active_sa = some 1;
  peers_fresh = some 0;
  fresh_within_s = some 180;
}

badge_tests :
    ((wg_status_badge diverged).text ≡ "stale")
    × ((wg_status_badge diverged).color ≡ badge_warn)
    × ((wg_status_badge (record diverged { peers_fresh = some 1 })).color ≡ badge_ok)
    × (describe_verdict (text "toString") ≡ not_known "Unrecognised verdict: toString")
unfolding wg_status_badge status_color describe_verdict verdict_display
badge_tests = (refl, refl, refl, refl)
