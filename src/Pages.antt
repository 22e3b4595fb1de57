-- ===== src/Pages.antt =====
-- The badge of a WireGuard interface and the verdict of the key-rate cross-check as the pages show
-- them: services/webui-frontend/src/pages/wgStatusBadge.ts and crosscheckVerdict.ts. The sentences of
-- tooltips and details are constructors.
use Prim.Native.String.{◌++◌ as str_append}
use pqc_qkd_hybrid_network.Base.{
  ℕ, zero, suc, String, Bool, true, false, ◌&&◌, ◌||◌, Option, none, some, str_eq, ltb,
  if◌then◌else◌,
}
pub mod Green
mod Tests

-- The colours of the badges, by what they mean.
pub data Color : Type 0 where
  badge_ok badge_warn badge_fault badge_neutral : Color

unfoldable pub status_color : String → Color
status_color s =
    if str_eq s "established"
    then badge_ok
    else if str_eq s "running" || (str_eq s "restarting" || str_eq s "rekeying")
    then badge_warn
    else if str_eq s "stopped" || (str_eq s "down" || str_eq s "error")
    then badge_fault
    else badge_neutral

-- A field that is absent is none, as one that is null.
pub record WgBadgeInput : Type 0 where
  pub status : String
  pub active_sa : Option ℕ
  pub peers_fresh : Option ℕ
  pub fresh_within_s : Option ℕ

-- The sentence with the limit that the API gives.
pub data Title : Type 0 where
  a_peer_is_fresh every_peer_is_old : (limit : Option ℕ) → Title
  age_unknown : Title

pub record BadgeView : Type 0 where
  pub text : String
  pub color : Color
  pub title : Option Title

-- The given count is positive.
abbrev pub is_positive : Option ℕ → Bool
is_positive none = false
is_positive (some n) = ltb 0 n

-- The given count is 0.
abbrev pub is_zero : Option ℕ → Bool
is_zero (some zero) = true
is_zero _ = false

unfoldable pub wg_status_badge : WgBadgeInput → BadgeView
unfolding status_color
wg_status_badge s =
    if str_eq s.status "established"
    then if is_positive s.peers_fresh
      then record {
        text = "established";
        color = badge_ok;
        title = some (a_peer_is_fresh s.fresh_within_s);
      }
      else if is_zero s.peers_fresh && is_positive s.active_sa
      then record {
        text = "stale";
        color = badge_warn;
        title = some (every_peer_is_old s.fresh_within_s);
      }
      else record { text = "handshaked"; color = badge_neutral; title = some age_unknown }
    else record { text = s.status; color = status_color s.status; title = none }

-- One constructor for each detail of a verdict, and the one of a verdict that is not known.
pub data VerdictDetail : Type 0 where
  both_within both_apart both_zero one_zero no_engine not_measured : VerdictDetail

-- `ok` is true for green, false for amber, none for neutral.
pub record VerdictDisplay : Type 0 where
  pub label : String
  pub ok : Option Bool
  pub detail : VerdictDetail

-- The own property of the table that has the name, if there is one.
unfoldable pub verdict_display : String → Option VerdictDisplay
verdict_display v =
    if str_eq v "agree"
    then some (record { label = "YES (rates within 10x)"; ok = some true; detail = both_within })
    else if str_eq v "disagree"
    then some (record {
      label = "NO (rates differ by more than 10x)";
      ok = some false;
      detail = both_apart;
    })
    else if str_eq v "neither_predicts_a_key"
    then some (record { label = "Both predict no extractable key"; ok = none; detail = both_zero })
    else if str_eq v "one_side_zero"
    then some
        (record { label = "Not comparable (one side is zero)"; ok = some false; detail = one_zero })
    else if str_eq v "engine_unavailable"
    then some (record { label = "Not run (TNO engine unavailable)"; ok = none; detail = no_engine })
    else none

-- A value of any type: null or undefined, a text, or another one with what `String(v)` says of it.
pub data Unknown : Type 0 where
  absent : Unknown
  text other : String → Unknown

abbrev pub not_known : String → VerdictDisplay
not_known label = record { label = label; ok = none; detail = not_measured }

unfoldable pub describe_verdict : Unknown → VerdictDisplay
unfolding verdict_display
describe_verdict absent = not_known "Not reported"
describe_verdict (other s) = not_known (str_append "Unrecognised verdict: " s)
describe_verdict (text s) = elim (verdict_display s) [
  | some display ↦ display
  | none ↦ not_known (str_append "Unrecognised verdict: " s)
]
