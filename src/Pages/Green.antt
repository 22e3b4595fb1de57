-- ===== src/Pages/Green.antt =====
-- What the pages show in green (wgStatusBadge.ts, crosscheckVerdict.ts).
use pqc_qkd_hybrid_network.Base.{
  ℕ, zero, suc, ◌≡◌, ◌↔◌, refl, ap, ◌∙◌, lt→ltb, String, true, Option, none, some, str_eq, eq_iff,
  arith,
}
use pqc_qkd_hybrid_network.Pages.{
  badge_ok, is_positive, status_color, WgBadgeInput, wg_status_badge, Unknown, absent, text, other,
  verdict_display, describe_verdict,
}

is_positive-cases : (o : Option ℕ) → is_positive o ≡ true → (n : ℕ) × (o ≡ some (suc n))
is_positive-cases none e = absurd (cc e)
is_positive-cases (some zero) e = absurd (ground arith)
is_positive-cases (some (suc n)) e = (n, refl)

-- The badge is green exactly when the status is established and the API counts a fresh peer.
pub wg_status_badge_green :
    (s : WgBadgeInput)
    → ((wg_status_badge s).color ≡ badge_ok)
      ↔ (s.status ≡ "established") × ((n : ℕ) × (s.peers_fresh ≡ some (suc n)))
unfolding wg_status_badge status_color
wg_status_badge_green s =
    let known = eq_iff s.status "established" in
    (
      λ e. (ground arith, is_positive-cases s.peers_fresh (ground arith)),
      λ h.
          let (established, (n, fresh)) = h in
          let positive : is_positive s.peers_fresh ≡ true =
            ap is_positive fresh ∙ lt→ltb 0 (suc n) (omega arith) in
          ground arith,
    )

-- A verdict is green exactly when it is the text "agree": no other value of any type is.
pub describe_verdict_green :
    (v : Unknown) → ((describe_verdict v).ok ≡ some true) ↔ (v ≡ text "agree")
unfolding describe_verdict verdict_display
describe_verdict_green absent = (λ e. absurd (cc e), λ e. absurd (cc e))
describe_verdict_green (other s) = (λ e. absurd (cc e), λ e. absurd (cc e))
describe_verdict_green (text s) =
    (λ e. agree s (ground arith), λ e. ground (arith, eq_iff s "agree"))
  where
    agree : (s : String) → str_eq s "agree" ≡ true → text s ≡ text "agree"
    agree s e = ground (arith, eq_iff s "agree")
