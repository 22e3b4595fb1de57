-- ===== src/Paper/Stamps.antt =====
-- The stamps of the cascade of the paper flow simulator (services/webui-frontend/src/lib/sim/paperSim.ts):
-- a stage is stamped exactly when the clock has reached it.
use pqc_qkd_hybrid_network.Base.{
  ℕ, ◌+◌, ◌*◌, ◌≡◌, refl, sym, ap, ◌∙◌, inl, inr, true, some, List, [], ◌∷◌, map, All, leb, arith,
  Bool-cases, Option-split, if◌then◌else◌,
}
use pqc_qkd_hybrid_network.Lab.State.{is_some}
use pqc_qkd_hybrid_network.Paper.State.{
  Layer, qkd, arnika, wireguard, rosenpass, data_layer, Scheduled,
}
use pqc_qkd_hybrid_network.Paper.Fields.{is_reached}
use pqc_qkd_hybrid_network.Paper.Control.{stages_from, cascade_of, stamp}
use pqc_qkd_hybrid_network.Paper.Orderly.{IsStamped}

reached_later : (offset before dt : ℕ) → leb offset before ≡ true → leb offset (before + dt) ≡ true
reached_later offset before dt h = ground arith

-- A stage that is stamped when it is reached stays so as the clock moves on.
stamp-IsStamped :
    (wall before dt : ℕ) (c : Scheduled)
    → IsStamped before c
    → IsStamped (before + dt) (stamp wall (before + dt) c)
stamp-IsStamped wall before dt c h =
    Option-split (λ x. IsStamped (before + dt) x) c.triggered_at
      (if is_reached (before + dt) c then record c { triggered_at = some wall } else c) (λ t. c)
      (λ e. elim (Bool-cases (is_reached (before + dt) c)) [
        | inl now ↦ rw now (sym now)
        | inr later ↦ rw later (ap is_some e ∙ sym later)
      ])
      (λ t e.
        let reached : is_reached before c ≡ true = sym h ∙ ap is_some e in
        ap is_some e ∙ sym (reached_later (1000 * c.offset_s) before dt reached))

pub stamps-AreStamped :
    (wall before dt : ℕ) (cs : List Scheduled)
    → All (IsStamped before) cs
    → All (IsStamped (before + dt)) (map (stamp wall (before + dt)) cs)
stamps-AreStamped wall before dt [] h = tt
stamps-AreStamped wall before dt (c ∷ cs) (h, hs) =
    (stamp-IsStamped wall before dt c h, stamps-AreStamped wall before dt cs hs)

pub cascade_of-AreStamped : (now : ℕ) (l : Layer) → All (IsStamped 0) (cascade_of now l)
unfolding cascade_of stages_from
cascade_of-AreStamped now qkd =
    (refl, (refl, (refl, (refl, (refl, (refl, (refl, (refl, (refl, tt)))))))))
cascade_of-AreStamped now arnika =
    (refl, (refl, (refl, (refl, (refl, (refl, (refl, (refl, tt))))))))
cascade_of-AreStamped now wireguard = (refl, (refl, (refl, (refl, (refl, (refl, (refl, tt)))))))
cascade_of-AreStamped now rosenpass = (refl, (refl, (refl, (refl, (refl, tt)))))
cascade_of-AreStamped now data_layer = (refl, (refl, (refl, tt)))
