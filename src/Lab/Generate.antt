-- ===== src/Lab/Generate.antt =====
-- `generateKeys` of the protocol lab (services/webui-frontend/src/lib/sim/protocolLabSim.ts). Credit
-- is kept in thousandths of a bit where the source keeps it in keys, so that nothing is rounded.
use mathlib.Core.Option
use pqc_qkd_hybrid_network.Base.{
  ℕ, ◌+◌, ◌-◌, ◌*◌, ◌/◌, ◌≤◌, ◌≡◌, refl, sym, ap, subst, ◌∙◌, inl, inr, min, String, Bool, true,
  false, not, ◌||◌, none, some, List, [], ◌∷◌, All, leb, ltb, if◌then◌else◌, arith, Bool-cases,
  Option-cases,
}
use pqc_qkd_hybrid_network.Base.Dict.{lookup, insert}
use pqc_qkd_hybrid_network.Lab.Links.{LinkKind, qkd_link, keystore_link, LinkState}

-- The parameters of the bundled configuration.
pub record Params : Type 0 where
  pub key_bits : ℕ
  pub low_watermark : ℕ
  pub max_keys : ℕ

abbrev pub is_qkd : LinkKind → Bool
is_qkd qkd_link = true
is_qkd keystore_link = false

pub record Generated : Type 0 where
  pub links : List LinkState
  pub credit : List (String × ℕ)
  pub keys : ℕ
  pub link_count : ℕ

module _ (p : Params) where
  -- Keys made from a credit, with what is stored. The differences of the source are exact here while the
  -- store is within its bounds (IsWithin), which every tick keeps.
  unfoldable pub made_of : ℕ → ℕ → ℕ
  made_of credit stored =
      min (credit / (p.key_bits * 1000)) (min (p.low_watermark - stored) (p.max_keys - stored))

  -- The credit after a tick: none is banked once the watermark is reached.
  unfoldable pub credit_left : ℕ → ℕ → ℕ
  unfolding made_of
  credit_left credit stored =
      let made = made_of credit stored in
      if leb p.low_watermark (stored + made) then 0 else credit - made * (p.key_bits * 1000)

  -- One link that generates, at a rate, with what it stores.
  unfoldable pub generate_on :
      (tick_s : ℕ)
      → LinkState
      → (gen stored : ℕ) → List (String × ℕ)
      → LinkState × List (String × ℕ) × ℕ
  unfolding made_of credit_left
  generate_on tick_s l gen stored credit =
      let banked = Option.get_or (lookup l.id credit) 0 + gen * tick_s in
      if leb p.low_watermark stored then (l, insert l.id 0 credit, 0) else (
        record l { stored_keys = some (stored + made_of banked stored) },
        insert l.id (credit_left banked stored) credit,
        made_of banked stored,
      )

  -- One link: those that are down, have no rate or count no keys are passed over.
  unfoldable pub generate_link :
      (tick_s : ℕ) → LinkState → List (String × ℕ) → LinkState × List (String × ℕ) × ℕ
  unfolding generate_on
  generate_link tick_s l credit =
      if not (is_qkd l.kind) || l.down then (l, credit, 0) else elim l.gen_bps [
        | none ↦ (l, credit, 0)
        | some gen ↦ elim l.stored_keys [
          | none ↦ (l, credit, 0)
          | some stored ↦ generate_on tick_s l gen stored credit
        ]
      ]

  unfoldable pub generate_keys : (tick_s : ℕ) → List LinkState → List (String × ℕ) → Generated
  unfolding generate_link
  generate_keys tick_s [] credit = record { links = []; credit = credit; keys = 0; link_count = 0 }
  generate_keys tick_s (l ∷ ls) credit =
      let (l', credit', made) = generate_link tick_s l credit in
      let rest = generate_keys tick_s ls credit' in
      record {
        links = l' ∷ rest.links;
        credit = rest.credit;
        keys = made + rest.keys;
        link_count = (if ltb 0 made then 1 else 0) + rest.link_count;
      }

-- The keys of all links, those that count none as none.
unfoldable pub stored_total : List LinkState → ℕ
stored_total [] = 0
stored_total (l ∷ ls) = Option.get_or l.stored_keys 0 + stored_total ls

-- The hard bounds of a link's store.
abbrev pub IsWithin : Params → LinkState → Type 0
IsWithin p l = Option.get_or l.stored_keys 0 ≤ min p.low_watermark p.max_keys

module _ (p : Params) (tick_s : ℕ) where
  -- What a link gains is what was made, within its bounds.
  abbrev IsGain : LinkState → LinkState × List (String × ℕ) × ℕ → Type 0
  IsGain l r =
      (Option.get_or r.0.stored_keys 0 ≡ Option.get_or l.stored_keys 0 + r.2)
      × (IsWithin p l → IsWithin p r.0)
      × (l.down ≡ true → r.2 ≡ 0)

  nothing-IsGain : (l : LinkState) (credit : List (String × ℕ)) → IsGain l (l, credit, 0)
  nothing-IsGain l credit = (omega arith, λ h. h, λ _. refl)

  generate_on-IsGain :
      (l : LinkState) (gen stored : ℕ) (credit : List (String × ℕ))
      → l.stored_keys ≡ some stored
      → l.down ≡ false
      → IsGain l (generate_on p tick_s l gen stored credit)
  unfolding generate_on made_of
  generate_on-IsGain l gen stored credit has up =
      let have : Option.get_or l.stored_keys 0 ≡ stored = ap (λ o. Option.get_or o 0) has in
      elim (Bool-cases (leb p.low_watermark stored)) [
        | inl full ↦ rw full (nothing-IsGain l (insert l.id 0 credit))
        | inr room ↦ rw room (rw have (refl, λ h. ground arith, λ d. absurd (cc (sym up ∙ d))))
      ]

  generate_link-on :
      (l : LinkState) (credit : List (String × ℕ)) (gen stored : ℕ)
      → (not (is_qkd l.kind) || l.down) ≡ false
      → l.gen_bps ≡ some gen
      → l.stored_keys ≡ some stored
      → generate_link p tick_s l credit ≡ generate_on p tick_s l gen stored credit
  unfolding generate_link
  generate_link-on l credit gen stored on rate has = simp (on, rate, has) refl

  generate_link-IsGain :
      (l : LinkState) (credit : List (String × ℕ)) → IsGain l (generate_link p tick_s l credit)
  unfolding generate_link
  generate_link-IsGain l credit = elim (Bool-cases (not (is_qkd l.kind) || l.down)) [
    | inl off ↦ rw off (nothing-IsGain l credit)
    | inr on ↦ elim (Option-cases l.gen_bps) [
      | inl no_rate ↦ rw (on, no_rate) (nothing-IsGain l credit)
      | inr (gen, rate) ↦ elim (Option-cases l.stored_keys) [
        | inl uncounted ↦
            let e : Option.get_or l.stored_keys 0 ≡ 0 = ap (λ o. Option.get_or o 0) uncounted in
            rw (on, rate, uncounted) (e, λ h. omega arith, λ _. refl)
        | inr (stored, has) ↦
            subst (IsGain l) (sym (generate_link-on l credit gen stored on rate has))
              (generate_on-IsGain l gen stored credit has (ground arith))
      ]
    ]
  ]

  -- A tick of generation keeps every store within the low watermark and the hard bound, and what it
  -- reports as made is what the stores hold more than before, on no more links than keys.
  pub generate_keys_bounds :
      (ls : List LinkState) (credit : List (String × ℕ))
      → All (IsWithin p) ls
      → let r = generate_keys p tick_s ls credit in
        All (IsWithin p) r.links
        × (stored_total r.links ≡ stored_total ls + r.keys)
        × (r.link_count ≤ r.keys)
  unfolding generate_keys stored_total
  generate_keys_bounds [] credit a = (tt, refl, omega arith)
  generate_keys_bounds (l ∷ ls) credit a =
      let g = generate_link p tick_s l credit in
      let (gain, within, _) = generate_link-IsGain l credit in
      let (rest, total, count) = generate_keys_bounds ls g.1 a.1 in
      ((within a.0, rest), omega arith, ground arith)
