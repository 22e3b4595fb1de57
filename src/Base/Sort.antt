-- ===== src/Base/Sort.antt =====
-- `[...xs].sort(compare)` of JavaScript, which is stable: insertion of each element before the first
-- one that it does not follow. `goes a b` says that `compare(a, b) <= 0`.
use mathlib.Core.Path.{◌≡◌}
use mathlib.Core.Logic.{◌⊎◌, inl, inr}
use mathlib.Core.Bool.{Bool, true}
use mathlib.Core.List.{List, [], ◌∷◌, Perm}
use mathlib.Core.List.Perm
use native.Mathlib.Omega.{arith}
use pqc_qkd_hybrid_network.Base.Tests.{if◌then◌else◌, Bool-cases}
use pqc_qkd_hybrid_network.Base.Lists.{All}

-- A comparison that is total and transitive, as `sort` asks for.
pub record IsPreorder {ℓ} {A : Type ℓ} (goes : A → A → Bool) : Type ℓ where
  pub total : (a b : A) → (goes a b ≡ true) ⊎ (goes b a ≡ true)
  pub trans : (a b c : A) → goes a b ≡ true → goes b c ≡ true → goes a c ≡ true

module _ {ℓ} {A : Type ℓ} (goes : A → A → Bool) where
  unfoldable pub insert_sorted : A → List A → List A
  insert_sorted x [] = x ∷ []
  insert_sorted x (y ∷ ys) = if goes x y then x ∷ y ∷ ys else y ∷ insert_sorted x ys

  unfoldable pub sort : List A → List A
  unfolding insert_sorted
  sort [] = []
  sort (x ∷ xs) = insert_sorted x (sort xs)

  insert_sorted-perm : (x : A) (ys : List A) → Perm (insert_sorted x ys) (x ∷ ys)
  unfolding insert_sorted
  insert_sorted-perm x [] = Perm.refl (x ∷ [])
  insert_sorted-perm x (y ∷ ys) = elim (Bool-cases (goes x y)) [
    | inl first ↦ rw first (Perm.refl (x ∷ y ∷ ys))
    | inr later ↦ rw later (Perm.trans (Perm.cons y (insert_sorted-perm x ys)) (Perm.swap x y ys))
  ]

  pub sort-perm : (xs : List A) → Perm (sort xs) xs
  unfolding sort
  sort-perm [] = Perm.refl []
  sort-perm (x ∷ xs) = Perm.trans (insert_sorted-perm x (sort xs)) (Perm.cons x (sort-perm xs))

  -- Each element goes before all that follow it.
  abbrev pub IsSorted : List A → Type ℓ
  IsSorted [] = Unit
  IsSorted (x ∷ xs) = All (λ y. goes x y ≡ true) xs × IsSorted xs

  -- A predicate at every element holds at every element of the sorted list.
  insert_sorted-All {κ} :
      (P : A → Type κ) (x : A) (ys : List A) → P x → All P ys → All P (insert_sorted x ys)
  unfolding insert_sorted
  insert_sorted-All P x [] p h = (p, tt)
  insert_sorted-All P x (y ∷ ys) p h = elim (Bool-cases (goes x y)) [
    | inl first ↦ rw first (p, h)
    | inr later ↦ rw later (h.0, insert_sorted-All P x ys p h.1)
  ]

  pub sort-All {κ} : (P : A → Type κ) (xs : List A) → All P xs → All P (sort xs)
  unfolding sort
  sort-All P [] h = tt
  sort-All P (x ∷ xs) h = insert_sorted-All P x (sort xs) h.0 (sort-All P xs h.1)

  insert_sorted-All_inv {κ} :
      (P : A → Type κ) (x : A) (ys : List A) → All P (insert_sorted x ys) → P x × All P ys
  unfolding insert_sorted
  insert_sorted-All_inv P x [] h = h
  insert_sorted-All_inv P x (y ∷ ys) h = elim (Bool-cases (goes x y)) [
    | inl first ↦ rw first at h
    | inr later ↦
        let h' = rw later at h in let (p, q) = insert_sorted-All_inv P x ys h'.1 in (p, (h'.0, q))
  ]

  pub sort-All_inv {κ} : (P : A → Type κ) (xs : List A) → All P (sort xs) → All P xs
  unfolding sort
  sort-All_inv P [] h = tt
  sort-All_inv P (x ∷ xs) h =
      let (p, q) = insert_sorted-All_inv P x (sort xs) h in (p, sort-All_inv P xs q)

  module _ (order : IsPreorder goes) where
    above :
        (x y : A) (ys : List A)
        → goes x y ≡ true
        → All (λ z. goes y z ≡ true) ys
        → All (λ z. goes x z ≡ true) ys
    above x y [] h a = tt
    above x y (z ∷ zs) h a = (order.trans x y z h a.0, above x y zs h a.1)

    insert_sorted-IsSorted : (x : A) (ys : List A) → IsSorted ys → IsSorted (insert_sorted x ys)
    unfolding insert_sorted
    insert_sorted-IsSorted x [] s = (tt, tt)
    insert_sorted-IsSorted x (y ∷ ys) s = elim (Bool-cases (goes x y)) [
      | inl first ↦ rw first ((first, above x y ys first s.0), s)
      | inr later ↦ rw later (
        insert_sorted-All (λ z. goes y z ≡ true) x ys
            (elim (order.total x y) [ inl e ↦ absurd (ground arith) | inr e ↦ e ]) s.0,
        insert_sorted-IsSorted x ys s.1,
      )
    ]

    pub sort-IsSorted : (xs : List A) → IsSorted (sort xs)
    unfolding sort
    sort-IsSorted [] = tt
    sort-IsSorted (x ∷ xs) = insert_sorted-IsSorted x (sort xs) (sort-IsSorted xs)
