-- ===== src/Prelude/Sort.antt =====
-- Python's `sorted`: a stable sort, here by insertion. `le a b` tests that the key of `a` is at most
-- that of `b`.
use Prim.Native.Nat.{◌+◌}
use mathlib.Core.Path.{◌≡◌, refl}
use mathlib.Core.Logic.{inl, inr}
use mathlib.Core.Bool.{Bool, true, false}
use mathlib.Core.List.{List, [], ◌∷◌}
use native.Mathlib.Omega.{arith}
use hermes_agent_cluster.Prelude.Tests.{if◌then◌else◌, to_ℕ, Bool-cases}
use hermes_agent_cluster.Prelude.Lists.{All, All-map, All-keep, count, keep}

module _ {ℓ} {A : Type ℓ} (le : A → A → Bool) where
  unfoldable pub insert_sorted : A → List A → List A
  insert_sorted x [] = x ∷ []
  insert_sorted x (y ∷ ys) = if le x y then x ∷ y ∷ ys else y ∷ insert_sorted x ys

  unfoldable pub sorted : List A → List A
  unfolding insert_sorted
  sorted [] = []
  sorted (x ∷ xs) = insert_sorted x (sorted xs)

  count-insert_sorted :
      (p : A → Bool) (x : A) (ys : List A) → count p (insert_sorted x ys) ≡ to_ℕ (p x) + count p ys
  unfolding insert_sorted count
  count-insert_sorted p x [] = refl
  count-insert_sorted p x (y ∷ ys) = ground (arith, count-insert_sorted p x ys)

  -- Sorting keeps every element, as often as it was there.
  pub count-sorted : (p : A → Bool) (xs : List A) → count p (sorted xs) ≡ count p xs
  unfolding sorted count
  count-sorted p [] = refl
  count-sorted p (x ∷ xs) = ground (arith, count-insert_sorted p x (sorted xs), count-sorted p xs)

  All-insert_sorted {κ} :
      (P : A → Type κ) (x : A) (ys : List A) → P x → All P ys → All P (insert_sorted x ys)
  unfolding insert_sorted
  All-insert_sorted P x [] hx h = (hx, tt)
  All-insert_sorted P x (y ∷ ys) hx h = ground (arith, All-insert_sorted P x ys hx h.1)

  pub All-sorted {κ} : (P : A → Type κ) (xs : List A) → All P xs → All P (sorted xs)
  unfolding sorted
  All-sorted P [] h = tt
  All-sorted P (x ∷ xs) h = All-insert_sorted P x (sorted xs) h.0 (All-sorted P xs h.1)

  -- Each element's key is at most those of all behind it.
  abbrev pub IsSorted : List A → Type ℓ
  IsSorted [] = Unit
  IsSorted (x ∷ xs) = All (λ y. le x y ≡ true) xs × IsSorted xs

  module _ (total : (x y : A) → le x y ≡ false → le y x ≡ true)
      (trans : (x y z : A) → le x y ≡ true → le y z ≡ true → le x z ≡ true) where
    insert_sorted-IsSorted : (x : A) (ys : List A) → IsSorted ys → IsSorted (insert_sorted x ys)
    unfolding insert_sorted
    insert_sorted-IsSorted x [] h = (tt, tt)
    insert_sorted-IsSorted x (y ∷ ys) h = elim (Bool-cases (le x y)) [
      | inl e ↦ rw e ((e, All-map {P = λ z. le y z ≡ true} (λ z. trans x y z e) ys h.0), h)
      | inr e ↦ rw e (
        All-insert_sorted (λ z. le y z ≡ true) x ys (total x y e) h.0,
        insert_sorted-IsSorted x ys h.1,
      )
    ]

    pub sorted-IsSorted : (xs : List A) → IsSorted (sorted xs)
    unfolding sorted
    sorted-IsSorted [] = tt
    sorted-IsSorted (x ∷ xs) = insert_sorted-IsSorted x (sorted xs) (sorted-IsSorted xs)

    insert_sorted-least :
        (x : A) (ys : List A) → All (λ y. le x y ≡ true) ys → insert_sorted x ys ≡ x ∷ ys
    unfolding insert_sorted
    insert_sorted-least x [] h = refl
    insert_sorted-least x (y ∷ ys) h = rw h.0 refl

    keep-insert_sorted :
        (p : A → Bool) (x : A) (ys : List A)
        → IsSorted ys
        → keep p (insert_sorted x ys) ≡ (if p x then insert_sorted x (keep p ys) else keep p ys)
    unfolding insert_sorted keep
    keep-insert_sorted p x [] h = refl
    keep-insert_sorted p x (y ∷ ys) h = elim (Bool-cases (le x y)) [
      | inl e ↦
          let least : All (λ z. le x z ≡ true) (y ∷ ys) =
            (e, All-map {P = λ z. le y z ≡ true} (λ z. trans x y z e) ys h.0) in
          let front =
            insert_sorted-least x (keep p (y ∷ ys))
              (All-keep (λ z. le x z ≡ true) p (y ∷ ys) least) in
          rw e (rw front refl)
      | inr e ↦
          let rest = keep-insert_sorted p x ys h.1 in
          rw (e, rest)
            (elim (Bool-cases (p y)) [
              | inl on ↦ elim (Bool-cases (p x)) [
                | inl f ↦ rw (on, f, e) refl
                | inr f ↦ rw (on, f) refl
              ]
              | inr off ↦ rw off refl
            ])
    ]

    -- Sorting what a filter keeps is filtering what was sorted.
    pub keep-sorted : (p : A → Bool) (xs : List A) → keep p (sorted xs) ≡ sorted (keep p xs)
    unfolding sorted keep
    keep-sorted p [] = refl
    keep-sorted p (x ∷ xs) =
        rw (keep-insert_sorted p x (sorted xs) (sorted-IsSorted xs), keep-sorted p xs)
          (elim (Bool-cases (p x)) [ inl on ↦ rw on refl | inr off ↦ rw off refl ])
