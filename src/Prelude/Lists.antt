-- ===== src/Prelude/Lists.antt =====
-- Lists: Boolean filters, counts and membership, and predicates by recursion.
use Prim.Native.Nat.{ℕ, zero, suc, ◌+◌, ◌-◌, ◌≤◌}
use Prim.Native.String.{String}
use mathlib.Core.Path.{◌≡◌, refl}
use mathlib.Core.Bool.{Bool, true, false, ◌&&◌, ◌||◌}
use mathlib.Core.List.{List, [], ◌∷◌, ◌++◌}
use native.Mathlib.Omega.{arith}
use text.Mathlib.Text.{◌==◌}
use hermes_agent_cluster.Prelude.Tests.{if◌then◌else◌, to_ℕ, Bool-cases}
use mathlib.Core.Logic.{inl, inr}

module _ {ℓ} {A : Type ℓ} where
  abbrev pub length : List A → ℕ
  length [] = 0
  length (x ∷ xs) = suc (length xs)

  abbrev pub All {κ} : (A → Type κ) → List A → Type κ
  All P [] = Unit
  All P (x ∷ xs) = P x × All P xs

  -- `xs[n:]`
  abbrev pub drop : ℕ → List A → List A
  drop zero xs = xs
  drop (suc n) [] = []
  drop (suc n) (x ∷ xs) = drop n xs

  pub length-drop : (n : ℕ) (xs : List A) → length (drop n xs) ≡ length xs - n
  length-drop zero xs = omega arith
  length-drop (suc n) [] = omega arith
  length-drop (suc n) (x ∷ xs) = omega (arith, length-drop n xs)

  -- `x` is an entry of the list.
  pub data In (x : A) : List A → Type ℓ where
    head : {ys : List A} → In x (x ∷ ys)
    further : {y : A} {ys : List A} → In x ys → In x (y ∷ ys)

  -- `xs[1:]`
  abbrev pub tail : List A → List A
  tail [] = []
  tail (x ∷ xs) = xs

  -- `[x for x in xs if p(x)]`
  unfoldable pub keep : (A → Bool) → List A → List A
  keep p [] = []
  keep p (x ∷ xs) = if p x then x ∷ keep p xs else keep p xs

  -- `sum(1 for x in xs if p(x))`
  unfoldable pub count : (A → Bool) → List A → ℕ
  count p [] = 0
  count p (x ∷ xs) = to_ℕ (p x) + count p xs

  -- `all(p(x) for x in xs)`
  unfoldable pub all_of : (A → Bool) → List A → Bool
  all_of p [] = true
  all_of p (x ∷ xs) = p x && all_of p xs

  pub length-append : (xs ys : List A) → length (xs ++ ys) ≡ length xs + length ys
  length-append [] ys = omega arith
  length-append (x ∷ xs) ys = omega (arith, length-append xs ys)

  pub All-append {κ} : (P : A → Type κ) (xs ys : List A) → All P xs → All P ys → All P (xs ++ ys)
  All-append P [] ys hx hy = hy
  All-append P (x ∷ xs) ys hx hy = (hx.0, All-append P xs ys hx.1 hy)

  pub All-keep {κ} : (P : A → Type κ) (p : A → Bool) (xs : List A) → All P xs → All P (keep p xs)
  unfolding keep
  All-keep P p [] h = tt
  All-keep P p (x ∷ xs) h = ground (arith, All-keep P p xs h.1)

  pub All-keep_self : (p : A → Bool) (xs : List A) → All (λ x. p x ≡ true) (keep p xs)
  unfolding keep
  All-keep_self p [] = tt
  All-keep_self p (x ∷ xs) = ground (arith, All-keep_self p xs)

  pub count-append : (p : A → Bool) (xs ys : List A) → count p (xs ++ ys) ≡ count p xs + count p ys
  unfolding count
  count-append p [] ys = omega arith
  count-append p (x ∷ xs) ys = omega (arith, count-append p xs ys)

  pub count-le :
      (p q : A → Bool) (xs : List A)
      → All (λ x. p x ≡ true → q x ≡ true) xs
      → count p xs ≤ count q xs
  unfolding count
  count-le p q [] h = omega arith
  count-le p q (x ∷ xs) h = ground (arith, count-le p q xs h.1, h.0)

  pub All-always {κ} : (P : A → Type κ) → ((x : A) → P x) → (xs : List A) → All P xs
  All-always P f [] = tt
  All-always P f (x ∷ xs) = (f x, All-always P f xs)

  pub count-zero : (p : A → Bool) (xs : List A) → All (λ x. p x ≡ false) xs → count p xs ≡ 0
  unfolding count
  count-zero p [] h = refl
  count-zero p (x ∷ xs) h = ground (arith, count-zero p xs h.1)

  pub All-count_zero : (p : A → Bool) (xs : List A) → count p xs ≡ 0 → All (λ x. p x ≡ false) xs
  unfolding count
  All-count_zero p [] h = tt
  All-count_zero p (x ∷ xs) h = (ground arith, All-count_zero p xs (ground arith))

  pub count-keep : (p q : A → Bool) (xs : List A) → count p (keep q xs) ≡ count (λ x. p x && q x) xs
  unfolding count keep
  count-keep p q [] = refl
  count-keep p q (x ∷ xs) = ground (arith, count-keep p q xs)

module _ {ℓ} {A : Type ℓ} where
  -- The cases of membership in a list with a first entry.
  pub In-cons {κ} :
      (P : A → Type κ) (x y : A) (ys : List A) → In x (y ∷ ys) → P y → (In x ys → P x) → P x
  In-cons P x y ys head hy hx = hy
  In-cons P x y ys (further m) hy hx = hx m

  pub In-keep : (p : A → Bool) (x : A) (xs : List A) → In x (keep p xs) → In x xs × (p x ≡ true)
  unfolding keep
  In-keep p x [] h = elim h [ ]
  In-keep p x (y ∷ ys) h = elim (Bool-cases (p y)) [
    | inl e ↦
        In-cons (λ z. In z (y ∷ ys) × (p z ≡ true)) x y (keep p ys) (rw e at h) (head, e)
          (λ m. let (m', t) = In-keep p x ys m in (further m', t))
    | inr e ↦ let (m, t) = In-keep p x ys (rw e at h) in (further m, t)
  ]

  -- Two filters are one.
  pub keep-keep :
      (p q r : A → Bool) (xs : List A)
      → ((x : A) → (p x && q x) ≡ r x)
      → keep q (keep p xs) ≡ keep r xs
  unfolding keep
  keep-keep p q r [] h = refl
  keep-keep p q r (x ∷ xs) h = ground (arith, h x, keep-keep p q r xs h)

  pub keep-In : (p : A → Bool) (x : A) (xs : List A) → In x xs → p x ≡ true → In x (keep p xs)
  unfolding keep
  keep-In p x [] m h = elim m [ ]
  keep-In p x (y ∷ ys) m h = elim (Bool-cases (p y)) [
    | inl e ↦
        rw e (In-cons (λ z. In z (y ∷ keep p ys)) x y ys m head (λ n. further (keep-In p x ys n h)))
    | inr e ↦ rw e (
        In-cons (λ z. p z ≡ true → In z (keep p ys)) x y ys m (λ t. absurd (ground arith))
          (λ n t. keep-In p x ys n t) h)
  ]

module _ {ℓ κ} {A : Type ℓ} where
  pub All-map {μ} :
      {P : A → Type κ} {Q : A → Type μ} (f : (x : A) → P x → Q x) (xs : List A)
      → All P xs
      → All Q xs
  All-map f [] h = tt
  All-map f (x ∷ xs) h = (f x h.0, All-map f xs h.1)

-- `x in xs` on texts
unfoldable pub member : String → List String → Bool
member k [] = false
member k (x ∷ xs) = x == k || member k xs
