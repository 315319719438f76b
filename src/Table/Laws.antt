-- ===== src/Table/Laws.antt =====
-- The laws of tables: lookups after writes, what a write does to a property of all entries, and to
-- the number of entries with a property.
use hermes_agent_cluster.Prelude.{
  In, head, further, sym, ◌+◌, ◌≤◌, ◌<◌, ap, ◌∙◌, true, String, ◌≡◌, ◌≢◌, refl, Bool, map, none,
  some, List, [], ◌∷◌, arith, ◌==◌, eq_iff, eq_refl, if◌then◌else◌, to_ℕ, All, count, is_some, inl,
  inr, subst, Bool-cases, Option-cases,
}
use mathlib.Core.Option
use mathlib.Core.Option.{Option}
use hermes_agent_cluster.Table.{get, put, remove, has}

module _ {ℓ} {A : Type ℓ} (key : A → String) where
  pub get-put :
      (k : String) (x : A) (xs : List A)
      → get key k (put key x xs) ≡ (if key x == k then some x else get key k xs)
  unfolding get put
  get-put k x [] = refl
  get-put k x (y ∷ ys) =
      ground (arith, get-put k x ys, eq_iff (key y) (key x), eq_iff (key y) k, eq_iff (key x) k)

  pub get-put_self : (x : A) (xs : List A) → get key (key x) (put key x xs) ≡ some x
  get-put_self x xs = rw (get-put (key x) x xs, eq_refl (key x))

  pub key-get : (k : String) (xs : List A) (x : A) → get key k xs ≡ some x → key x ≡ k
  unfolding get
  key-get k [] x h = ground arith
  key-get k (y ∷ ys) x h = ground (arith, key-get k ys x, eq_iff (key y) k)

  pub has-get : (k : String) (xs : List A) → has key k xs ≡ is_some (get key k xs)
  unfolding has get
  has-get k [] = refl
  has-get k (x ∷ xs) = ground (arith, has-get k xs)

  pub get-map :
      (f : A → A) (k : String) (xs : List A)
      → ((x : A) → key (f x) ≡ key x)
      → get key k (map f xs) ≡ Option.map f (get key k xs)
  unfolding get
  get-map f k [] h = refl
  get-map f k (x ∷ xs) h =
      rw (h x, get-map f k xs h)
        (elim (Bool-cases (key x == k)) [ inl e ↦ rw e refl | inr e ↦ rw e refl ])

  pub get-count_zero :
      (k : String) (xs : List A) → count (λ x. key x == k) xs ≡ 0 → get key k xs ≡ none
  unfolding get count
  get-count_zero k [] h = refl
  get-count_zero k (x ∷ xs) h = ground (arith, get-count_zero k xs)

  pub get-remove :
      (k j : String) (xs : List A) (x : A)
      → get key j (remove key k xs) ≡ some x
      → k ≢ j
      → get key j xs ≡ some x
  unfolding get remove
  get-remove k j [] x h ne = absurd (ground arith)
  get-remove k j (y ∷ ys) x h ne =
      ground (arith, get-remove k j ys x, eq_iff (key y) k, eq_iff (key y) j)

  -- With distinct keys a removed key is gone.
  pub get-remove_self :
      (k : String) (xs : List A)
      → count (λ x. key x == k) xs ≤ 1
      → get key k (remove key k xs) ≡ none
  unfolding get remove count
  get-remove_self k [] h = refl
  get-remove_self k (x ∷ xs) h = ground (arith, get-remove_self k xs, get-count_zero k xs)

  pub All-put {κ} : (P : A → Type κ) (x : A) (xs : List A) → P x → All P xs → All P (put key x xs)
  unfolding put
  All-put P x [] hx h = (hx, tt)
  All-put P x (y ∷ ys) hx h = ground (arith, All-put P x ys hx h.1)

  pub All-get {κ} :
      (P : A → Type κ) (k : String) (xs : List A) (x : A) → All P xs → get key k xs ≡ some x → P x
  unfolding get
  All-get P k [] x h e = absurd (grind arith)
  All-get P k (y ∷ ys) x h e = elim (Bool-cases (key y == k)) [
    | inl hit ↦ let same : y ≡ x = ground arith in subst P same h.0
    | inr miss ↦ All-get P k ys x h.1 (ground arith)
  ]

  -- An entry with a property is counted.
  pub count-get_pos :
      (p : A → Bool) (k : String) (xs : List A) (x : A)
      → get key k xs ≡ some x
      → p x ≡ true
      → 0 < count p xs
  unfolding get count
  count-get_pos p k [] x e h = absurd (grind arith)
  count-get_pos p k (y ∷ ys) x e h = elim (Bool-cases (key y == k)) [
    | inl hit ↦
        let same : y ≡ x = ground arith in let holds : p y ≡ true = ap p same ∙ h in ground arith
    | inr miss ↦ omega (arith, count-get_pos p k ys x (ground arith) h)
  ]

  -- A write adds at most one to the entries with a property.
  pub count-put_le :
      (p : A → Bool) (x : A) (xs : List A) → count p (put key x xs) ≤ to_ℕ (p x) + count p xs
  unfolding put count
  count-put_le p x [] = omega arith
  count-put_le p x (y ∷ ys) = ground (arith, count-put_le p x ys)

  -- A write under a new key adds its value's count.
  pub count-put_new :
      (p : A → Bool) (x : A) (xs : List A)
      → get key (key x) xs ≡ none
      → count p (put key x xs) ≡ to_ℕ (p x) + count p xs
  unfolding put count get
  count-put_new p x [] h = refl
  count-put_new p x (y ∷ ys) h = ground (arith, count-put_new p x ys)

  -- A write over an entry exchanges its count for that of the new value.
  pub count-put :
      (p : A → Bool) (x old : A) (xs : List A)
      → get key (key x) xs ≡ some old
      → count p (put key x xs) + to_ℕ (p old) ≡ count p xs + to_ℕ (p x)
  unfolding put count get
  count-put p x old [] h = absurd (grind arith)
  count-put p x old (y ∷ ys) h = ground (arith, count-put p x old ys)

  -- No two entries share a key.
  abbrev pub IsKeyed : List A → Type 0
  IsKeyed xs = (k : String) → count (λ x. key x == k) xs ≤ 1

  pub count-get-none :
      (k : String) (xs : List A) → get key k xs ≡ none → count (λ x. key x == k) xs ≡ 0
  unfolding get count
  count-get-none k [] h = refl
  count-get-none k (x ∷ xs) h = ground (arith, count-get-none k xs)

  pub put-IsKeyed : (x : A) (xs : List A) → IsKeyed xs → IsKeyed (put key x xs)
  put-IsKeyed x xs h k = elim (Option-cases (get key (key x) xs)) [
    | inl new ↦ ground (
      arith,
      count-put_le (λ y. key y == k) x xs,
      count-get-none (key x) xs,
      eq_iff (key x) k,
      h k,
    )
    | inr (old, e) ↦
        ground (arith, count-put (λ y. key y == k) x old xs, key-get (key x) xs old e, h k)
  ]

  count-remove_le :
      (p : A → Bool) (k : String) (xs : List A) → count p (remove key k xs) ≤ count p xs
  unfolding remove count
  count-remove_le p k [] = omega arith
  count-remove_le p k (x ∷ xs) = ground (arith, count-remove_le p k xs)

  pub remove-IsKeyed : (k : String) (xs : List A) → IsKeyed xs → IsKeyed (remove key k xs)
  remove-IsKeyed k xs h j = omega (arith, count-remove_le (λ x. key x == j) k xs, h j)

  In-count :
      (k : String) (x : A) (xs : List A)
      → In x xs
      → (key x == k) ≡ true
      → 0 < count (λ y. key y == k) xs
  unfolding count
  In-count k x [] m h = elim m [ ]
  In-count k x (y ∷ ys) head h = ground arith
  In-count k x (y ∷ ys) (further m) h = omega (arith, In-count k x ys m h)

  -- With distinct keys an entry is what its key looks up.
  pub get-In : (x : A) (xs : List A) → IsKeyed xs → In x xs → get key (key x) xs ≡ some x
  unfolding get count
  get-In x [] keyed m = elim m [ ]
  get-In x (y ∷ ys) keyed head = rw (eq_refl (key x)) refl
  get-In x (y ∷ ys) keyed (further m) = elim (Bool-cases (key y == key x)) [
    | inl hit ↦ absurd (ground (arith, keyed (key x), In-count (key x) x ys m (eq_refl (key x))))
    | inr miss ↦ rw miss (get-In x ys (λ k. omega (arith, keyed k)) m)
  ]

  -- So entries with the same key are the same.
  pub IsKeyed-unique :
      (x y : A) (xs : List A) → IsKeyed xs → In x xs → In y xs → key x ≡ key y → x ≡ y
  IsKeyed-unique x y xs keyed mx my e =
      let same : ◌≡◌ {A = Option A} (some x) (some y) =
        sym (get-In x xs keyed mx) ∙ ap (λ k. get key k xs) e ∙ get-In y xs keyed my in
      ground arith
