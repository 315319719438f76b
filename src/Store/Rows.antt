-- ===== src/Store/Rows.antt =====
-- What the statements of hermes_cluster/state/cluster_store.py do to a table with distinct ids,
-- beside what Python's `dict` does in hermes_cluster/state/__init__.py.
use hermes_agent_cluster.Prelude.{
  ◌≡◌, refl, subst, String, Bool, true, false, ◌&&◌, none, some, List, [], ◌∷◌, ◌++◌, arith, inl,
  inr, ◌==◌, eq_refl, if◌then◌else◌, Bool-cases, count,
}
use hermes_agent_cluster.Table.{get, put}
use hermes_agent_cluster.Table.Laws.{IsKeyed, has-get, key-get}
use hermes_agent_cluster.Store.{update_where, any_row, insert}

module _ {ℓ} {A : Type ℓ} (key : A → String) where
  -- The row with the id, if it meets the condition.
  abbrev pub hit : String → (A → Bool) → A → Bool
  hit k g x = key x == k && g x

  pub update_where-absent :
      (k : String) (g : A → Bool) (f : A → A) (xs : List A)
      → count (λ x. key x == k) xs ≡ 0
      → update_where (hit k g) f xs ≡ xs
  unfolding update_where count
  update_where-absent k g f [] h = refl
  update_where-absent k g f (x ∷ xs) h =
      let miss : (key x == k) ≡ false = ground arith in
      rw (miss, update_where-absent k g f xs (ground arith)) refl

  pub any_row-absent :
      (k : String) (g : A → Bool) (xs : List A)
      → count (λ x. key x == k) xs ≡ 0
      → any_row (hit k g) xs ≡ false
  unfolding any_row count
  any_row-absent k g [] h = refl
  any_row-absent k g (x ∷ xs) h = ground (arith, any_row-absent k g xs)

  -- An update of the row with an id is a write under that key.
  pub update_where-get :
      (k : String) (g : A → Bool) (f : A → A) (xs : List A) (x : A)
      → ((y : A) → key (f y) ≡ key y)
      → IsKeyed key xs
      → get key k xs ≡ some x
      → update_where (hit k g) f xs ≡ (if g x then put key (f x) xs else xs)
  unfolding update_where get put count
  update_where-get k g f [] x kept keyed e = absurd (ground arith)
  update_where-get k g f (y ∷ ys) x kept keyed e = elim (Bool-cases (key y == k)) [
    | inl here ↦
        let same : y ≡ x = ground arith in
        let gone = update_where-absent k g f ys (ground (arith, keyed k)) in
        let held : (key y == key (f y)) ≡ true = rw (kept y) (eq_refl (key y)) in
        subst
          (λ z.
            update_where (hit k g) f (y ∷ ys) ≡ (if g z then put key (f z) (y ∷ ys) else y ∷ ys))
          same
          (elim (Bool-cases (g y)) [
            | inl on ↦ rw (here, on, gone, held) refl
            | inr off ↦ rw (here, off, gone) refl
          ])
    | inr miss ↦
        let rest = update_where-get k g f ys x kept (λ j. omega (arith, keyed j)) (ground arith) in
        let named : key x ≡ k = key-get key k ys x (ground arith) in
        let other : (key y == key (f x)) ≡ false = rw (kept x, named) miss in
        elim (Bool-cases (g x)) [
          | inl on ↦ rw (miss, rest, on, other) refl
          | inr off ↦ rw (miss, rest, off) refl
        ]
  ]

  pub any_row-get :
      (k : String) (g : A → Bool) (xs : List A) (x : A)
      → IsKeyed key xs
      → get key k xs ≡ some x
      → any_row (hit k g) xs ≡ g x
  unfolding any_row get count
  any_row-get k g [] x keyed e = absurd (ground arith)
  any_row-get k g (y ∷ ys) x keyed e = elim (Bool-cases (key y == k)) [
    | inl here ↦
        let same : y ≡ x = ground arith in
        let gone = any_row-absent k g ys (ground (arith, keyed k)) in
        subst (λ z. any_row (hit k g) (y ∷ ys) ≡ g z) same
          (rw (here, gone)
            (elim (Bool-cases (g y)) [ inl on ↦ rw on refl | inr off ↦ rw off refl ]))
    | inr miss ↦ rw miss (any_row-get k g ys x (λ j. omega (arith, keyed j)) (ground arith))
  ]

  -- The condition on the id alone.
  pub update_where-hit :
      (k : String) (f : A → A) (xs : List A)
      → update_where (λ x. key x == k) f xs ≡ update_where (hit k (λ x. true)) f xs
  unfolding update_where
  update_where-hit k f [] = refl
  update_where-hit k f (x ∷ xs) =
      rw (update_where-hit k f xs)
        (elim (Bool-cases (key x == k)) [ inl e ↦ rw e refl | inr e ↦ rw e refl ])

  pub any_row-hit :
      (k : String) (xs : List A) → any_row (λ x. key x == k) xs ≡ any_row (hit k (λ x. true)) xs
  unfolding any_row
  any_row-hit k [] = refl
  any_row-hit k (x ∷ xs) =
      rw (any_row-hit k xs)
        (elim (Bool-cases (key x == k)) [ inl e ↦ rw e refl | inr e ↦ rw e refl ])

  -- A row under a new id is a write under a new key.
  pub put-absent : (x : A) (xs : List A) → get key (key x) xs ≡ none → put key x xs ≡ xs ++ x ∷ []
  unfolding put get
  put-absent x [] h = refl
  put-absent x (y ∷ ys) h =
      let miss : (key y == key x) ≡ false = ground arith in
      rw (miss, put-absent x ys (ground arith)) refl

  pub insert-absent :
      (x : A) (xs : List A) → get key (key x) xs ≡ none → insert key x xs ≡ some (put key x xs)
  unfolding insert
  insert-absent x xs h = rw (has-get key (key x) xs, h, put-absent x xs h) refl
