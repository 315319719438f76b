-- ===== src/Table/Ids.antt =====
-- The ids of the entries that a filter keeps, in a table with one entry per id.
use hermes_agent_cluster.Prelude.{
  ◌≡◌, refl, sym, ap, ◌∙◌, String, Bool, true, List, [], ◌∷◌, map, arith, inl, inr, ◌==◌, eq_iff,
  eq_refl, Bool-cases, keep, keep-In, In-keep, In, head, further, member,
}
use hermes_agent_cluster.Table.Laws.{IsKeyed, IsKeyed-unique}

module _ {ℓ} {A : Type ℓ} (key : A → String) where
  pub member-key : (x : A) (xs : List A) → In x xs → member (key x) (map key xs) ≡ true
  unfolding member
  member-key x [] m = elim m [ ]
  member-key x (y ∷ ys) head = rw (eq_refl (key x)) refl
  member-key x (y ∷ ys) (further m) = ground (arith, member-key x ys m)

  key-member :
      (k : String) (xs : List A) → member k (map key xs) ≡ true → (x : A) × In x xs × (key x ≡ k)
  unfolding member
  key-member k [] h = absurd (ground arith)
  key-member k (x ∷ xs) h = elim (Bool-cases (key x == k)) [
    | inl here ↦ (x, head, (eq_iff (key x) k).0 here)
    | inr miss ↦ let (y, m, e) = key-member k xs (ground arith) in (y, further m, e)
  ]

  pub member-keep :
      (p : A → Bool) (x : A) (xs : List A)
      → IsKeyed key xs
      → In x xs
      → member (key x) (map key (keep p xs)) ≡ p x
  member-keep p x xs keyed m = elim (Bool-cases (p x)) [
    | inl on ↦ member-key x (keep p xs) (keep-In p x xs m on) ∙ sym on
    | inr off ↦ elim (Bool-cases (member (key x) (map key (keep p xs)))) [
      | inr gone ↦ gone ∙ sym off
      | inl there ↦
          let (y, kept, named) = key-member (key x) (keep p xs) there in
          let (stored, on) = In-keep p y xs kept in
          let same : y ≡ x = IsKeyed-unique key y x xs keyed stored m named in
          absurd (ground (arith, ap p same))
    ]
  ]
