-- ===== src/TaskManager/Listing.antt =====
-- What `TaskManager.list_tasks` (hermes_cluster/task_manager.py) lists.
use hermes_agent_cluster.Prelude.{
  ℕ, zero, suc, ◌-◌, ◌≡◌, refl, ap, ◌∙◌, String, Bool, true, ◌&&◌, some, List, [], ◌∷◌, min, arith,
  ◌==◌, leb, length, length-drop, keep, keep-keep, count, count-sorted, member, drop, sorted, All,
  All-keep_self, All-sorted,
}
use hermes_agent_cluster.Models.{Task}
use hermes_agent_cluster.Landing.Text.{contains}
use hermes_agent_cluster.Store.{ClusterStore}
use hermes_agent_cluster.TaskManager.{
  TaskFilter, status_value, by_text, by_number, same_text, apply_filters, order_le, apply_sort,
  first, list_tasks,
}

-- All conditions of the filter at once.
unfoldable pub is_match : (String → String) → TaskFilter → Task → Bool
is_match lower f t =
    by_text f.status (λ text. status_value t.status == text)
    && by_text f.assigned_to (λ text. same_text t.assigned_to text)
    && by_text f.requires (λ text. member text t.requires)
    && by_number f.priority_min (λ n. leb n t.priority)
    && by_number f.priority_max (λ n. leb t.priority n)
    && by_text f.search (λ text. contains (lower text) (lower t.title))

-- The filters one after the other keep what meets them all.
apply_filters-match :
    (lower : String → String) (tasks : List Task) (f : TaskFilter)
    → apply_filters lower tasks f ≡ keep (is_match lower f) tasks
unfolding apply_filters is_match
apply_filters-match lower tasks f =
    let a : Task → Bool = λ t. by_text f.status (λ text. status_value t.status == text) in
    let b : Task → Bool = λ t. by_text f.assigned_to (λ text. same_text t.assigned_to text) in
    let c : Task → Bool = λ t. by_text f.requires (λ text. member text t.requires) in
    let d : Task → Bool = λ t. by_number f.priority_min (λ n. leb n t.priority) in
    let e : Task → Bool = λ t. by_number f.priority_max (λ n. leb t.priority n) in
    let g : Task → Bool = λ t. by_text f.search (λ text. contains (lower text) (lower t.title)) in
    ap (λ xs. keep g (keep e (keep d (keep c xs))))
      (keep-keep a b (λ t. a t && b t) tasks (λ t. refl))
    ∙ ap (λ xs. keep g (keep e (keep d xs)))
        (keep-keep (λ t. a t && b t) c (λ t. (a t && b t) && c t) tasks (λ t. refl))
    ∙ ap (λ xs. keep g (keep e xs))
        (keep-keep _ d (λ t. ((a t && b t) && c t) && d t) tasks (λ t. refl))
    ∙ ap (keep g) (keep-keep _ e (λ t. (((a t && b t) && c t) && d t) && e t) tasks (λ t. refl))
    ∙ keep-keep _ g (λ t. a t && b t && c t && d t && e t && g t) tasks (λ t. ground arith)

length-first {ℓ} : {A : Type ℓ} (n : ℕ) (xs : List A) → length (first n xs) ≡ min n (length xs)
unfolding first
length-first zero xs = omega arith
length-first (suc n) [] = omega arith
length-first (suc n) (x ∷ xs) = omega (arith, length-first n xs)

count-length : (p : Task → Bool) (xs : List Task) → length (keep p xs) ≡ count p xs
unfolding keep count
count-length p [] = refl
count-length p (x ∷ xs) = ground (arith, count-length p xs)

length-count : (xs : List Task) → count (λ x. true) xs ≡ length xs
unfolding count
length-count [] = refl
length-count (x ∷ xs) = omega (arith, length-count xs)

length-sorted : (le : Task → Task → Bool) (xs : List Task) → length (sorted le xs) ≡ length xs
length-sorted le xs =
    omega (arith, length-count (sorted le xs), length-count xs, count-sorted le (λ x. true) xs)

All-first {ℓ κ} :
    {A : Type ℓ} (P : A → Type κ) (n : ℕ) (xs : List A) → All P xs → All P (first n xs)
unfolding first
All-first P zero xs h = tt
All-first P (suc n) [] h = tt
All-first P (suc n) (x ∷ xs) h = (h.0, All-first P n xs h.1)

All-drop {ℓ κ} : {A : Type ℓ} (P : A → Type κ) (n : ℕ) (xs : List A) → All P xs → All P (drop n xs)
All-drop P zero xs h = h
All-drop P (suc n) [] h = tt
All-drop P (suc n) (x ∷ xs) h = All-drop P n xs h.1

-- The listed tasks meet the filter.
All-list_tasks :
    (lower : String → String) (d : ClusterStore) (f : TaskFilter)
    → All (λ t. is_match lower f t ≡ true) (list_tasks lower d (some f))
unfolding list_tasks apply_sort
All-list_tasks lower d f =
    let le = order_le lower f.sort_by f.sort_order in
    let matching = keep (is_match lower f) d.tasks in
    rw (apply_filters-match lower d.tasks f) (
      All-first (λ t. is_match lower f t ≡ true) f.limit (drop f.offset (sorted le matching))
        (All-drop (λ t. is_match lower f t ≡ true) f.offset (sorted le matching)
          (All-sorted le (λ t. is_match lower f t ≡ true) matching
            (All-keep_self (is_match lower f) d.tasks))))

length-list_tasks :
    (lower : String → String) (d : ClusterStore) (f : TaskFilter)
    → length (list_tasks lower d (some f))
      ≡ min f.limit (count (is_match lower f) d.tasks - f.offset)
unfolding list_tasks apply_sort
length-list_tasks lower d f =
    let le = order_le lower f.sort_by f.sort_order in
    let rows = sorted le (keep (is_match lower f) d.tasks) in
    rw
      (
        apply_filters-match lower d.tasks f,
        length-first f.limit (drop f.offset rows),
        length-drop f.offset rows,
        length-sorted le (keep (is_match lower f) d.tasks),
        count-length (is_match lower f) d.tasks,
      )
      refl

-- A page of `list_tasks` has the tasks that meet all conditions of the filter, as many as there are
-- behind the offset, and the limit at most.
pub list_tasks-page :
    (lower : String → String) (d : ClusterStore) (f : TaskFilter)
    → All (λ t. is_match lower f t ≡ true) (list_tasks lower d (some f))
      × (length (list_tasks lower d (some f))
          ≡ min f.limit (count (is_match lower f) d.tasks - f.offset))
list_tasks-page lower d f = (All-list_tasks lower d f, length-list_tasks lower d f)
