-- ===== src/Scheduler/Lanes/Exclusion.antt =====
-- One active task per lane: what `lane_blocked_ready_ids` leaves schedulable.
use hermes_agent_cluster.Prelude.{
  ◌+◌, ◌≤◌, ◌≡◌, refl, sym, ◌∙◌, ap, String, Bool, true, false, not, ◌&&◌, ◌||◌, some, List, [],
  ◌∷◌, ◌++◌, map, arith, inl, inr, Bool-cases, Option-cases, if◌then◌else◌, keep, member, count,
  All, sorted, ◌==◌, eq_iff, All-map, insert_sorted, eq_refl, count-zero, count-le,
}
use mathlib.Core.List.{append-nil, append_assoc}
use native.Mathlib.Nat.{le_trans}
use hermes_agent_cluster.Table.{get}
use hermes_agent_cluster.Table.Laws.{get-put, key-get, IsKeyed}
use hermes_agent_cluster.Models.{Task, task_key}
use hermes_agent_cluster.Scheduler.Lanes.{
  LaneEntry, LaneGroup, group_key, lane_entry, entry_id, entry_le, waits_on_lane, holds_lane,
  active_lanes, entries_of, add_entry, by_lane, blocked_of, blocked_ids, lane_blocked_ready_ids,
}

pub member-append :
    (k : String) (xs ys : List String) → member k (xs ++ ys) ≡ (member k xs || member k ys)
unfolding member
member-append k [] ys = refl
member-append k (x ∷ xs) ys = ground (arith, member-append k xs ys)

-- The ready tasks of a lane, in the order of the dict.
abbrev lane_entries : String → List Task → List LaneEntry
lane_entries lane tasks = map lane_entry (keep (λ t. waits_on_lane t && t.lane_key == lane) tasks)

get-add_entry :
    (lane : String) (t : Task) (groups : List LaneGroup)
    → entries_of (get group_key lane (add_entry t groups)) ≡ (
        if t.lane_key == lane
        then entries_of (get group_key lane groups) ++ lane_entry t ∷ []
        else entries_of (get group_key lane groups))
unfolding add_entry
get-add_entry lane t groups = rw get-put (elim (Bool-cases (t.lane_key == lane)) [
  | inl same ↦ rw (same, (eq_iff t.lane_key lane).0 same) refl
  | inr other ↦ rw other refl
])

get-by_lane :
    (lane : String) (tasks : List Task) (groups : List LaneGroup)
    → entries_of (get group_key lane (by_lane tasks groups))
      ≡ entries_of (get group_key lane groups) ++ lane_entries lane tasks
unfolding by_lane keep
get-by_lane lane [] groups = sym (append-nil _)
get-by_lane lane (t ∷ tasks) groups =
    get-by_lane lane tasks (if waits_on_lane t then add_entry t groups else groups)
    ∙ elim (Bool-cases (waits_on_lane t)) [
      | inr rests ↦ rw rests refl
      | inl waits ↦
          rw (waits, get-add_entry)
            (elim (Bool-cases (t.lane_key == lane)) [
              | inl same ↦ rw same (append_assoc (entries_of (get group_key lane groups)) _ _)
              | inr other ↦ rw other refl
            ])
    ]

-- A blocked id of a group is a blocked id.
member-blocked_ids :
    (k lane : String) (active : List String) (groups : List LaneGroup) (g : LaneGroup)
    → get group_key lane groups ≡ some g
    → member k (blocked_of active g) ≡ true
    → member k (blocked_ids active groups) ≡ true
unfolding blocked_ids get
member-blocked_ids k lane active [] g e h = absurd (ground arith)
member-blocked_ids k lane active (x ∷ groups) g e h = elim (Bool-cases (group_key x == lane)) [
  | inl hit ↦ let same : x ≡ g = ground arith in rw (member-append, same, h)
  | inr miss ↦ rw member-append (ground (arith, member-blocked_ids k lane active groups g))
]

member-insert_sorted :
    (k : String) (x : LaneEntry) (ys : List LaneEntry)
    → member k (map entry_id (insert_sorted entry_le x ys))
      ≡ (entry_id x == k || member k (map entry_id ys))
unfolding insert_sorted member
member-insert_sorted k x [] = refl
member-insert_sorted k x (y ∷ ys) = ground (arith, member-insert_sorted k x ys)

member-sorted :
    (k : String) (xs : List LaneEntry)
    → member k (map entry_id (sorted entry_le xs)) ≡ member k (map entry_id xs)
unfolding sorted member
member-sorted k [] = refl
member-sorted k (x ∷ xs) =
    ground (arith, member-insert_sorted k x (sorted entry_le xs), member-sorted k xs)

-- The tasks of a lane that wait for it, and those that hold it.
abbrev pub waits_on : String → Task → Bool
waits_on lane t = waits_on_lane t && t.lane_key == lane

abbrev pub holds : String → Task → Bool
holds lane t = holds_lane t && t.lane_key == lane

waiting-member :
    (lane : String) (tasks : List Task)
    → All
        (λ t. waits_on lane t ≡ true → member t.id (map entry_id (lane_entries lane tasks)) ≡ true)
        tasks
unfolding keep member
waiting-member lane [] = tt
waiting-member lane (t ∷ tasks) = (
  λ h. rw (h, eq_refl t.id),
  All-map (λ u m h. ground (arith, m h)) tasks (waiting-member lane tasks),
)

count-holds :
    (lane : String) (tasks : List Task)
    → member lane (active_lanes tasks) ≡ false
    → count (holds lane) tasks ≡ 0
unfolding active_lanes keep member count
count-holds lane [] h = refl
count-holds lane (t ∷ tasks) h = ground (arith, count-holds lane tasks)

-- The group of a lane, as the loop builds it.
abbrev lane_group : String → List Task → LaneGroup
lane_group lane tasks = record { lane = lane; entries = lane_entries lane tasks }

entries-by_lane :
    (lane : String) (tasks : List Task)
    → entries_of (get group_key lane (by_lane tasks [])) ≡ lane_entries lane tasks
unfolding get
entries-by_lane lane tasks = get-by_lane lane tasks []

not-blocked-nil :
    (k lane : String) (active : List String)
    → member k (blocked_of active (record { lane = lane; entries = [] })) ≡ false
unfolding blocked_of sorted member
not-blocked-nil k lane active = ground arith

-- The ids that the lane's own group blocks are blocked.
member-lane_blocked :
    (k lane : String) (tasks : List Task)
    → member k (blocked_of (active_lanes tasks) (lane_group lane tasks)) ≡ true
    → member k (lane_blocked_ready_ids tasks) ≡ true
unfolding lane_blocked_ready_ids
member-lane_blocked k lane tasks h = elim (Option-cases (get group_key lane (by_lane tasks []))) [
  | inl missing ↦
      let none_wait : [] ≡ lane_entries lane tasks =
        ap entries_of (sym missing) ∙ entries-by_lane lane tasks in
      cc (none_wait, not-blocked-nil k lane (active_lanes tasks), h)
  | inr (g, found) ↦
      let listed : g.entries ≡ lane_entries lane tasks =
        ap entries_of (sym found) ∙ entries-by_lane lane tasks in
      let named : g.lane ≡ lane = key-get group_key lane (by_lane tasks []) g found in
      let same : g ≡ lane_group lane tasks = ground arith in
      member-blocked_ids k lane (active_lanes tasks) (by_lane tasks []) g found (rw same h)
]

-- The tasks that the guard leaves to the scheduler.
abbrev pub unblocked : String → List Task → Task → Bool
unblocked lane tasks t = waits_on lane t && not (member t.id (lane_blocked_ready_ids tasks))

held-unblocked :
    (lane : String) (tasks : List Task)
    → member lane (active_lanes tasks) ≡ true
    → count (unblocked lane tasks) tasks ≡ 0
unfolding blocked_of
held-unblocked lane tasks held = count-zero (unblocked lane tasks) tasks (
    All-map
      (λ t m. ground (
        arith,
        m,
        λ (w : waits_on lane t ≡ true). member-lane_blocked t.id lane tasks (rw held (m w)),
      ))
      tasks (waiting-member lane tasks))

behind_first-blocked :
    (lane : String) (tasks : List Task) (first : LaneEntry) (rest : List LaneEntry) (k : String)
    → member lane (active_lanes tasks) ≡ false
    → sorted entry_le (lane_entries lane tasks) ≡ first ∷ rest
    → member k (map entry_id rest) ≡ true
    → member k (lane_blocked_ready_ids tasks) ≡ true
unfolding blocked_of
behind_first-blocked lane tasks first rest k free e h =
    member-lane_blocked k lane tasks (rw (free, e) h)

-- With no active task on the lane only the first of the sorted entries stays.
first-unblocked :
    (lane : String) (tasks : List Task) (entries : List LaneEntry)
    → IsKeyed task_key tasks
    → member lane (active_lanes tasks) ≡ false
    → sorted entry_le (lane_entries lane tasks) ≡ entries
    → count (unblocked lane tasks) tasks ≤ 1
unfolding member
first-unblocked lane tasks [] keyed free e = omega (
  arith,
  count-zero (unblocked lane tasks) tasks (All-map not_left tasks (waiting-member lane tasks)),
)
  where
    not_left :
        (t : Task)
        → (waits_on lane t ≡ true → member t.id (map entry_id (lane_entries lane tasks)) ≡ true)
        → unblocked lane tasks t ≡ false
    not_left t m = ground (
      arith,
      m,
      member-sorted t.id (lane_entries lane tasks),
      ap (λ (es : List LaneEntry). member t.id (map entry_id es)) e,
    )
first-unblocked lane tasks (first ∷ rest) keyed free e =
    le_trans
      (count-le (unblocked lane tasks) (λ t. task_key t == first.task_id) tasks
        (All-map is_first tasks (waiting-member lane tasks)))
      (keyed first.task_id)
  where
    is_first :
        (t : Task)
        → (waits_on lane t ≡ true → member t.id (map entry_id (lane_entries lane tasks)) ≡ true)
        → unblocked lane tasks t ≡ true
        → (task_key t == first.task_id) ≡ true
    is_first t m left = ground (
      arith,
      m,
      left,
      member-sorted t.id (lane_entries lane tasks),
      ap (λ (es : List LaneEntry). member t.id (map entry_id es)) e,
      behind_first-blocked lane tasks first rest t.id free e,
      eq_iff first.task_id t.id,
      eq_iff t.id first.task_id,
    )

-- In a task table with one entry per id, for a lane with one running or assigned task at most: of
-- the tasks that wait for the lane and are not blocked there is one at most, and none while a
-- task is active there.
pub lane_blocked-exclusive :
    (lane : String) (tasks : List Task)
    → IsKeyed task_key tasks
    → count (holds lane) tasks ≤ 1
    → count (unblocked lane tasks) tasks + count (holds lane) tasks ≤ 1
lane_blocked-exclusive lane tasks keyed one = elim (Bool-cases (member lane (active_lanes tasks))) [
  | inl held ↦ omega (arith, held-unblocked lane tasks held)
  | inr free ↦
      omega (arith, count-holds lane tasks free, first-unblocked lane tasks _ keyed free refl)
]
