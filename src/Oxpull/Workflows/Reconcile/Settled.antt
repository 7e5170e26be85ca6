-- ===== src/Oxpull/Workflows/Reconcile/Settled.antt =====
-- A workflow whose nodes have settled and are recorded completes.
use django_ox.Prelude.{
  ℕ, ◌+◌, ◌≡◌, refl, ==_refl, Bool, true, false, ◌==◌, ◌&&◌, ◌||◌, not, inl, inr, some, Bool-cases,
  List, [], ◌∷◌, map, select, any, length, All, In, here, there, any-witness, In-select, arith,
}
use django_ox.Store.{OxTask, Status, Table, statuses_in, first, status_eq}
use django_ox.Store.Update.{UniqueKeys, unique_row}
use django_ox.Waiting.{Call}
use django_ox.Oxpull.Batches.{is_member, sealed, complete}
use django_ox.Oxpull.Batches.Counted.{IsDistinct}
use django_ox.Oxpull.Workflows.{Node}
use django_ox.Oxpull.Workflows.Classes.{classify, has_row_in, one_if, retryable_dead_statuses}
use django_ox.Oxpull.Workflows.Row.{Workflow, nodes_of, completed}
use django_ox.Oxpull.Workflows.Completion.{
  is_dead_row, still_dead, is_unchanged, complete_once, finish, completed_row,
}
use django_ox.Oxpull.Workflows.Completion.Life.{finish_cases}
use django_ox.Oxpull.Workflows.Reconcile.{complete_if_finished}

-- A FAILED or LOST row with the key.
abbrev is_dead_at : ℕ → OxTask → Bool
is_dead_at id r = id == r.id && statuses_in retryable_dead_statuses r.status

length-select-split :
    (w p q : OxTask → Bool) (t : Table)
    → ((r : OxTask) → w r ≡ (p r || q r))
    → ((r : OxTask) → (p r && q r) ≡ false)
    → length (select w t) ≡ length (select p t) + length (select q t)
length-select-split w p q [] e h = refl
length-select-split w p q (r ∷ t) e h = ground (arith, e r, h r, length-select-split w p q t e h)

length-select-none :
    (p : OxTask → Bool) (t : Table) → ((r : OxTask) → p r ≡ false) → length (select p t) ≡ 0
length-select-none p [] h = refl
length-select-none p (r ∷ t) h = ground (arith, h r, length-select-none p t h)

none_elsewhere :
    (id : ℕ) (t : Table) → All (λ x. (x.id == id) ≡ false) t → length (select (is_dead_at id) t) ≡ 0
none_elsewhere id [] a = refl
none_elsewhere id (r ∷ t) a = ground (arith, a.0, none_elsewhere id t a.1)

-- Of a key there is the row that a read by the key finds, and no other.
length-dead_at :
    (id : ℕ) (t : Table)
    → UniqueKeys t
    → length (select (is_dead_at id) t)
      ≡ one_if (has_row_in retryable_dead_statuses (first (λ r. r.id == id) t))
unfolding first
length-dead_at id [] u = refl
length-dead_at id (r ∷ t) u = elim (Bool-cases (id == r.id)) [
  | inl e ↦
      let same : r.id ≡ id = ground arith in
      let rest = none_elsewhere id t (rw same at u.0) in
      let q : (r.id == id) ≡ true = ground arith in
      let found : first (λ x. x.id == id) (r ∷ t) ≡ some r = rw q refl in
      rw (found, e) (ground (arith, rest))
  | inr e ↦
      let q : (r.id == id) ≡ false = ground arith in
      let skipped : first (λ x. x.id == id) (r ∷ t) ≡ first (λ x. x.id == id) t = rw q refl in
      rw (skipped, e) (length-dead_at id t u.1)
]

abbrev task_ids : List Node → List ℕ
task_ids ns = map (λ (n : Node). n.task_id) ns

named-is_member :
    (ns : List Node) (id : ℕ) → any (λ n. n.task_id == id) ns ≡ is_member (task_ids ns) id
named-is_member [] id = refl
named-is_member (n ∷ ns) id = ground (arith, named-is_member ns id)

dead_elsewhere :
    (n : Node) (ns : List Node)
    → is_member (task_ids ns) n.task_id ≡ false
    → (r : OxTask) → (is_dead_at n.task_id r && is_dead_row ns r) ≡ false
unfolding is_dead_row
dead_elsewhere n ns d r = elim (Bool-cases (n.task_id == r.id)) [
  | inr e ↦ rw e refl
  | inl e ↦
      let same : n.task_id ≡ r.id = ground arith in
      let out : is_member (task_ids ns) r.id ≡ false = rw same at d in
      ground (arith, named-is_member ns r.id)
]

-- The classification counts the dead rows that the plain read finds.
dead_rows-counted :
    (ns : List Node) (t : Table)
    → IsDistinct (task_ids ns)
    → UniqueKeys t
    → (classify ns t).dead_rows ≡ length (select (is_dead_row ns) t)
unfolding classify is_dead_row
dead_rows-counted [] t d u = ground (arith, length-select-none (is_dead_row []) t (λ r. refl))
dead_rows-counted (n ∷ ns) t d u =
    let split =
      length-select-split (is_dead_row (n ∷ ns)) (is_dead_at n.task_id) (is_dead_row ns) t
        (λ r. ground arith) (dead_elsewhere n ns d.0) in
    let one = length-dead_at n.task_id t u in let rest = dead_rows-counted ns t d.1 u in omega arith

status_eq_refl : (s : Status) → status_eq s s ≡ true
status_eq_refl s = ground arith

is_unchanged_refl : (r : OxTask) → is_unchanged r r ≡ true
is_unchanged_refl r = rw (status_eq_refl r.status) (==_refl r.lease_epoch)

-- A lock that finds the rows as the read did has nothing to object to.
unchanged_rows :
    (dead t : Table) → ((x : OxTask) → In x dead → In x t) → UniqueKeys t → still_dead dead t ≡ true
unfolding still_dead
unchanged_rows [] t f u = refl
unchanged_rows (r ∷ dead) t f u =
    let rest = unchanged_rows dead t (λ x m. f x (there m)) u in
    elim (Bool-cases (any (λ x. x.id == r.id && not (is_unchanged r x)) t)) [
      | inr e ↦ rw (e, rest) refl
      | inl e ↦
          let (x, i, q) = any-witness (λ x. x.id == r.id && not (is_unchanged r x)) t e in
          let same : x ≡ r = unique_row u (f r here) i (ground arith) in
          let changed : is_unchanged r r ≡ false = rw (← same) (ground arith) in
          absurd (let k = is_unchanged_refl r in cc)
    ]

-- With nothing else between: a sealed workflow of distinct tasks, whose every node has settled with a
-- record that says all its row does, completes in one visit if its callbacks can be enqueued, with
-- row locks and without, and its row says how many nodes failed and how many were discarded.
pub settled_workflow_completes :
    (locks : Bool) (accepts : Call → Bool) (id1 id2 now : ℕ) (w : Workflow)
    → w.row.status ≡ sealed
    → IsDistinct (task_ids (nodes_of w))
    → UniqueKeys w.flow.tasks
    → (classify (nodes_of w) w.flow.tasks).pending ≡ 0
    → (classify (nodes_of w) w.flow.tasks).repair ≡ 0
    → ((call : Call) → accepts call ≡ true)
    → let t = w.flow.tasks in
      let r = complete_if_finished locks accepts id1 id2 now w t t w in
      let c = classify (nodes_of w) t in
      (r.0.row.status ≡ complete)
      × (r.0.row.failed_count ≡ some c.failed)
      × (r.0.row.cancelled_count ≡ some c.discarded_rows)
      × ((unattributed : ℕ) × (r.1 ≡ completed c.failed c.discarded_rows unattributed))
unfolding complete_if_finished complete_once completed_row
settled_workflow_completes locks accepts id1 id2 now w s d u p q a =
    let t = w.flow.tasks in
    let ns = nodes_of w in
    let c = classify ns t in
    let dead = select (is_dead_row ns) t in
    let rows : (c.dead_rows == length dead) ≡ true =
      rw (dead_rows-counted ns t d u) (==_refl (length dead)) in
    let still = unchanged_rows dead t (λ x m. (In-select (is_dead_row ns) t m).0) u in
    let go : complete_if_finished locks accepts id1 id2 now w t t w
        ≡ finish accepts id1 id2 now c w =
      elim (Bool-cases locks) [
        | inl l ↦ rw (l, q, p, s, still, rows) refl
        | inr l ↦ rw (l, q, p, s, rows) refl
      ] in
    elim (finish_cases accepts id1 id2 now c w) [
      | inl (e, (call, n)) ↦ absurd (let y = a call in cc)
      | inr (callback, t1, success, t2, scans, x, f) ↦ rw (go, f) (refl, refl, refl, (_, refl))
    ]
