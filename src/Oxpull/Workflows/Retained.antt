-- ===== src/Oxpull/Workflows/Retained.antt =====
-- src/oxpull/workflows.py: the stamp of a workflow that is being retired, and what a chunk of its deletes
-- leaves.
use django_ox.Prelude.{
  ℕ, ◌≡◌, refl, Bool, true, false, ◌&&◌, not, inl, inr, Option, none, some, Option-cases, List, [],
  ◌∷◌, if◌then◌else◌, Bool-cases, In, here, there, select-In, is_null, arith,
}
use django_ox.Store.{OxTask, Table, statuses_in}
use django_ox.Store.Update.{UniqueKeys, first-In}
use django_ox.Oxpull.Batches.{BatchStatus, open_, sealed, complete}
use django_ox.Oxpull.Workflows.{Edge, Flow, mark_satisfied}
use django_ox.Oxpull.Workflows.Cancel.{row_with}
use django_ox.Oxpull.Workflows.Retire.{
  retirable_statuses, is_going, status_under_lock, retire_chunk,
}
use django_ox.Oxpull.Workflows.Row.{Workflow}

abbrev pub is_complete : BatchStatus → Bool
is_complete open_ = false
is_complete sealed = false
is_complete complete = true

-- _stamp_retired_once: once, and only on a COMPLETE workflow; whether it is one and stamped.
unfoldable pub stamp_retired : (now : ℕ) → Workflow → Workflow × Bool
stamp_retired now w =
    if not (is_complete w.row.status)
    then (w, false)
    else if is_null w.row.metadata_retired_at
    then (record w { row = record w.row { metadata_retired_at = some now } }, true)
    else (w, true)

-- _retire_chunk, whose lock asks for the stamp.
unfoldable pub retire_stamped :
    (pick : ℕ → Bool) → (seen : Flow) → (read : Table) → Workflow → Workflow
unfolding retire_chunk
retire_stamped pick seen read w =
    if is_null w.row.metadata_retired_at
    then w
    else record w { flow = retire_chunk pick w.row.id seen read w.flow }

-- What the marks leave of an edge.
abbrev pub IsKept : Edge → List Edge → Type 0
IsKept e es =
    (d : Edge) × In d es
    × (d.upstream ≡ e.upstream)
    × (d.downstream ≡ e.downstream)
    × (d.satisfied ≡ false → e.satisfied ≡ false)

marked-IsKept :
    (wanted : Edge → Bool) (e : Edge) (es : List Edge)
    → In e es
    → IsKept e (mark_satisfied wanted es)
unfolding mark_satisfied
marked-IsKept wanted e [] m = elim m [ ]
marked-IsKept wanted e (d ∷ ds) here = elim (Bool-cases (wanted e && not e.satisfied)) [
  | inl q ↦ (record e { satisfied = true }, rw q here, refl, refl, λ h. absurd cc)
  | inr q ↦ (e, rw q here, refl, refl, λ h. h)
]
marked-IsKept wanted e (d ∷ ds) (there m) =
    let (k, i, u, v, s) = marked-IsKept wanted e ds m in (k, there i, u, v, s)

-- A row that the plain read found, and that is in no retirable status under the lock, keeps its node.
not_going :
    (pick : ℕ → Bool) (workflow : ℕ) (seen : Flow) (read : Table) (f : Flow) (r : OxTask)
    → UniqueKeys f.tasks
    → In r f.tasks
    → statuses_in retirable_statuses r.status ≡ false
    → is_null (row_with read r.id) ≡ false
    → is_going pick workflow seen read f r.id ≡ false
unfolding is_going
not_going pick workflow seen read f r u m s n =
    let found : row_with f.tasks r.id ≡ some r = first-In u m in
    let status : status_under_lock read f.tasks r.id ≡ some r.status = rw (n, found) refl in
    rw (status, s) (ground arith)

-- The stamp that stands, once there is one.
abbrev pub stamp_of : (now : ℕ) → Option ℕ → ℕ
stamp_of now none = now
stamp_of now (some at) = at

-- A workflow that is not COMPLETE is not stamped, and a chunk leaves it as it was unless it bore a stamp
-- before; a COMPLETE one bears its first stamp and is otherwise the same.
abbrev pub IsStamp :
    (pick : ℕ → Bool) → (seen : Flow) → (read : Table) → (now : ℕ) → Workflow → Type 0
IsStamp pick seen read now w =
    let stamped = (stamp_retired now w).0 in
    (is_complete w.row.status ≡ false
      → (stamp_retired now w ≡ (w, false))
        × (w.row.metadata_retired_at ≡ none → retire_stamped pick seen read stamped ≡ w))
    × (is_complete w.row.status ≡ true
        → stamp_retired now w ≡ (
          record w {
            row = record w.row {
              metadata_retired_at = some (stamp_of now w.row.metadata_retired_at);
            };
          },
          true,
        ))

stamps :
    (pick : ℕ → Bool) (seen : Flow) (read : Table) (now : ℕ) (w : Workflow)
    → IsStamp pick seen read now w
unfolding stamp_retired retire_stamped
stamps pick seen read now w = (
  λ e. (rw e refl, λ q. rw (e, q) refl),
  λ e. elim (Option-cases w.row.metadata_retired_at) [
    | inl q ↦ rw (e, q) refl
    | inr (at, q) ↦ rw (e, q) refl
  ],
)

-- A retirement never takes an edge into a task that may run still: where the task's row is there in the
-- plain read, and under the lock in a status other than SUCCESSFUL and DISCARDED, over unique keys, each
-- edge into it stays, from the same upstream, and gains a mark at most. And the stamp that the deletes
-- ask for: a workflow that is not COMPLETE is left as it is, and the deletes leave it too unless it bore
-- a stamp before; a COMPLETE one bears its first stamp and is otherwise the same.
pub retirement_keeps_gate :
    (pick : ℕ → Bool) (seen : Flow) (read : Table) (now : ℕ) (w : Workflow) (e : Edge) (r : OxTask)
    → UniqueKeys w.flow.tasks
    → In e w.flow.edges
    → In r w.flow.tasks
    → r.id ≡ e.downstream
    → statuses_in retirable_statuses r.status ≡ false
    → is_null (row_with read r.id) ≡ false
    → IsKept e (retire_stamped pick seen read w).flow.edges × IsStamp pick seen read now w
unfolding retire_stamped retire_chunk
retirement_keeps_gate pick seen read now w e r u i m d s n =
    let stays : is_going pick w.row.id seen read w.flow e.downstream ≡ false =
      rw d at (not_going pick w.row.id seen read w.flow r u m s n) in
    (
      elim (Bool-cases (is_null w.row.metadata_retired_at)) [
        | inl q ↦ rw q (e, i, refl, refl, λ h. h)
        | inr q ↦ rw q (marked-IsKept _ e _ (select-In _ i (rw stays (ground arith))))
      ],
      stamps pick seen read now w,
    )
