-- ===== src/Oxpull/Workflows/Completion/Once.antt =====
-- A workflow completes once.
use django_ox.Prelude.{ℕ, ◌≡◌, refl, Bool, false, List, ◌∷◌, ap, ◌∙◌, is_null, Bool-cases, inl, inr}
use django_ox.Store.{Table}
use django_ox.Waiting.{Call}
use django_ox.Oxpull.Batches.{complete}
use django_ox.Oxpull.Workflows.{Flow}
use django_ox.Oxpull.Workflows.Row.{
  Workflow, WorkflowRow, add, seal, completed, nothing_to_do, refused, workflow_sealed,
}
use django_ox.Oxpull.Workflows.Completion.{complete_once, completed_row}
use django_ox.Oxpull.Workflows.Completion.Life.{Change, adding, sealing, completing, elsewhere}
use django_ox.Oxpull.Workflows.Steps.{Step}
use django_ox.Oxpull.Workflows.Retained.{stamp_retired, retire_stamped, is_complete}
use django_ox.Oxpull.Workflows.Completion.Clean.{completed_cases}

-- One transaction that commits, of a retirement too: the stamp, a chunk of its deletes, and whatever
-- becomes of the task table and of all nodes and edges.
pub data Later (w : Workflow) (past : List Flow) : Workflow → Type 0 where
  commits : {v : Workflow} → Change w past v → Later w past v
  stamping : (now : ℕ) → Later w past (stamp_retired now w).0
  retiring :
      (pick : ℕ → Bool) (seen : Flow) (read : Table)
      → Later w past (retire_stamped pick seen read w)
  anywhere : {g : Flow} → Step w.flow past g → Later w past (record w { flow = g })

-- What comes after a state of the workflow.
pub data Follows (w : Workflow) (past : List Flow) : Workflow → List Flow → Type 0 where
  stays : Follows w past w past
  changes :
      {u v : Workflow} {more : List Flow}
      → Follows w past u more
      → Later u more v
      → Follows w past v (u.flow ∷ more)

-- The same row but for the stamp of a retirement, which a row that bears one keeps.
abbrev pub IsSameRow : WorkflowRow → WorkflowRow → Type 0
IsSameRow r s =
    (s ≡ (record r { metadata_retired_at = s.metadata_retired_at }))
    × (is_null r.metadata_retired_at ≡ false → s ≡ r)

Change-final :
    (w v : Workflow) (past : List Flow) → w.row.status ≡ complete → Change w past v → v.row ≡ w.row
unfolding add seal complete_once
Change-final w v past e (adding name id call now wanted) = rw e refl
Change-final w v past e (sealing scheduled now) = rw e refl
Change-final w v past e (completing locks accepts id1 id2 now read held) = rw e refl
Change-final w v past e (elsewhere s scans h) = refl

same_row : (r s : WorkflowRow) → s ≡ r → IsSameRow r s
same_row r s e = (rw e refl, λ h. e)

stamping-IsSameRow : (now : ℕ) (w : Workflow) → IsSameRow w.row (stamp_retired now w).0.row
unfolding stamp_retired
stamping-IsSameRow now w = elim (Bool-cases (is_complete w.row.status)) [
  | inr e ↦ rw e (refl, λ h. refl)
  | inl e ↦ elim (Bool-cases (is_null w.row.metadata_retired_at)) [
    | inl q ↦ rw (e, q) (refl, λ h. absurd cc)
    | inr q ↦ rw (e, q) (refl, λ h. refl)
  ]
]

Later-final :
    (w v : Workflow) (past : List Flow)
    → w.row.status ≡ complete
    → Later w past v
    → IsSameRow w.row v.row
unfolding retire_stamped
Later-final w v past e (commits k) = same_row w.row v.row (Change-final w v past e k)
Later-final w v past e (stamping now) = stamping-IsSameRow now w
Later-final w v past e (retiring pick seen read) =
    elim (Bool-cases (is_null w.row.metadata_retired_at)) [
      | inl q ↦ rw q (refl, λ h. refl)
      | inr q ↦ rw q (refl, λ h. refl)
    ]
Later-final w v past e (anywhere s) = (refl, λ h. refl)

IsSameRow-trans : (r s t : WorkflowRow) → IsSameRow r s → IsSameRow s t → IsSameRow r t
IsSameRow-trans r s t (e, f) (g, h) = (
  g ∙ ap (λ (x : WorkflowRow). record x { metadata_retired_at = t.metadata_retired_at }) e,
  λ k.
      let back = f k in
      let stamped : is_null s.metadata_retired_at ≡ false =
        ap (λ (x : WorkflowRow). is_null x.metadata_retired_at) back ∙ k in
      h stamped ∙ back,
)

Follows-final :
    {w : Workflow} {past : List Flow}
    → w.row.status ≡ complete
    → {v : Workflow} {more : List Flow} → Follows w past v more
    → IsSameRow w.row v.row
Follows-final e stays = (refl, λ h. refl)
Follows-final {w} e (changes {u} {v} {more} r k) =
    let h = Follows-final e r in
    let q : u.row.status ≡ complete = ap (λ (x : WorkflowRow). x.status) h.0 ∙ e in
    IsSameRow-trans w.row u.row v.row h (Later-final u v more q k)

-- After a completion of a workflow, whatever other sessions do to it and to the tables, the stamp and the
-- deletes of a retirement included: no reconciler completes it again or enqueues a callback, no node is
-- added to it, and its row, with what the completion recorded, is the same but for the stamp of a
-- retirement, and that too where it bore one.
pub workflow_completes_once :
    (locks locks' : Bool) (accepts again : Call → Bool) (id1 id2 now id1' id2' now' : ℕ)
    → (read held read' held' : Table) (fails cancelled unattributed : ℕ) (w v : Workflow)
    → (past more : List Flow) (name id : ℕ) (call : Call) (wanted : List ℕ)
    → (complete_once locks accepts id1 id2 now read held w).1
      ≡ completed fails cancelled unattributed
    → Follows (complete_once locks accepts id1 id2 now read held w).0 past v more
    → (complete_once locks' again id1' id2' now' read' held' v ≡ (v, nothing_to_do))
      × (add name id call now' wanted v ≡ (v, refused workflow_sealed))
      × IsSameRow (complete_once locks accepts id1 id2 now read held w).0.row v.row
unfolding complete_once add completed_row
workflow_completes_once locks locks' accepts again id1 id2 now id1' id2' now' read held read' held'
      fails cancelled unattributed w v past more name id call wanted h r =
    let (m, e, (callback, t1, success, t2, scans, q, f)) =
      completed_cases locks accepts id1 id2 now read held fails cancelled unattributed w h in
    let done : (complete_once locks accepts id1 id2 now read held w).0.row.status ≡ complete =
      rw (e, f) refl in
    let same = Follows-final done r in
    let q : v.row.status ≡ complete = ap (λ (x : WorkflowRow). x.status) same.0 ∙ done in
    (rw q refl, rw q refl, same)
