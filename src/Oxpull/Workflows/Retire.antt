-- ===== src/Oxpull/Workflows/Retire.antt =====
-- src/oxpull/workflows.py: _retire_chunk, which deletes the nodes and edges of a complete workflow that
-- nothing can move again.
use django_ox.Prelude.{
  ℕ, Bool, true, ◌&&◌, ◌||◌, not, Option, none, some, List, [], ◌∷◌, ◌==◌, if◌then◌else◌, any,
  select, is_null,
}
use django_ox.Store.{Table, Status, successful, discarded, statuses_in}
use django_ox.Oxpull.Workflows.{Node, Flow, has_outcome, mark_satisfied}
use django_ox.Oxpull.Workflows.Classes.{status_of_row}
use django_ox.Oxpull.Workflows.Cancel.{row_with}

abbrev pub retirable_statuses : List Status
retirable_statuses = successful ∷ discarded ∷ []

-- The chunk: the recorded nodes of the workflow that `pick` takes, as an earlier read has them.
abbrev pub in_chunk : (pick : ℕ → Bool) → (workflow : ℕ) → Node → Bool
in_chunk pick workflow n = n.workflow == workflow && not (is_null n.outcome) && pick n.task_id

-- The task's status under the lock, which is on the rows of the plain read alone.
abbrev pub status_under_lock : (read held : Table) → ℕ → Option Status
status_under_lock read held id =
    if is_null (row_with read id) then none else status_of_row (row_with held id)

abbrev pub is_retirable : Option Status → Bool
is_retirable none = true
is_retirable (some s) = statuses_in retirable_statuses s

abbrev pub chunk_has : (pick : ℕ → Bool) → (workflow : ℕ) → Flow → (Node → Bool) → ℕ → Bool
chunk_has pick workflow seen p id =
    any (λ n. n.task_id == id && in_chunk pick workflow n && p n) seen.nodes

-- The tasks whose nodes go: in the chunk, the row gone or in a status that no retry moves, and the node
-- recorded still.
unfoldable pub is_going :
    (pick : ℕ → Bool) → (workflow : ℕ) → (seen : Flow) → (read : Table) → Flow → ℕ → Bool
is_going pick workflow seen read f id =
    chunk_has pick workflow seen (λ n. true) id
    && is_retirable (status_under_lock read f.tasks id)
    && any (λ n. n.task_id == id && n.workflow == workflow && not (is_null n.outcome)) f.nodes

-- Of those, the ones that succeeded: by the row, or where it is gone by the record in the chunk.
unfoldable pub is_going_well :
    (pick : ℕ → Bool) → (workflow : ℕ) → (seen : Flow) → (read : Table) → Flow → ℕ → Bool
unfolding is_going
is_going_well pick workflow seen read f id =
    is_going pick workflow seen read f id
    && (has_outcome successful (status_under_lock read f.tasks id)
        || (is_null (status_under_lock read f.tasks id)
            && chunk_has pick workflow seen (λ n. has_outcome successful n.outcome) id))

-- _retire_chunk under the stamp: the edges into a node that goes, with the node; and a mark on the edges
-- out of one that succeeded, into a node that stays.
unfoldable pub retire_chunk :
    (pick : ℕ → Bool) → (workflow : ℕ) → (seen : Flow) → (read : Table) → Flow → Flow
unfolding is_going is_going_well mark_satisfied
retire_chunk pick workflow seen read f = record f {
  nodes =
      select
        (λ n. not (
          n.workflow == workflow
          && is_going pick workflow seen read f n.task_id
          && not (is_null n.outcome)))
        f.nodes;
  edges =
      mark_satisfied
        (λ e. e.workflow == workflow && is_going_well pick workflow seen read f e.upstream)
        (select
          (λ e. not (e.workflow == workflow && is_going pick workflow seen read f e.downstream))
          f.edges);
}
