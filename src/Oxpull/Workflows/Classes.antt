-- ===== src/Oxpull/Workflows/Classes.antt =====
-- How completion and progress() read the nodes of a workflow: _with_classes and _classify of
-- src/oxpull/workflows.py.
use django_ox.Prelude.{
  ℕ, suc, ◌+◌, Bool, true, false, ◌&&◌, ◌||◌, not, Option, none, some, List, [], ◌∷◌, ltb, ◌==◌,
  if◌then◌else◌, is_null,
}
use django_ox.Store.{
  OxTask, Table, Status, failed, successful, lost, discarded, status_eq, statuses_in, first,
}
use django_ox.Oxpull.Workflows.{Node, has_outcome}

abbrev pub dead_statuses : List Status
dead_statuses = failed ∷ lost ∷ discarded ∷ []

abbrev pub retryable_dead_statuses : List Status
retryable_dead_statuses = failed ∷ lost ∷ []

abbrev pub settled_statuses : List Status
settled_statuses = successful ∷ failed ∷ lost ∷ discarded ∷ []

pub data Kind : Type 0 where
  pending_node repair_node recorded_node unknown_node : Kind

-- _row_taken_q, on the columns of the node's row.
unfoldable pub row_taken : Node → (row_status : Status) → (row_epoch : ℕ) → Bool
row_taken n row_status row_epoch = elim n.outcome_epoch [
  | none ↦ true
  | some e ↦
      ltb e row_epoch
      || (e == row_epoch
          && (is_null n.outcome || (has_outcome lost n.outcome && not (status_eq row_status lost))))
]

-- The node's task row, none if it is gone.
abbrev pub row_of : Table → Node → Option OxTask
row_of t n = first (λ r. r.id == n.task_id) t

-- The two Case expressions of _with_classes.
unfoldable pub kind : Node → Option OxTask → Kind
unfolding row_taken
kind n none = if is_null n.outcome then unknown_node else recorded_node
kind n (some r) =
    if not (statuses_in settled_statuses r.status)
    then pending_node
    else if row_taken n r.status r.lease_epoch
    then repair_node
    else recorded_node

abbrev pub status_of_row : Option OxTask → Option Status
status_of_row none = none
status_of_row (some r) = some r.status

abbrev pub is_repair : Kind → Bool
is_repair pending_node = false
is_repair repair_node = true
is_repair recorded_node = false
is_repair unknown_node = false

abbrev pub is_pending : Kind → Bool
is_pending pending_node = true
is_pending repair_node = false
is_pending recorded_node = false
is_pending unknown_node = false

unfoldable pub settled_as : Node → Option OxTask → Option Status
unfolding kind
settled_as n row =
    if is_repair (kind n row)
    then status_of_row row
    else if is_null row
    then n.outcome
    else if is_null n.outcome
    then status_of_row row
    else n.outcome

pub record Classes : Type 0 where
  pub nodes : ℕ
  pub pending : ℕ
  pub repair : ℕ
  pub succeeded : ℕ
  pub failed : ℕ
  pub discarded_rows : ℕ
  pub dead_rows : ℕ

abbrev pub one_if : Bool → ℕ
one_if b = if b then 1 else 0

abbrev pub has_row_in : List Status → Option OxTask → Bool
has_row_in statuses none = false
has_row_in statuses (some r) = statuses_in statuses r.status

-- Whether the loop of _classify counts the node's group under succeeded, or under failed.
unfoldable pub counts_as : Status → Node → Option OxTask → Bool
unfolding kind settled_as
counts_as s n row = not (is_pending (kind n row)) && has_outcome s (settled_as n row)

-- One turn of the loop of _classify, for one node of a group.
abbrev pub with_node : Node → Option OxTask → Classes → Classes
with_node n row c = record {
  nodes = suc c.nodes;
  pending = one_if (is_pending (kind n row)) + c.pending;
  repair = one_if (is_repair (kind n row)) + c.repair;
  succeeded = one_if (counts_as successful n row) + c.succeeded;
  failed = one_if (counts_as Status.failed n row) + c.failed;
  discarded_rows = one_if (has_row_in (discarded ∷ []) row) + c.discarded_rows;
  dead_rows = one_if (has_row_in retryable_dead_statuses row) + c.dead_rows;
}

unfoldable pub classify : List Node → Table → Classes
unfolding kind counts_as
classify [] t = record {
  nodes = 0;
  pending = 0;
  repair = 0;
  succeeded = 0;
  failed = 0;
  discarded_rows = 0;
  dead_rows = 0;
}
classify (n ∷ ns) t = with_node n (row_of t n) (classify ns t)
