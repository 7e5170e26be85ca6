-- ===== src/Oxpull/Workflows/Records.antt =====
-- The guarded UPDATE of a node's record, and the same decision on a record read into memory.
use django_ox.Prelude.{ℕ, ◌≡◌, arith}
use django_ox.Store.{Status}
use django_ox.Oxpull.Workflows.{Node, outcome_accepts, record_takes}

-- record_takes answers what the WHERE of the UPDATE would, for every record, status and epoch.
pub record_takes-accepts :
    (n : Node) (status : Status) (epoch : ℕ)
    → record_takes n.outcome n.outcome_epoch status epoch ≡ outcome_accepts status epoch n
unfolding record_takes outcome_accepts
record_takes-accepts n status epoch = ground arith
