-- ===== src/Fleet.antt =====
-- The statements of src/django_ox over the whole table, as steps of the lives of its rows.
use django_ox.Prelude.{ℕ, ◌≡◌, ◌⊎◌, List, ◌∷◌, In}
use django_ox.Store.{OxTask, Table}
use django_ox.Life.{Write}
pub mod Attempts
pub mod Statements
pub mod Pinned
pub mod Worker
pub mod Operators

-- A row stays as it is or makes one step of its life; `past` gives the earlier versions of the
-- row with a key.
abbrev pub RowStep : (ℕ → List OxTask) → OxTask → OxTask → Type 0
RowStep past r r' = (r' ≡ r) ⊎ Write r (past r.id) r'

-- A row that some session read: the version of the row now, or an earlier one.
abbrev pub IsRead : (ℕ → List OxTask) → Table → OxTask → Type 0
IsRead past t s = (r : OxTask) → In r t → r.id ≡ s.id → In s (r ∷ past r.id)
