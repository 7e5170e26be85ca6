-- ===== src/Worker/Claim/Order.antt =====
-- ORDER BY priority DESC, enqueued_at. The database may order ties as it likes; this keeps them.
use django_ox.Prelude.{
  ◌≡◌, ◌⊎◌, Bool, true, false, ◌&&◌, ◌||◌, List, ltb, leb, ◌==◌, arith, some, head?, In, sort,
  sort-first,
}
use django_ox.Store.{OxTask}

abbrev pub sorts_before : OxTask → OxTask → Bool
sorts_before a b =
    ltb b.priority a.priority || (a.priority == b.priority && leb a.enqueued_at b.enqueued_at)

abbrev pub order_by : List OxTask → List OxTask
order_by = sort sorts_before

sorts_total : (a b : OxTask) → sorts_before a b ≡ false → sorts_before b a ≡ true
sorts_total a b h = ground arith

sorts_trans :
    (a b c : OxTask) → sorts_before a b ≡ true → sorts_before b c ≡ true → sorts_before a c ≡ true
sorts_trans a b c p q = ground arith

-- The row that comes first comes before every other.
pub order_by-first :
    (a b : OxTask) (xs : List OxTask)
    → head? (order_by xs) ≡ some a
    → In b xs
    → (b ≡ a) ⊎ (sorts_before a b ≡ true)
order_by-first = sort-first sorts_before sorts_total sorts_trans
