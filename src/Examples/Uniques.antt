-- ===== src/Examples/Uniques.antt =====
-- Two enqueues of one unique task.
use django_ox.Prelude.{ℕ, ◌≡◌, refl, Bool, true, false, [], ◌∷◌, here, there, inl, inr, In-cons}
use text.Mathlib.Text.{◌==◌ as str_eq}
use django_ox.Store.{OxTask}
use django_ox.Waiting.{new_row, backend_enqueue}
use django_ox.Oxpull.Unique.{
  Locked, take_key, is_held, resolve_conflict, duplicate_of, enqueue_unique, enqueue_unique_from,
}
use django_ox.Oxpull.Unique.Pending.{Moves, start, on, takes, settles}
use django_ox.Oxpull.Unique.Run.{unique_while_pending}
use django_ox.Examples.{a_call}

-- One key for every task.
abbrev one_key : OxTask → ℕ
one_key r = 1

abbrev one_task : Locked
one_task = record {
  locks = record { key = 1; task_id = 7 } ∷ [];
  tasks = new_row 7 a_call 100 ∷ [];
}

-- The tasks of the shop are unique.
abbrev of_the_shop : OxTask → Bool
of_the_shop r = str_eq r.task_path a_call.module_path

-- Another task, beside the first one.
abbrev ordinary : OxTask
ordinary = new_row 9 (record a_call { module_path = "blog.tasks.post" }) 100

abbrev two_tasks : Locked
two_tasks = record one_task { tasks = ordinary ∷ one_task.tasks }

-- The enqueue of the other task is a write of the task table.
one_taken : Moves of_the_shop one_key (record { locks = []; tasks = [] }) two_tasks
unfolding take_key backend_enqueue new_row
one_taken = on (on start (takes 7 a_call 100 one_task refl)) (
    settles two_tasks.tasks λ r m v p. elim (In-cons m) [
      | inl e ↦ absurd (let x : false ≡ true = rw e at v in cc)
      | inr i ↦ inl (r, i, v, p, refl, refl)
    ])

-- The second enqueue gives back the first one's task.
second_is_duplicate :
    enqueue_unique true one_key (λ k. 8) a_call 101 (λ k x. x) two_tasks
    ≡ (two_tasks, duplicate_of 7)
unfolding enqueue_unique enqueue_unique_from take_key resolve_conflict is_held new_row
second_is_duplicate = refl

unique_while_pending_example : (new_row 7 a_call 100).id ≡ (new_row 7 a_call 100).id
unfolding enqueue_unique enqueue_unique_from take_key resolve_conflict is_held new_row
unique_while_pending_example =
    unique_while_pending of_the_shop one_key true (λ k. 8) a_call 101 (λ k x. x) two_tasks
      (new_row 7 a_call 100) (new_row 7 a_call 100) one_taken (λ j x. start) (there here)
      (there here) refl refl refl refl refl
