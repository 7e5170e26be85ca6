-- ===== src/Oxpull/Workflows/Release.antt =====
-- src/oxpull/workflows.py: a chunk of release_downstream, which moves WAITING rows to READY.
use django_ox.Prelude.{ℕ, Bool, ◌&&◌, not, none, List, ◌==◌, any, map, select}
use django_ox.Store.{OxTask, Table, waiting, status_eq}
use django_ox.Actions.{ResultId}
use django_ox.Waiting.{release_many}
use django_ox.Oxpull.Workflows.{Edge, Flow}

unfoldable pub is_held : List Edge → ℕ → Bool
is_held es id = any (λ e. e.downstream == id && not e.satisfied) es

abbrev pub is_free : (chunk : List ℕ) → List Edge → OxTask → Bool
is_free chunk es r =
    any (λ i. i == r.id) chunk && not (is_held es r.id) && status_eq r.status waiting

-- The two reads: the unmarked edges, and then the WAITING rows among the rest.
unfoldable pub free_pairs : (chunk : List ℕ) → List Edge → Table → List (ResultId × ℕ)
unfolding is_held
free_pairs chunk es t = map (λ r. (ResultId.uuid r.id, r.lease_epoch)) (select (is_free chunk es) t)

-- _release_chunk: the edges as `read` has them, the rows as `held` does, and the UPDATEs on `f`.
unfoldable pub release_chunk :
    (key : ℕ → ℕ)
    → (now : ℕ) → (others : ℕ → Table → Table) → (chunk : List ℕ) → (read held f : Flow) → Flow × ℕ
unfolding free_pairs release_many
release_chunk key now others chunk read held f =
    let (t, changed, skipped) =
      release_many (λ s. none) key now others (free_pairs chunk read.edges held.tasks) f.tasks in
    (record f { tasks = t }, changed)
