-- ===== src/Fleet/Statements.antt =====
-- The worker's statements other than the claim and the outcome, as UPDATEs of the table.
use django_ox.Prelude.{ℕ, Option, List, String}
use django_ox.Store.{OxTask, Table, update}
use django_ox.Worker.{Worker, Clock}
use django_ox.Worker.Lease.{Attempt, renew_leases, is_requeued, requeued, is_abandoned, abandoned}
use django_ox.Worker.Recovery.{release_claim}

-- The other statements of the worker: renewal, the reaper's two UPDATEs and the release of a claim
-- that raised, each for rows that some session read.
pub data Statement : Type 0 where
  renews : Clock → (in_flight in_callers : List Attempt) → Statement
  requeues : (now cutoff : ℕ) → List OxTask → Statement
  abandons : Clock → (now cutoff : ℕ) → (Option String → String) → OxTask → Statement
  releases : OxTask → Statement

abbrev pub execute : Worker → Statement → Table → Table
execute w (renews c in_flight in_callers) t = (renew_leases w c in_flight in_callers t).0
execute w (requeues now cutoff manifest) t = update (is_requeued now cutoff manifest) requeued t
execute w (abandons c now cutoff note s) t =
    update (is_abandoned now cutoff s) (abandoned c note s) t
execute w (releases s) t = (release_claim w s t).0
