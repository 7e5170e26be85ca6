-- ===== src/Examples/Claims.antt =====
-- Claims over a table of two tasks.
use django_ox.Prelude.{◌≡◌, refl, false, some, [], ◌∷◌, ltb}
use django_ox.Store.{Table}
use django_ox.Worker.{Worker}
use django_ox.Worker.Claim.{claim_fields, claim_one, claim_optimistic, claim_skip_locked}
use django_ox.Worker.Claim.Grants.{Grants, hook_used, claim_one-Grants}
use django_ox.Worker.Claim.Alone.{claim_paths_agree}
use django_ox.Worker.Recovery.{released}
use django_ox.Worker.Recovery.Undo.{released-claim_fields}
use django_ox.Examples.{a_worker, at_100, fresh, second_task, postgresql}

abbrev two_tasks : Table
two_tasks = second_task ∷ fresh ∷ []

-- A worker that takes only tasks of ids below 8.
abbrev picky : Worker
picky = record a_worker { claim_filter_q = some λ r. ltb r.id 8 }

claim_one-Grants_example :
    Grants
      (hook_used postgresql a_worker)
      a_worker
      at_100
      (λ r. false)
      two_tasks
      (claim_one postgresql a_worker at_100 (λ r. false) (λ k x. x) two_tasks)
claim_one-Grants_example =
    claim_one-Grants postgresql a_worker at_100 (λ r. false) (λ k x. x) two_tasks refl
      ((refl, tt), (tt, tt))

claim_paths_agree_example :
    claim_optimistic a_worker at_100 (λ k x. x) two_tasks
    ≡ claim_skip_locked a_worker at_100 (λ r. false) two_tasks
claim_paths_agree_example = claim_paths_agree a_worker at_100 two_tasks ((refl, tt), (tt, tt))

released-claim_fields_example :
    released (claim_fields a_worker at_100 fresh fresh) (claim_fields a_worker at_100 fresh fresh)
    ≡ record fresh { lease_epoch = 2; last_attempted_at = some 101 }
released-claim_fields_example = released-claim_fields a_worker at_100 fresh
