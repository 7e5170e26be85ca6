-- ===== src/Examples/Flows.antt =====
-- A claim under a full limit, and a workflow of two nodes.
use django_ox.Prelude.{◌≡◌, refl, true, false, none, [], ◌∷◌, In, here}
use django_ox.Store.{OxTask, Table, successful, first, update}
use django_ox.Waiting.{backend_enqueue}
use django_ox.Worker.Claim.{
  claim_one, claim_fields, claim_skip_locked, claim_one_postgresql, is_candidate, passes,
  postgresql_honours_the_claim_filter,
}
use django_ox.Oxpull.Filter.{
  Blocks, oxpull_worker, is_admitted, claims_only_admitted, q_with_oxpull_conditions,
  sql_with_oxpull_conditions, oxpull_condition_q,
}
use django_ox.Oxpull.Workflows.{
  Flow, add_once, record_node_outcome, mark_satisfied, succeeded_among, is_runnable, is_blocking,
}
use django_ox.Oxpull.Workflows.Steps.{HasSucceeded, History, start, on, adds, runs, records}
use django_ox.Oxpull.Workflows.Gate.{dependencies_first}
use django_ox.Examples.{a_worker, a_call, at_100, fresh, second_task, postgresql}

abbrev mails_blocked : Blocks
mails_blocked = record {
  workflows = none;
  blocked_paths = [];
  blocked_queues = "mail" ∷ [];
  concurrency_paths = [];
  concurrency_queues = [];
}

-- The task of the blocked queue comes first, and the claim takes the other.
abbrev mail_and_charge : Table
mail_and_charge = record second_task { queue_name = "mail"; priority = 40000 } ∷ fresh ∷ []

claims_only_admitted_example :
    (r : OxTask) × In r mail_and_charge
    × (claim_fields (oxpull_worker a_worker mails_blocked) at_100 fresh fresh
        ≡ claim_fields (oxpull_worker a_worker mails_blocked) at_100 r r)
    × (is_admitted mails_blocked r ≡ true)
    × (passes a_worker.claim_filter_q r ≡ true)
unfolding claim_one claim_one_postgresql postgresql_honours_the_claim_filter claim_skip_locked
    is_candidate first update claim_fields is_admitted oxpull_condition_q q_with_oxpull_conditions
    sql_with_oxpull_conditions
claims_only_admitted_example =
    claims_only_admitted postgresql a_worker mails_blocked at_100 (λ r. false) (λ k x. x)
      mail_and_charge _ refl ((refl, tt), (tt, tt)) (λ q r e h. refl) refl

abbrev no_flow : Flow
no_flow = record { nodes = []; edges = []; tasks = [] }

abbrev one_node : Flow
one_node = add_once 5 1 7 a_call 100 [] no_flow

abbrev two_nodes : Flow
two_nodes = add_once 5 2 8 a_call 101 (7 ∷ []) one_node

abbrev first_done : Flow
first_done = record two_nodes { tasks = record fresh { status = successful } ∷ [] }

abbrev first_recorded : Flow
first_recorded = (record_node_outcome 7 successful 1 first_done).0

two_steps : History first_recorded (first_done ∷ two_nodes ∷ one_node ∷ no_flow ∷ [])
unfolding succeeded_among
two_steps =
    on
      (on (on (on (start []) (adds 5 1 7 a_call 100 [])) (adds 5 2 8 a_call 101 (7 ∷ [])))
        (runs (record fresh { status = successful } ∷ [])))
      (records 7 successful 1 (λ e. refl))

dependencies_first_example :
    HasSucceeded (first_recorded ∷ first_done ∷ two_nodes ∷ one_node ∷ no_flow ∷ []) 7
unfolding add_once record_node_outcome mark_satisfied is_runnable is_blocking succeeded_among
    backend_enqueue
dependencies_first_example =
    dependencies_first 8 (record { workflow = 5; upstream = 7; downstream = 8; satisfied = true })
      two_steps refl here refl
