-- ===== src/Fluent/Sizing.antt =====
-- The size of the fluent check's deployment.
use kibertas.Prelude.{
  ℕ, ◌+◌, ◌*◌, ◌/◌, ◌^◌, ◌≤◌, ◌<◌, String, Option, some, List, ◌≡◌, ap, length, arith,
}
use kibertas.Fluent.Objects.{Fluent, create_deployment_object}
use kibertas.Fluent.Check.{replicas_for, set_replicas}

-- If the list of nodes is shorter than an int32 can count, the deployment of the fluent check has
-- a replica for every three nodes and one more: three times the replicas are more than the nodes,
-- and exceed them by three at most.
pub one_for_three :
    (f : Fluent) (nodes : List String)
    → length nodes < 2 ^ 31
    → (r : ℕ) × ((create_deployment_object (set_replicas f nodes)).replicas ≡ some r)
      × (length nodes < 3 * r)
      × (3 * r ≤ length nodes + 3)
unfolding create_deployment_object set_replicas replicas_for
one_for_three f nodes h =
    (length nodes / 3 + 1, ap {B = Option ℕ} some (omega arith), omega arith, omega arith)
