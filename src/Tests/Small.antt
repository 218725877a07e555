-- ===== src/Tests/Small.antt =====
-- Tests of the logger, the keys of Datadog, the listing of a bucket and the cluster ID.
use Prim.Native.String.{len}
use kibertas.Prelude.{ℕ, String, some, List, [], ◌∷◌, map, any, ltb, ◌≡◌, refl, arith}
use kibertas.Api.{answer}
use kibertas.Run.{ok}
use kibertas.Fluent.Check.{read_objects}
use kibertas.Fluent.Listing.{listed, read_objects-any}
use kibertas.Run.Trace.{Since}
use kibertas.DatadogAgent.Keys.{Keyed, run_datadog_agent-Keyed}
use kibertas.Cli.{run_datadog_agent}
use kibertas.Tests.Healthy.{named, named-IsLawful}
use kibertas.Ktesting.{random_cluster_id}
use kibertas.Ktesting.Hex.{five_digits, random_cluster_id_lem}
use kibertas.Tests.World.{calm, start, fluent, checker}

abbrev items : List (String × ℕ)
items = ("old", 50) ∷ ("new", 200) ∷ []

read_objects-any_example :
    (read_objects fluent 100 (answer (map listed items)) calm start).0
    ≡ ok (any (λ (item : String × ℕ). ltb 100 item.1) items)
read_objects-any_example = read_objects-any fluent 100 items calm start

run_datadog_agent-Keyed_example :
    Since (Keyed named) [] (run_datadog_agent checker named start).1.calls
run_datadog_agent-Keyed_example = run_datadog_agent-Keyed checker named start named-IsLawful

abbrev bytes : List ℕ
bytes = 1 ∷ 171 ∷ 255 ∷ []

random_cluster_id_lem_example :
    (random_cluster_id (λ n. some bytes) ≡ five_digits 1 171 255)
    × (len (random_cluster_id (λ n. some bytes)) ≡ 5)
random_cluster_id_lem_example =
    random_cluster_id_lem (λ n. some bytes) 1 171 255 (omega arith) (omega arith) (omega arith) refl
