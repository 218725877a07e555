-- ===== src/Fluent/Cancelled.antt =====
-- A fluent check that begins after the context of the program is cancelled cannot succeed.
use kibertas.Prelude.{List}
use kibertas.Api.{Call}
use kibertas.Run.{Env, IsLawful}
use kibertas.Run.Shows.{Shows, Shows-rest}
use kibertas.Run.Cancelled.{IsCancelled, Early, Early-IsObservation, Shows-Early, nodes-Early}
use kibertas.Notify.Effects.{Adds-add_message}
use kibertas.Steps.Shows.{Shows-report_nodes, Shows-sent}
use kibertas.Fluent.Objects.{Fluent}
use kibertas.Fluent.Check.{list_nodes, check}

pub check-Early :
    {env : Env} {moment : List Call} (f : Fluent)
    → IsLawful env
    → IsCancelled env moment
    → Shows env (Early moment) (check f)
unfolding check list_nodes
check-Early {moment} f l cancelled =
    let o = Early-IsObservation moment in
    Shows-rest l o _ _ (Adds-add_message _)
      (λ u. Shows-sent l o _ _ (Shows-Early _ _ (Shows-report_nodes _ (nodes-Early cancelled _))))
