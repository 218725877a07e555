-- ===== src/Ingress/Cancelled.antt =====
-- An ingress check that begins after the context of the program is cancelled cannot succeed.
use kibertas.Prelude.{List}
use kibertas.Api.{Call}
use kibertas.Run.{Env, IsLawful}
use kibertas.Run.Shows.{Shows, any_call, Shows-rest}
use kibertas.Run.Cancelled.{IsCancelled, Early, Early-IsObservation, Shows-Early}
use kibertas.Notify.Effects.{Adds-add_message}
use kibertas.Steps.Shows.{Shows-or_report, Shows-cleaned, Shows-sent}
use kibertas.K8s.Cancelled.{create_namespace-Early}
use kibertas.Ingress.Objects.{Ingress}
use kibertas.Ingress.Effects.{clean_up-Within}
use kibertas.Ingress.Check.{create_resources, run_checks, check}

pub check-Early :
    {env : Env} {moment : List Call} (i : Ingress)
    → IsLawful env
    → IsCancelled env moment
    → Shows env (Early moment) (check i)
unfolding check run_checks create_resources
check-Early {moment} i l cancelled =
    let o = Early-IsObservation moment in
    Shows-rest l o _ _ (Adds-add_message _) (λ u. Shows-sent l o _ _ (
      Shows-cleaned l o _ _ (any_call (clean_up-Within i)) (
        Shows-Early _ _
          (Shows-Early _ _ (Shows-or_report _ _ _ (create_namespace-Early cancelled _))))))
