-- ===== src/Fluent/Shipped.antt =====
-- What the whole of a successful fluent check has seen.
use mathlib.Core.Path.{subst}
use kibertas.Prelude.{ℕ, ◌*◌, List, false, ◌≡◌, refl, ap}
use kibertas.Api.{Call, Time}
use kibertas.Go.Errors.{wrapped}
use kibertas.Fluent.Check.{object_available}
use kibertas.Run.{State, Outcome, ok, call, on_error, poll, throw, Env, IsLawful}
use kibertas.Run.Adds.{Adds, Adds-on_error, Adds-poll, Adds-throw, Adds-from, Adds-bind, adds_rules}
use kibertas.Run.Seen.{Anything, Seen, here, Seen-Since}
use kibertas.Run.Trace.{same}
use kibertas.Run.Success.{>>=-ok}
use kibertas.Cmd.{now}
use kibertas.Run.Shows.{
  IsObservation, Seen-IsObservation, Both, Both-IsObservation, Some, Some-IsObservation, Shows,
  any_call, Shows-Both, Shows-first, Shows-rest,
}
use kibertas.Notify.Effects.{Adds-add_message}
use kibertas.Steps.Effects.{Adds-or_report, Adds-report_nodes}
use kibertas.Steps.Shows.{Shows-or_report, Shows-cleaned, Shows-sent}
use kibertas.K8s.{new_k8s, second}
use kibertas.K8s.Effects.{create_namespace-Within}
use kibertas.K8s.Ready.{Ready, create_deployment-Ready}
use kibertas.Fluent.Objects.{Fluent, create_deployment_object}
use kibertas.Fluent.Check.{
  create_resources, check_s3_object, list_nodes, set_replicas, run_checks, check,
}
use kibertas.Fluent.CleanUp.{checked}
use kibertas.Fluent.Effects.{
  object_available-Within, check_s3_object-Within, create_resources-Within, clean_up-Within,
}
use kibertas.Fluent.Evidence.{Arrived, object-Seen}

-- The answer to a read of the clock, that it is this instant.
abbrev pub Read : Env → ℕ → List Call → Call → Type 0
Read env since before c = (c ≡ Call.now) × ((env.clock before c).instant ≡ since)

-- The clock was read, and an object arrived in the bucket that was modified after that instant.
abbrev pub Logged : Env → Fluent → List Call → List Call → Type 0
Logged env f =
    Some ℕ (λ since. Unit {0}) (λ since. Both (Seen (Read env since)) (Seen (Arrived env f since)))

Logged-IsObservation : (env : Env) (f : Fluent) → IsObservation (Logged env f)
Logged-IsObservation env f =
    Some-IsObservation (λ since. Both-IsObservation Seen-IsObservation Seen-IsObservation)

-- what a success shows: the deployment was ready, and the logs arrived
abbrev pub Shipped : Env → Fluent → List Call → List Call → Type 0
Shipped env f = Both (Seen (Ready env f.namespace f.resource_name)) (Logged env f)

pub Shipped-IsObservation : (env : Env) (f : Fluent) → IsObservation (Shipped env f)
Shipped-IsObservation env f = Both-IsObservation Seen-IsObservation (Logged-IsObservation env f)

list_nodes-Anything : Adds Anything list_nodes
unfolding list_nodes
list_nodes-Anything = search (adds_rules, tt)

module _ (env : Env) (l : IsLawful env) where
  create_resources-Ready :
      (f : Fluent) → Shows env (Seen (Ready env f.namespace f.resource_name)) (create_resources f)
  unfolding create_resources new_k8s create_deployment_object
  create_resources-Ready f =
      Shows-rest l Seen-IsObservation _ _
        (Adds-or_report _ _ _ (any_call (create_namespace-Within "" _)))
        (λ u. Shows-or_report _ _ _ (create_deployment-Ready _ _ _ env l))

  now-Read :
      (s : State) {time : Time} {t : State}
      → now env s ≡ (ok time, t)
      → Seen (Read env (env.clock s.calls Call.now).instant) s.calls t.calls
  unfolding call
  now-Read s h =
      subst (Seen (Read env (env.clock s.calls Call.now).instant) s.calls)
        (ap (λ (p : Outcome Time × State). p.1.calls) h) (here same (refl, refl))

  wait-Anything :
      (f : Fluent) (since : ℕ)
      → Adds Anything (
          on_error
            (poll (60 * second) f.timeout false (object_available f since))
            (λ e. throw {A = Unit {0}} (wrapped "error waiting for S3 objects to be ready: " e)))
  wait-Anything f since =
      Adds-on_error _ _ (Adds-poll _ _ _ _ (any_call (object_available-Within f since)))
        (λ e. Adds-throw _)

  wait-Read :
      (f : Fluent) (s : State) {t : State}
      → check_s3_object f env s ≡ (ok tt, t)
      → Seen (Read env (env.clock s.calls Call.now).instant) s.calls t.calls
  unfolding check_s3_object
  wait-Read f s h =
      let (time, s', p, q) = >>=-ok now _ env s h in
      Seen-Since (Adds-from (wait-Anything f time.instant) env l q) (now-Read s p)

  wait-Logged : (f : Fluent) → Shows env (Logged env f) (check_s3_object f)
  wait-Logged f = record { at = λ s h. (_, tt, (wait-Read f s h, object-Seen f env s l h)) }

  checked-Shipped : (f : Fluent) → Shows env (Shipped env f) (checked f)
  checked-Shipped f =
      Shows-Both
        (Shows-first l Seen-IsObservation _ _ (create_resources-Ready f)
          (λ u. Adds-bind _ _ (any_call (check_s3_object-Within f)) (λ v. Adds-add_message _)))
        (Shows-rest l (Logged-IsObservation env f) _ _ (any_call (create_resources-Within f)) (λ u.
          Shows-first l (Logged-IsObservation env f) _ _ (wait-Logged f) (λ v. Adds-add_message _)))

  pub check-Shipped : (f : Fluent) → Shows env (Shipped env f) (check f)
  unfolding check run_checks set_replicas
  check-Shipped f =
      let o = Shipped-IsObservation env f in
      Shows-rest l o _ _ (Adds-add_message _) (λ u. Shows-sent l o _ _ (
        Shows-rest l o _ _ (Adds-report_nodes _ list_nodes-Anything) (λ nodes.
          Shows-rest l o _ _ (Adds-add_message _) (λ v.
            Shows-cleaned l o _ _ (any_call (clean_up-Within (set_replicas f nodes)))
              (checked-Shipped (set_replicas f nodes))))))
