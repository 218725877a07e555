-- ===== src/K8s/Success.antt =====
-- The operations on resources succeed in a healthy environment.
use kibertas.Prelude.{ℕ, String, true, some, ◌==◌, ◌≡◌, refl, arith}
use kibertas.Api.{Call, Deployment, Service, IngressObject}
use kibertas.Run.{Env, check_nil, issue}
use kibertas.Run.Returns.{
  Returns, Succeeds, Returns-Succeeds, Returns-pure, Returns-call, Returns-or_throw, Returns-deref,
  Succeeds-Returns, Succeeds-pure, Succeeds-check_nil, Succeeds-poll, Succeeds-bind, Succeeds-if,
  Succeeds-on_error,
}
use kibertas.Healthy.{IsLong, IsHealthy}
use kibertas.K8s.{
  K8s, create_or_update, create_namespace, delete_namespace, deployment_ready, apply_deployment,
  create_deployment, delete_deployment, create_service, delete_service, ingress_available,
  create_ingress, delete_ingress,
}

==-refl : (n : ℕ) → (n == n) ≡ true
==-refl n = ground arith

module _ {env : Env} (healthy : IsHealthy env) where
  pub Succeeds-issue : (c : Call) → Succeeds env (issue c)
  unfolding issue
  Succeeds-issue c = Returns-Succeeds (
      Returns-call (λ env. env.issue) c check_nil
        (λ calls. Succeeds-Returns (Succeeds-check_nil _ (healthy.issues calls c))))

  pub Succeeds-create_or_update : (c d : Call) → Succeeds env (create_or_update c d)
  unfolding create_or_update
  Succeeds-create_or_update c d = Succeeds-on_error _ _ (Succeeds-issue c)

  pub Succeeds-create_namespace : (name : String) → Succeeds env (create_namespace name)
  unfolding create_namespace
  Succeeds-create_namespace name = Succeeds-create_or_update _ _

  Returns-deployment_ready :
      (k : K8s) (name : String) → Returns env (λ b. b ≡ true) (deployment_ready k name)
  unfolding deployment_ready
  Returns-deployment_ready k name =
      Returns-call (λ env. env.deployment) _ _
        (λ calls.
          let (n, h) = healthy.ready calls (Call.get_deployment k.namespace name) in
          Returns-or_throw _ _ h (Returns-deref _ _ refl (Returns-pure _ (==-refl n))))

  pub Succeeds-create_deployment :
      (k : K8s) (d : Deployment) (timeout : ℕ)
      → IsLong timeout
      → Succeeds env (create_deployment k d timeout)
  unfolding create_deployment apply_deployment
  Succeeds-create_deployment k d timeout long =
      Succeeds-bind _ _ (Succeeds-on_error _ _ (Succeeds-issue _)) (λ u. Succeeds-on_error _ _ (
        Succeeds-poll healthy.patient _ _ _ _ (omega (arith, long.minute_lt)) long.bounded
          (Returns-deployment_ready k d.name)))

  pub Succeeds-create_service : (k : K8s) (o : Service) → Succeeds env (create_service k o)
  unfolding create_service
  Succeeds-create_service k o = Succeeds-create_or_update _ _

  Returns-ingress_available :
      (k : K8s) (name : String) → Returns env (λ b. b ≡ true) (ingress_available k name)
  unfolding ingress_available
  Returns-ingress_available k name =
      Returns-call (λ env. env.hostnames) _ _
        (λ calls.
          let (names, h, p) = healthy.available calls (Call.get_ingress k.namespace name) in
          Returns-or_throw _ _ h (Returns-pure _ p))

  pub Succeeds-create_ingress :
      (k : K8s) (o : IngressObject) (timeout : ℕ) (class : String)
      → o.ingress_class_name ≡ some class
      → IsLong timeout
      → Succeeds env (create_ingress k o timeout)
  unfolding create_ingress
  Succeeds-create_ingress k o timeout class h long =
      Succeeds-bind _ _ (Succeeds-create_or_update _ _) (λ u. Returns-Succeeds (
        Returns-deref _ _ h (
          Succeeds-Returns (
            Succeeds-if _ _ _
              (Succeeds-on_error _ _ (
                Succeeds-poll healthy.patient _ _ _ _ (omega (arith, long.minute_lt)) long.bounded
                  (Returns-ingress_available k o.name)))
              (Succeeds-pure tt)))))

  pub Succeeds-delete_deployment :
      (k : K8s) (name : String) → Succeeds env (delete_deployment k name)
  unfolding delete_deployment
  Succeeds-delete_deployment k name = Succeeds-issue _

  pub Succeeds-delete_namespace : (k : K8s) → Succeeds env (delete_namespace k)
  unfolding delete_namespace
  Succeeds-delete_namespace k = Succeeds-issue _

  pub Succeeds-delete_service : (k : K8s) (name : String) → Succeeds env (delete_service k name)
  unfolding delete_service
  Succeeds-delete_service k name = Succeeds-issue _

  pub Succeeds-delete_ingress : (k : K8s) (name : String) → Succeeds env (delete_ingress k name)
  unfolding delete_ingress
  Succeeds-delete_ingress k name = Succeeds-issue _
