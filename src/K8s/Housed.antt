-- ===== src/K8s/Housed.antt =====
-- A namespace is there once it has been asked for, and until its deletion is asked for.
use kibertas.Prelude.{String, refl}
use kibertas.Run.{Env, IsLawful}
use kibertas.Run.Adds.{Adds, Adds-issue, adds_rules}
use kibertas.Run.Housed.{Adds-Goes, There, MayHouse, Inside}
use kibertas.Run.Left.{asked}
use kibertas.Run.Goes.{Goes, Goes-issue, Goes-on_error, Any}
use kibertas.K8s.{
  delete_deployment, delete_service, delete_ingress, new_k8s, create_namespace, create_or_update,
  delete_namespace,
}

module _ {env : Env} (l : IsLawful env) where
  pub create_namespace-Goes : (n : String) → Goes env MayHouse Any (There n) (create_namespace n)
  unfolding create_namespace create_or_update
  create_namespace-Goes n =
      Goes-on_error (λ calls h. h) _ _ (Goes-issue _ l (λ calls h. tt) (λ calls h. asked refl))
        (λ e. Adds-Goes l (search adds_rules depth 6))

  pub delete_namespace-Goes :
      (n : String) → Goes env MayHouse (There n) Any (delete_namespace (new_k8s n))
  unfolding delete_namespace new_k8s
  delete_namespace-Goes n = Goes-issue _ l (λ calls h. h) (λ calls h. tt)

module _ (n name : String) where
  pub delete_deployment-Inside : Adds (Inside n) (delete_deployment (new_k8s n) name)
  unfolding delete_deployment new_k8s
  delete_deployment-Inside = Adds-issue _ (refl, λ h. cc h) refl

  pub delete_service-Inside : Adds (Inside n) (delete_service (new_k8s n) name)
  unfolding delete_service new_k8s
  delete_service-Inside = Adds-issue _ (refl, λ h. cc h) refl

  pub delete_ingress-Inside : Adds (Inside n) (delete_ingress (new_k8s n) name)
  unfolding delete_ingress new_k8s
  delete_ingress-Inside = Adds-issue _ (refl, λ h. cc h) refl
