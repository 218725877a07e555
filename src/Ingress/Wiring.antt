-- ===== src/Ingress/Wiring.antt =====
-- The objects of the ingress check fit together.
use kibertas.Prelude.{ℕ, String, Bool, true, [], ◌∷◌, ◌≡◌, ◌&&◌, ◌==◌, str_eq, any}
use kibertas.Api.{
  Labels, Deployment, Service, ServicePort, IngressObject, IngressRule, HttpIngressPath,
  ContainerPort, Container,
}
use text.Mathlib.TextPositions.{eq_refl}
use kibertas.Ingress.Objects.{
  Ingress, create_deployment_object, create_service_object, create_ingress_object,
}

-- Every pair of the selector is among the labels, as Kubernetes matches them.
abbrev pub selects : Labels → Labels → Bool
selects [] labels = true
selects ((k, v) ∷ selector) labels =
    any (λ (p : String × String). str_eq p.0 k && str_eq p.1 v) labels && selects selector labels

-- A container of the deployment's pods listens on a port.
abbrev pub listens : Deployment → ℕ → Bool
listens d port =
    any (λ (c : Container). any (λ (p : ContainerPort). p.container_port == port) c.ports)
      d.template.containers

-- A service reaches the pods of a deployment: it selects them, and they listen on its target ports.
abbrev pub reaches : Service → Deployment → Bool
reaches s d =
    selects s.selector d.template.labels
    && any (λ (p : ServicePort). listens d p.target_port) s.ports

-- A path of an ingress leads to a service: by its name, and to a port that it has.
abbrev pub leads_to : HttpIngressPath → Service → Bool
leads_to p s =
    str_eq p.service_name s.name && any (λ (q : ServicePort). q.port == p.service_port) s.ports

abbrev pub routes : IngressObject → String → Service → Bool
routes ing host s =
    any (λ (r : IngressRule). str_eq r.host host && any (λ p. leads_to p s) r.paths) ing.rules

-- A deployment is accepted: its selector matches its own pods.
abbrev pub owns_its_pods : Deployment → Bool
owns_its_pods d = selects d.match_labels d.template.labels

-- Whatever the names are set to, the ingress of the check routes the external host name to the
-- service, the service selects the pods of the deployment and a port on which they listen, and the
-- deployment selects its own pods.
pub objects_connect :
    (i : Ingress)
    → (routes (create_ingress_object i) i.external_hostname (create_service_object i) ≡ true)
      × (reaches (create_service_object i) (create_deployment_object i) ≡ true)
      × (owns_its_pods (create_deployment_object i) ≡ true)
unfolding create_ingress_object create_service_object create_deployment_object
objects_connect i = (simp eq_refl, simp eq_refl, simp eq_refl)
