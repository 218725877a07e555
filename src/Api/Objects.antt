-- ===== src/Api/Objects.antt =====
-- The Kubernetes and cert-manager objects that the program sends, by the fields that it sets.
use kibertas.Prelude.{ℕ, String, Bool, Option, List, [], ◌∷◌}

-- `map[string]string`
abbrev pub Labels : Type 0
Labels = List (String × String)

pub record ContainerPort : Type 0 where
  pub name : String
  pub protocol : String
  pub container_port : ℕ

pub record Container : Type 0 where
  pub name : String
  pub image : String
  pub args : List String
  pub ports : List ContainerPort

pub record Toleration : Type 0 where
  pub key : String
  pub operator : String
  pub value : String
  pub effect : String

-- `metav1.LabelSelectorRequirement` and `apiv1.NodeSelectorRequirement`
pub record Requirement : Type 0 where
  pub key : String
  pub operator : String
  pub values : List String

pub record PodAffinityTerm : Type 0 where
  pub topology_key : String
  pub match_expressions : List Requirement

-- A term that keeps a pod off the nodes whose pods have one of `values` at `key`.
abbrev pub apart_from : String → List String → PodAffinityTerm
apart_from key values = record {
  topology_key = "kubernetes.io/hostname";
  match_expressions = record { key = key; operator = "In"; values = values } ∷ [];
}

pub record WeightedPodAffinityTerm : Type 0 where
  pub weight : ℕ
  pub pod_affinity_term : PodAffinityTerm

-- A nil part is the empty list.
pub record Affinity : Type 0 where
  pub node_selector_terms : List (List Requirement)
  pub anti_required : List PodAffinityTerm
  pub anti_preferred : List WeightedPodAffinityTerm

pub record PodTemplate : Type 0 where
  pub labels : Labels
  pub tolerations : List Toleration
  pub affinity : Option Affinity
  pub containers : List Container

pub record Deployment : Type 0 where
  pub name : String
  pub replicas : Option ℕ
  pub match_labels : Labels
  pub template : PodTemplate

pub record ServicePort : Type 0 where
  pub protocol : String
  pub port : ℕ
  pub target_port : ℕ

pub record Service : Type 0 where
  pub name : String
  pub selector : Labels
  pub ports : List ServicePort

pub record HttpIngressPath : Type 0 where
  pub path : String
  pub path_type : String
  pub service_name : String
  pub service_port : ℕ

pub record IngressRule : Type 0 where
  pub host : String
  pub paths : List HttpIngressPath

pub record IngressObject : Type 0 where
  pub name : String
  pub annotations : Labels
  pub ingress_class_name : Option String
  pub rules : List IngressRule

pub record PrivateKey : Type 0 where
  pub algorithm : String
  pub size : ℕ

pub record IssuerRef : Type 0 where
  pub name : String
  pub kind : String
  pub group : String

pub record Certificate : Type 0 where
  pub name : String
  pub namespace : String
  pub secret_name : String
  pub common_name : String
  pub is_ca : Bool
  pub private_key : Option PrivateKey
  pub issuer_ref : IssuerRef
  pub dns_names : List String

pub record Issuer : Type 0 where
  pub name : String
  pub namespace : String
  pub ca_secret_name : String
