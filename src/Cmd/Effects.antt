-- ===== src/Cmd/Effects.antt =====
-- What the constructors of the checks share: their calls change nothing, and their namespaces are
-- named for a test.
use kibertas.Prelude.{
  List, ℕ, zero, suc, String, ◌≡◌, refl, sym, ◌∙◌, ap, ◌⊎◌, inl, inr, Bool-cases, str_eq, text_or,
}
use mathlib.Core.Path.{subst}
use Prim.Native.String.{len}
use kibertas.Go.Errors.{Error}
use kibertas.Api.{Call, Time}
use kibertas.Scope.{reads, effect_of}
use kibertas.Run.{call, State, ok, Env, IsLawful, Action, deref, on_error, throw}
use kibertas.Run.Makes.{ok_value}
use kibertas.Run.Adds.{Adds, Adds-bind, Adds-call, Adds-deref, Adds-pure, adds_rules}
use kibertas.Notify.Effects.{Adds-add_message}
use kibertas.Util.{generate_random_string, letters, rand_intn, byte_at}
use kibertas.Util.Random.{Drawn, size, generate_random_string_lem}
use kibertas.Config.{new_aws_config, new_k8s_clientset, new_k8s_client}
use kibertas.Cmd.{now, test_namespace, announce_start}
use kibertas.Cmd.Labels.{IsPrefix}

-- A namespace that a check has named for a test: a prefix, the date at some moment, and five
-- characters drawn at random.
pub record IsTestNamespace (env : Env) (ns : String) : Type 0 where
  pub moment : List Call
  pub prefix : String
  pub time : Time
  pub suffix : String
  pub named : ns ≡ test_namespace prefix time suffix
  pub begun : IsPrefix prefix
  pub clock : env.clock moment Call.now ≡ time
  pub drawn : Drawn suffix
  pub five : size suffix ≡ 5

-- One of those, or the one that the environment variable `RESOURCE_NAMESPACE` gives.
abbrev pub IsOurs : Env → String → Type 0
IsOurs env ns = IsTestNamespace env ns ⊎ (ns ≡ env.getenv "RESOURCE_NAMESPACE")

-- A suffix that was generated gives a namespace for a test.
pub named_for_test :
    (prefix : String) (env : Env) (s0 s : State) {time : Time} {s1 : State} {suffix : String}
    {t : State}
    → IsLawful env
    → IsPrefix prefix
    → now env s0 ≡ (ok time, s1)
    → generate_random_string 5 env s ≡ (ok suffix, t)
    → IsTestNamespace env (test_namespace prefix time suffix)
unfolding call
named_for_test prefix env s0 s {time} {suffix} l begun read h =
    let (str, t', e, n, d) = generate_random_string_lem env 5 s l in
    let same : str ≡ suffix = ok_value (sym e ∙ h) in
    record {
      moment = s0.calls;
      prefix = prefix;
      time = time;
      suffix = suffix;
      named = refl;
      begun = begun;
      clock = ok_value read;
      drawn = subst Drawn same d;
      five = sym (ap size same) ∙ n;
    }

text_or_cases : (v default : String) → (text_or v default ≡ default) ⊎ (text_or v default ≡ v)
text_or_cases v default = elim (Bool-cases (str_eq v "")) [
  | inl h ↦ inl (rw h refl)
  | inr h ↦ inr (rw h refl)
]

-- The namespace of the environment variable, or else one for a test.
pub given_or_for_test :
    (env : Env) (ns : String)
    → IsTestNamespace env ns
    → IsOurs env (text_or (env.getenv "RESOURCE_NAMESPACE") ns)
given_or_for_test env ns h = elim (text_or_cases (env.getenv "RESOURCE_NAMESPACE") ns) [
  | inl e ↦ inl (subst (IsTestNamespace env) (sym e) h)
  | inr e ↦ inr e
]

module _ {P : Call → Type 0} (quiet : (c : Call) → effect_of c ≡ reads → P c) where
  pub Adds-generate_random_string : (n : ℕ) → Adds P (generate_random_string n)
  unfolding generate_random_string
  Adds-generate_random_string zero = search adds_rules
  Adds-generate_random_string (suc n) =
      Adds-bind (rand_intn (len letters)) _ (Adds-call _ _ (quiet _ refl) refl) (λ i.
        Adds-bind (deref (byte_at letters i)) _ (Adds-deref _) (λ c.
          Adds-bind (generate_random_string n) _ (Adds-generate_random_string n)
            (λ rest. Adds-pure _)))

  pub Adds-new_k8s_clientset : Adds P new_k8s_clientset
  unfolding new_k8s_clientset
  Adds-new_k8s_clientset = search (adds_rules, quiet) depth 6

  pub Adds-new_k8s_client : Adds P new_k8s_client
  unfolding new_k8s_client
  Adds-new_k8s_client = search (adds_rules, quiet) depth 6

  pub Adds-new_aws_config : Adds P new_aws_config
  unfolding new_aws_config
  Adds-new_aws_config = search (adds_rules, quiet) depth 8

pub Adds-announce_start :
    {P : Call → Type 0} → P Call.now → (name : String) → Adds P (announce_start name)
unfolding announce_start
Adds-announce_start clock name = search (adds_rules, Adds-add_message, clock) depth 8

-- an error that is wrapped and returned
pub Adds-rethrow :
    {A : Type 0} {P : Call → Type 0} (m : Action A) (g : Error → Error)
    → Adds P m
    → Adds P (on_error m (λ e. throw (g e)))
Adds-rethrow m g k = search adds_rules
