-- ===== src/K8s/Ready.antt =====
-- What a successful `CreateDeployment` or `CreateIngress` has seen.
use mathlib.Core.Path.{subst}
use kibertas.Prelude.{
  ℕ, ◌*◌, String, true, false, Option, none, some, List, ◌∷◌, ◌≡◌, refl, ap, sym, ◌==◌, arith,
}
use kibertas.Api.{Call, Reply, answer, refused, DeploymentStatus, Deployment}
use kibertas.Run.{State, ok, pure, Env, IsLawful, ◌>>=◌, or_throw, deref}
use kibertas.Run.Adds.{Adds, Adds-from, adds_rules}
use kibertas.Run.Trace.{same}
use kibertas.Run.Seen.{Anything, Seen, here, Since-Seen}
use kibertas.Run.Shows.{Shows}
use kibertas.Run.Success.{>>=-ok, poll-throw-ok}
use kibertas.K8s.{K8s, second, deployment_ready, apply_deployment, create_deployment}

-- The answer to a read of the deployment, in which as many replicas were ready as it asks for.
abbrev pub Ready : Env → String → String → List Call → Call → Type 0
Ready env ns name before c =
    (c ≡ Call.get_deployment ns name)
    × ((n : ℕ) × (env.deployment before c
          ≡ answer (record { ready_replicas = n; replicas = some n })))

read_replicas :
    (r : Option ℕ) (n : ℕ) (env : Env) (s t : State)
    → (do replicas ← deref r; pure (n == replicas)) env s ≡ (ok true, t)
    → (r ≡ some n) × (t.calls ≡ s.calls)
unfolding ◌>>=◌
read_replicas none n env s t h = cc
read_replicas (some m) n env s t h = ground arith

-- the rest of the condition, on an answer
read_ready :
    (r : Reply DeploymentStatus) (env : Env) (s t : State)
    → (do
      status ← or_throw r
      replicas ← deref status.replicas
      pure (status.ready_replicas == replicas))
        env s
      ≡ (ok true, t)
    → (n : ℕ) × (r ≡ answer (record { ready_replicas = n; replicas = some n }))
      × (t.calls ≡ s.calls)
unfolding ◌>>=◌
read_ready (refused e) env s t h = cc
read_ready (answer st) env s t h =
    let (p, q) = read_replicas st.replicas st.ready_replicas env s t h in
    (
      st.ready_replicas,
      ap (λ (r : Option ℕ). answer (record { ready_replicas = st.ready_replicas; replicas = r })) p,
      q,
    )

deployment_ready-true :
    (k : K8s) (name : String) (env : Env) (s t : State)
    → deployment_ready k name env s ≡ (ok true, t)
    → Seen (Ready env k.namespace name) s.calls t.calls
unfolding deployment_ready ◌>>=◌
deployment_ready-true k name env s t h =
    let c = Call.get_deployment k.namespace name in
    let (n, p, e) =
      read_ready (env.deployment s.calls c) env (record s { calls = c ∷ s.calls }) t h in
    subst (Seen (Ready env k.namespace name) s.calls) (sym e) (here same (refl, (n, p)))

Adds-deployment_ready : (k : K8s) (name : String) → Adds Anything (deployment_ready k name)
unfolding deployment_ready
Adds-deployment_ready k name = search (adds_rules, tt) depth 6

Adds-apply_deployment : (k : K8s) (d : Deployment) → Adds Anything (apply_deployment k d)
unfolding apply_deployment
Adds-apply_deployment k d = search (adds_rules, tt) depth 8

-- In a lawful environment, CreateDeployment succeeds only if it has, since it began, read the
-- deployment and found as many replicas ready as the answer asks for, whatever the create and the
-- update returned.
pub create_deployment-Seen :
    (k : K8s) (d : Deployment) (timeout : ℕ) (env : Env)
    → IsLawful env
    → (s : State) {t : State} → create_deployment k d timeout env s ≡ (ok tt, t)
    → Seen (Ready env k.namespace d.name) s.calls t.calls
unfolding create_deployment
create_deployment-Seen k d timeout env l s {t} h =
    let (u, s1, p, q) = >>=-ok (apply_deployment k d) _ env s h in
    let (s', since, e) =
      poll-throw-ok (deployment_ready k d.name) (Adds-deployment_ready k d.name) env l (5 * second)
        timeout false "waiting for Pods to be ready: " s1 q in
    Since-Seen (Adds-from (Adds-apply_deployment k d) env l p)
      (Since-Seen since (deployment_ready-true k d.name env s' t e))

pub create_deployment-Ready :
    (k : K8s) (d : Deployment) (timeout : ℕ) (env : Env)
    → IsLawful env
    → Shows env (Seen (Ready env k.namespace d.name)) (create_deployment k d timeout)
create_deployment-Ready k d timeout env l = record {
  at = λ s h. create_deployment-Seen k d timeout env l s h;
}
