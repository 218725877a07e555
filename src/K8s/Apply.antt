-- ===== src/K8s/Apply.antt =====
-- A create that is refused because the object is there.
use kibertas.Prelude.{true, some, ◌∷◌, ◌≡◌, refl}
use kibertas.Go.Errors.{Error}
use kibertas.Api.{Call}
use kibertas.Run.{State, Env, ◌>>=◌, issue}
use kibertas.K8s.{create_or_update}

module _ (env : Env) (s : State) (e : Error) where
  -- If the create of an object is refused because it is there, `CreateNamespace`, `CreateService` and
  -- `CreateIngress` go on with the update, and do what it does.
  pub already_exists :
      (create update : Call)
      → env.issue s.calls create ≡ some e
      → env.is_already_exists e ≡ true
      → create_or_update create update env s
        ≡ issue update env (record s { calls = create ∷ s.calls })
  unfolding create_or_update issue ◌>>=◌
  already_exists create update h x = rw (h, x) refl
