-- ===== src/K8s/Cancelled.antt =====
-- Nothing can be created once the context of the program is cancelled.
use kibertas.Prelude.{String, List, ◌≡◌, refl}
use kibertas.Api.{Call, signals, context_of}
use kibertas.Run.{Env, ◌>>=◌, issue, on_error}
use kibertas.Run.Shows.{Shows}
use kibertas.Run.Cancelled.{IsCancelled, Early}
use kibertas.K8s.{create_or_update, create_namespace}

module _ {env : Env} {moment : List Call} (cancelled : IsCancelled env moment) where
  create_or_update-Early :
      (create update : Call)
      → context_of create ≡ signals
      → Shows env (Early moment) (create_or_update create update)
  unfolding create_or_update issue on_error ◌>>=◌
  create_or_update-Early create update same = record {
    at = λ s h late.
        let (e, p, q) = cancelled.refuses s.calls create late same in cc (rw (p, q) at h);
  }

  pub create_namespace-Early : (n : String) → Shows env (Early moment) (create_namespace n)
  unfolding create_namespace
  create_namespace-Early n = create_or_update-Early _ _ refl
