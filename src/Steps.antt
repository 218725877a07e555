-- ===== src/Steps.antt =====
-- The steps of which every check is made: an error that is reported and returned, and a clean-up that
-- goes on after an error (`multierror`) and is deferred.
pub mod Effects
pub mod Success
pub mod CleanUp
pub mod Guarded
pub mod Plan
pub mod Cleared
pub mod Housed
pub mod Shows
use kibertas.Prelude.{String, ◌<>◌, Option, List, [], ◌∷◌, ◌++◌}
use kibertas.Go.Errors.{Error, text}
use kibertas.Run.{Action, pure, throw, ◌>>=◌, ◌>>◌, on_error, deferred, ask, check_nil}
use kibertas.Notify.{Chatwork, add_message, send}

-- `if err := m; err != nil { AddMessage(fmt.Sprintf("<front>%s<back>", err)); return err }`
unfoldable pub or_report : String → String → Action (Unit {0}) → Action (Unit {0})
unfolding add_message
or_report front back m = on_error m (λ e. add_message (front <> (text e <> back)) >> throw e)

-- `if err = m; err != nil { AddMessage(…); result = multierror.Append(result, err) }`
unfoldable pub attempt : String → String → Action (Unit {0}) → List Error → Action (List Error)
unfolding add_message
attempt front back m result =
    on_error (m >> pure result)
      (λ e. add_message (front <> (text e <> back)) >> pure (result ++ e ∷ []))

-- `return result.ErrorOrNil()`
unfoldable pub error_or_nil : List Error → Action (Unit {0})
error_or_nil result = do e ← ask (λ env. env.error_or_nil result); check_nil e

-- The deferred call of `cleanUpResources`.
unfoldable pub report_clean_up : Action (Unit {0}) → Action (Unit {0})
unfolding add_message
report_clean_up clean_up =
    on_error clean_up (λ e. add_message ("Error Delete Resources: " <> (text e <> "\n")))

-- The error of `Nodes().List`, reported and returned.
unfoldable pub report_nodes : Action (List String) → Action (List String)
report_nodes m = on_error m (λ e. add_message ("Error List Nodes: " <> (text e <> "\n")) >> throw e)
