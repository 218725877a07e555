-- ===== src/Cli/Scope.antt =====
-- What a whole run of the program changes, and where it sends its messages.
use kibertas.Run.{State, Env, IsLawful}
use kibertas.Run.Trace.{Runs, Since, Runs-Since}
use kibertas.Run.Makes.{Walks, Walks-on_error}
use kibertas.Notify.{api_url}
use kibertas.Cli.{Command, Flags, checker_of, main}
use kibertas.Cli.Outcomes.{chatwork_of}
use kibertas.Cli.Commands.{Adds-report_error, main_checker, main-from}
use kibertas.Cli.Effects.{Ours, run_command-Ours}

main-Ours :
    (command : Command) (flags : Flags) (env : Env)
    → IsLawful env
    → Walks env (Ours env (api_url (chatwork_of env))) (main command flags)
unfolding checker_of
main-Ours command flags env l s =
    main-from command flags env s (λ p. Runs env (Ours env (api_url (chatwork_of env))) s p.1)
      Runs.stay
      (Walks-on_error _ _ (run_command-Ours env l (main_checker flags env) command flags)
        (λ e. (Adds-report_error (chatwork_of env) (λ r same. same) e).at env l) s)

-- In a lawful environment, whatever command is run and however it ends, all that the program
-- creates, updates or deletes is in a namespace that it named for a test, or in the one that
-- RESOURCE_NAMESPACE gives, or is that namespace, and every message goes to its own room.
pub main_scope :
    (command : Command) (flags : Flags) (env : Env) (s : State)
    → IsLawful env
    → Since (Ours env (api_url (chatwork_of env))) s.calls (main command flags env s).1.calls
main_scope command flags env s l = Runs-Since (main-Ours command flags env l s)
