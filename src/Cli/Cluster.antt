-- ===== src/Cli/Cluster.antt =====
-- What a run of the program makes of the cluster.
use mathlib.Core.Path.{subst}
use kibertas.Prelude.{false, ◌≡◌, ◌↔◌}
use kibertas.Api.{Call}
use kibertas.Scope.{Thing, home, creates, deletes, effect_of}
use kibertas.Run.{State, Env, IsLawful}
use kibertas.Run.Left.{Left}
use kibertas.Run.Cluster.{Exists, IsObedient, Exists-Left, Exists-before, Exists-after}
use kibertas.Notify.{api_url}
use kibertas.Cmd.Effects.{IsOurs}
use kibertas.Cli.{Command, Flags, main}
use kibertas.Cli.Outcomes.{chatwork_of}
use kibertas.Cli.Effects.{Permitted, Ours}
use kibertas.Cli.Scope.{main_scope}
use kibertas.Cli.Cleared.{main-Left}

-- In a lawful environment in which a request to delete a thing that is there succeeds if its
-- context is never cancelled, outside debug mode, whatever command is run and however it ends, a
-- thing that the calls before the run have not left behind is not in the cluster when the run
-- ends, where a thing is in the cluster if its creation succeeded and no deletion of it or of its
-- namespace has succeeded since. The requests of the program with its own context may be refused
-- at any time.
pub main_cluster :
    (command : Command) (flags : Flags) (env : Env) (s : State) (o : Thing)
    → IsLawful env
    → IsObedient env
    → flags.debug ≡ false
    → ¬ Left o s.calls
    → ¬ Exists env o (main command flags env s).1.calls
main_cluster command flags env s o l obeys debug before exists =
    main-Left command flags env s o l debug before (Exists-Left obeys exists)

-- In a lawful environment, whatever command is run and however it ends, a thing whose namespace is
-- neither named for a test nor the one that RESOURCE_NAMESPACE gives is in the cluster after the
-- run exactly if it was before.
pub main_elsewhere :
    (command : Command) (flags : Flags) (env : Env) (s : State) (o : Thing)
    → IsLawful env
    → ¬ IsOurs env (home o)
    → Exists env o s.calls ↔ Exists env o (main command flags env s).1.calls
main_elsewhere command flags env s o l other =
    let url = api_url (chatwork_of env) in
    let since = main_scope command flags env s l in
    let uncreated = λ (c : Call) (p : Ours env url c) (e : effect_of c ≡ creates o).
      other (subst (Permitted env url) e p) in
    let undeleted = λ (c : Call) (p : Ours env url c) (e : effect_of c ≡ deletes o).
      other (subst (Permitted env url) e p) in
    let housed =
      λ (c : Call) (p : Ours env url c) (e : effect_of c ≡ deletes (Thing.namespace (home o))).
        other (subst (Permitted env url) e p) in
    (Exists-after uncreated undeleted housed since, Exists-before uncreated undeleted housed since)
