-- ===== src/Cli/Names.antt =====
-- The names of the namespaces in which the program acts.
use mathlib.Core.Path.{subst}
use kibertas.Prelude.{String, ◌⊎◌, inl, inr, List, ◌≡◌, sym}
use kibertas.Api.{Call}
use kibertas.Scope.{Effect, reads, creates, updates, deletes, posts, home, effect_of}
use kibertas.Run.{State, Env, IsLawful}
use kibertas.Run.Trace.{Since, Since-map}
use kibertas.Notify.{api_url}
use kibertas.Cmd.Labels.{IsLabel, IsDate, test_namespace-IsLabel}
use kibertas.Cmd.Effects.{IsTestNamespace, IsOurs}
use kibertas.Cli.{Command, Flags, main}
use kibertas.Cli.Outcomes.{chatwork_of}
use kibertas.Cli.Effects.{Permitted}
use kibertas.Cli.Scope.{main_scope}

-- The clock shows dates.
pub record ShowsDates (env : Env) : Type 0 where
  pub date : (calls : List Call) → IsDate (env.clock calls Call.now)

-- A label, or whatever the environment variable gives.
abbrev pub IsNamed : Env → String → Type 0
IsNamed env ns = IsLabel ns ⊎ (ns ≡ env.getenv "RESOURCE_NAMESPACE")

-- What is changed is in a namespace that is named so.
abbrev pub Changes : Env → Effect → Type 0
Changes env reads = Unit
Changes env (creates o) = IsNamed env (home o)
Changes env (updates o) = IsNamed env (home o)
Changes env (deletes o) = IsNamed env (home o)
Changes env (posts r) = Unit

module _ (env : Env) (dates : ShowsDates env) where
  IsTestNamespace-IsLabel : {ns : String} → IsTestNamespace env ns → IsLabel ns
  IsTestNamespace-IsLabel h = subst IsLabel (sym h.named) (
      test_namespace-IsLabel h.prefix h.time h.suffix h.begun
        (subst IsDate h.clock (dates.date h.moment)) h.drawn h.five)

  IsOurs-IsNamed : {ns : String} → IsOurs env ns → IsNamed env ns
  IsOurs-IsNamed (inl h) = inl (IsTestNamespace-IsLabel h)
  IsOurs-IsNamed (inr e) = inr e

  Permitted-Changes : (url : String) (e : Effect) → Permitted env url e → Changes env e
  Permitted-Changes url reads h = tt
  Permitted-Changes url (creates o) h = IsOurs-IsNamed h
  Permitted-Changes url (updates o) h = IsOurs-IsNamed h
  Permitted-Changes url (deletes o) h = IsOurs-IsNamed h
  Permitted-Changes url (posts r) h = tt

-- In a lawful environment whose clock shows dates before the year 10000, whatever command is run
-- and however it ends, every namespace in which the program creates, updates or deletes something
-- has a name that Kubernetes accepts, a label of at most 63 small letters, digits and dashes with
-- a letter or digit at both ends, or is the one that RESOURCE_NAMESPACE gives.
pub main_names :
    (command : Command) (flags : Flags) (env : Env) (s : State)
    → IsLawful env
    → ShowsDates env
    → Since (λ c. Changes env (effect_of c)) s.calls (main command flags env s).1.calls
main_names command flags env s l dates =
    let url = api_url (chatwork_of env) in
    Since-map (λ c. Permitted-Changes env dates url (effect_of c))
      (main_scope command flags env s l)
