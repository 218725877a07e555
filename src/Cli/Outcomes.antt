-- ===== src/Cli/Outcomes.antt =====
-- How the program ends.
use kibertas.Logger.{init_logger}
use kibertas.Api.{Reply, answer, refused}
use kibertas.Prelude.{ℕ, text_or, ◌<>◌, Bool, true, false, [], ◌∷◌, ◌++◌, ◌≡◌, refl, if◌then◌else◌}
use kibertas.Go.Errors.{Error, text}
use kibertas.Run.{
  State, Outcome, ok, fail, panicked, exited, Env, handle, on_error, ◌>>=◌, continue, exit,
}
use kibertas.Run.Success.{>>=-ok}
use kibertas.Notify.{Chatwork, new_chatwork, add_message}
use kibertas.Notify.Effects.{is_delivered, calls_after_send, send_lem}
use kibertas.Cmd.{Checker}
use kibertas.Cli.{
  Command, Flags, checker_of, run_command, run_cluster_autoscaler, run_ingress, run_fluent,
  run_datadog_agent, run_cert_manager, run_all, initial_log_level, init_chatwork, report_error,
  main,
}

-- The `Chatwork` of a run.
abbrev pub chatwork_of : Env → Chatwork
chatwork_of env = record {
  api_token = env.getenv "CHATWORK_API_TOKEN";
  room_id = env.getenv "CHATWORK_ROOM_ID";
  site = text_or (env.getenv "CHATWORK_SITE") "api.chatwork.com";
}

-- The state of a run when the error of a command has been added to the messages.
abbrev pub failed : State → Error → State
failed s e = record s { messages = s.messages ++ ("Error: " <> (text e <> "\n")) ∷ [] }

exit_after :
    (b : Bool) (env : Env) (s : State)
    → continue (if b then ok tt else panicked) (λ (u : Unit {0}). exit {A = Unit {0}}) env s
      ≡ (if b then exited else panicked, s)
unfolding ◌>>=◌
exit_after true env s = refl
exit_after false env s = refl

-- What `main` makes of the end of a command: an error is sent, with all that is unsent, and ends the
-- process; if that message has no response, this is a panic.
abbrev pub ended : Env → Chatwork → Outcome (Unit {0}) → State → Outcome (Unit {0}) × State
ended env c (ok u) s = (ok u, s)
ended env c (fail e) s = (
  if is_delivered env c (failed s e) then exited else panicked,
  record { messages = []; calls = calls_after_send env c (failed s e) },
)
ended env c panicked s = (panicked, s)
ended env c exited s = (exited, s)

-- The run of a command, and what `main` makes of its end; or a panic, where the logger's level is refused.
abbrev pub run_through : Command → Flags → Env → State → Reply ℕ → Outcome (Unit {0}) × State
run_through command flags env s (answer level) =
    let checker = checker_of flags (chatwork_of env) (env.getenv "CLUSTER_NAME") in
    let (r, s1) = run_command command flags checker env s in ended env (chatwork_of env) r s1
run_through command flags env s (refused e) = (panicked, s)

handle-report_error :
    (c : Chatwork) (env : Env) (r : Outcome (Unit {0})) (s : State)
    → handle r (report_error c) env s ≡ ended env c r s
unfolding report_error add_message ◌>>=◌
handle-report_error c env (ok u) s = refl
handle-report_error c env (fail e) s =
    rw send_lem (exit_after (is_delivered env c (failed s e)) env _)
handle-report_error c env panicked s = refl
handle-report_error c env exited s = refl

main-run_through :
    (command : Command) (flags : Flags) (env : Env) (s : State) (level : Reply ℕ)
    → env.parse_level initial_log_level ≡ level
    → main command flags env s ≡ run_through command flags env s level
unfolding main init_logger init_chatwork new_chatwork on_error ◌>>=◌
main-run_through command flags env s (answer level) p =
    rw p (handle-report_error (chatwork_of env) env _ _)
main-run_through command flags env s (refused e) p = rw p refl

-- main runs its command from where it began, with the Chatwork and the cluster name of the
-- environment variables: if the command returns no error, main ends where the command ends; if it
-- returns an error, main sends a message with it and all that the command left unsent, and ends
-- the process, or panics if that message has no response; a panic of the command is one of main;
-- and if the level info is unknown to the logger, main panics before anything else.
pub main_lem :
    (command : Command) (flags : Flags) (env : Env) (s : State)
    → main command flags env s ≡ run_through command flags env s (env.parse_level initial_log_level)
main_lem command flags env s =
    main-run_through command flags env s (env.parse_level initial_log_level) refl

-- test all returns no error only if each of the five commands, run one after the other from where
-- the one before ended, returned none; the DNS check of the ingress is not skipped.
run_all-ok :
    (checker : Checker) (env : Env) (s : State) {t : State}
    → run_all checker env s ≡ (ok tt, t)
    → (s1 s2 s3 s4 : State) × (run_cluster_autoscaler checker env s ≡ (ok tt, s1))
      × (run_ingress checker false env s1 ≡ (ok tt, s2))
      × (run_fluent checker env s2 ≡ (ok tt, s3))
      × (run_datadog_agent checker env s3 ≡ (ok tt, s4))
      × (run_cert_manager checker env s4 ≡ (ok tt, t))
unfolding run_all
run_all-ok checker env s h =
    let (u1, s1, p1, h1) = >>=-ok (run_cluster_autoscaler checker) _ env s h in
    let (u2, s2, p2, h2) = >>=-ok (run_ingress checker false) _ env s1 h1 in
    let (u3, s3, p3, h3) = >>=-ok (run_fluent checker) _ env s2 h2 in
    let (u4, s4, p4, h4) = >>=-ok (run_datadog_agent checker) _ env s3 h3 in
    (s1, s2, s3, s4, p1, p2, p3, p4, h4)
