-- ===== src/Fluent/New.antt =====
-- `NewFluent`: what it does, and what it makes.
use kibertas.Prelude.{List, ap, sym, text_or, arith, ◌≡◌, refl}
use kibertas.Api.{Call}
use kibertas.Scope.{effect_of, reads}
use kibertas.Run.{call, Env, IsLawful}
use kibertas.Run.Adds.{Adds, Adds-bind, Adds-call, Adds-ask, Adds-pure}
use kibertas.Run.Makes.{Makes-ask, ok_value, Makes, Makes-step, Makes-skip, Makes-ask, Makes-pure}
use kibertas.Notify.Effects.{Adds-add_message}
use kibertas.Util.Random.{size}
use kibertas.Util.Texts.{all_of, first_is}
use kibertas.Cmd.Labels.{IsPrefix}
use kibertas.Cmd.{test_namespace, Checker}
use kibertas.Cmd.Effects.{
  IsOurs, named_for_test, given_or_for_test, Adds-generate_random_string, Adds-announce_start,
  Adds-rethrow, Adds-new_k8s_clientset, Adds-new_aws_config,
}
use kibertas.Fluent.Objects.{default_log_path, Fluent, new_fluent}

module _ {P : Call → Type 0} (quiet : (c : Call) → effect_of c ≡ reads → P c) where
  pub Adds-new_fluent : (checker : Checker) → Adds P (new_fluent checker)
  unfolding new_fluent
  Adds-new_fluent checker = Adds-bind _ _ (Adds-call _ _ (quiet _ refl) refl) (λ t.
      Adds-bind _ _ (Adds-generate_random_string quiet 5) (λ s. Adds-bind _ _ (Adds-ask _) (λ a.
        Adds-bind _ _ (Adds-announce_start (quiet _ refl) _) (λ b.
          Adds-bind _ _ (Adds-add_message _) (λ c. Adds-bind _ _ (Adds-ask _) (λ d.
            Adds-bind _ _ (Adds-ask _) (λ e. Adds-bind _ _ (Adds-ask _) (λ f.
              Adds-bind _ _ (Adds-ask _) (λ g. Adds-bind _ _ (Adds-ask _) (λ h.
                Adds-bind _ _ (Adds-rethrow _ _ (Adds-new_k8s_clientset quiet)) (λ i.
                  Adds-bind _ _ (Adds-rethrow _ _ (Adds-new_aws_config quiet))
                    (λ j. Adds-pure _))))))))))))

-- The settings of a check that the environment variables give, or their defaults.
pub record IsConfigured (env : Env) (f : Fluent) : Type 0 where
  pub resource_name : f.resource_name ≡ text_or (env.getenv "RESOURCE_NAME") "burst-log-generator"
  pub log_bucket_name : f.log_bucket_name ≡ text_or (env.getenv "LOG_BUCKET_NAME") "kubernetes-logs"
  pub moment : List Call
  pub log_path :
      f.log_path
      ≡ text_or (env.getenv "LOG_PATH") (
          default_log_path
            (text_or (env.getenv "ENV") "test")
            f.namespace
            (env.clock moment Call.now))

-- what holds of a check that is made: its `Chatwork`, its namespace, its mode and its settings
abbrev pub MadeFluent : Env → Checker → Fluent → Type 0
MadeFluent env checker f =
    (f.chatwork ≡ checker.chatwork)
    × IsOurs env f.namespace
    × (f.debug ≡ checker.debug)
    × (f.timeout ≡ checker.timeout)
    × IsConfigured env f

prefix-IsPrefix : IsPrefix "fluent"
unfolding all_of first_is size
prefix-IsPrefix = record { characters = refl; begins = refl; short = omega arith }

pub new_fluent-Makes :
    (checker : Checker) (env : Env)
    → IsLawful env
    → Makes env (MadeFluent env checker) (new_fluent checker)
unfolding new_fluent call
new_fluent-Makes checker env l = Makes-step _ _ (λ s0 time u0 read.
    Makes-step _ _ (λ s1 suffix s2 e. Makes-ask _ _ (
      Makes-skip _ _ (λ u4. Makes-skip _ _ (λ u5. Makes-ask _ _ (
        Makes-ask _ _ (
          Makes-ask _ _ (
            Makes-ask _ _ (
              Makes-ask _ _ (
                Makes-skip _ _ (λ u11. Makes-skip _ _ (λ u12. Makes-pure _ (
                  refl,
                  (given_or_for_test env _
                      (named_for_test "fluent" env s0 s1 l prefix-IsPrefix read e)),
                  refl,
                  refl,
                  record {
                    resource_name = refl;
                    log_bucket_name = refl;
                    moment = s0.calls;
                    log_path =
                        ap
                          (λ t. text_or (env.getenv "LOG_PATH") (
                            default_log_path (text_or (env.getenv "ENV") "test")
                              (text_or (env.getenv "RESOURCE_NAMESPACE")
                                (test_namespace "fluent" time suffix))
                              t))
                          (sym (ok_value read));
                  },
                )))))))))))))
