-- ===== src/CertManager/New.antt =====
-- `NewCertManager`: what it does, and what it makes.
use kibertas.Prelude.{text_or, arith, ◌≡◌, refl}
use kibertas.Api.{Call}
use kibertas.Scope.{effect_of, reads}
use kibertas.Run.{Env, IsLawful}
use kibertas.Run.Adds.{Adds, Adds-bind, Adds-call, Adds-ask, Adds-pure}
use kibertas.Run.Makes.{Makes-ask, Makes, Makes-step, Makes-skip, Makes-pure}
use kibertas.Notify.Effects.{Adds-add_message}
use kibertas.Util.Random.{size}
use kibertas.Util.Texts.{all_of, first_is}
use kibertas.Cmd.Labels.{IsPrefix}
use kibertas.Cmd.{Checker}
use kibertas.Cmd.Effects.{
  IsTestNamespace, named_for_test, Adds-generate_random_string, Adds-announce_start, Adds-rethrow,
  Adds-new_k8s_clientset, Adds-new_k8s_client,
}
use kibertas.CertManager.Objects.{CertManager, new_cert_manager}

module _ {P : Call → Type 0} (quiet : (c : Call) → effect_of c ≡ reads → P c) where
  pub Adds-new_cert_manager : (checker : Checker) → Adds P (new_cert_manager checker)
  unfolding new_cert_manager
  Adds-new_cert_manager checker = Adds-bind _ _ (Adds-call _ _ (quiet _ refl) refl) (λ t.
      Adds-bind _ _ (Adds-generate_random_string quiet 5) (λ s. Adds-bind _ _ (Adds-ask _) (λ a.
        Adds-bind _ _ (Adds-announce_start (quiet _ refl) _) (λ b.
          Adds-bind _ _ (Adds-add_message _) (λ c.
            Adds-bind _ _ (Adds-rethrow _ _ (Adds-new_k8s_clientset quiet)) (λ d.
              Adds-bind _ _ (Adds-rethrow _ _ (Adds-new_k8s_client quiet)) (λ e. Adds-pure _)))))))

-- The settings of a check that the environment variables give, or their defaults.
pub record IsConfigured (env : Env) (c : CertManager) : Type 0 where
  pub resource_name : c.resource_name ≡ text_or (env.getenv "RESOURCE_NAME") "sample"

-- what holds of a check that is made: its `Chatwork`, its namespace, its mode and its settings
abbrev pub MadeCertManager : Env → Checker → CertManager → Type 0
MadeCertManager env checker c =
    (c.chatwork ≡ checker.chatwork)
    × IsTestNamespace env c.namespace
    × (c.debug ≡ checker.debug)
    × (c.timeout ≡ checker.timeout)
    × IsConfigured env c

prefix-IsPrefix : IsPrefix "cert-manager"
unfolding all_of first_is size
prefix-IsPrefix = record { characters = refl; begins = refl; short = omega arith }

pub new_cert_manager-Makes :
    (checker : Checker) (env : Env)
    → IsLawful env
    → Makes env (MadeCertManager env checker) (new_cert_manager checker)
unfolding new_cert_manager
new_cert_manager-Makes checker env l = Makes-step _ _ (λ s0 time u0 read.
    Makes-step _ _ (λ s1 suffix s2 e. Makes-ask _ _ (
      Makes-skip _ _ (λ u4. Makes-skip _ _ (λ u5. Makes-skip _ _ (λ u6. Makes-skip _ _ (λ u7.
        Makes-pure _ (
          refl,
          (named_for_test "cert-manager" env s0 s1 l prefix-IsPrefix read e),
          refl,
          refl,
          record { resource_name = refl },
        ))))))))
