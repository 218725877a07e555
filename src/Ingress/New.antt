-- ===== src/Ingress/New.antt =====
-- `NewIngress`: what it does, and what it makes.
use kibertas.Prelude.{text_or, arith, false, Bool, ◌≡◌, refl}
use kibertas.Api.{Call}
use kibertas.Scope.{effect_of, reads}
use kibertas.Run.{Env, IsLawful}
use kibertas.Run.Adds.{Adds, Adds-bind, Adds-call, Adds-ask, Adds-pure}
use kibertas.Run.Makes.{Makes-ask, Makes, Makes-step, Makes-skip, Makes-pure}
use kibertas.Notify.Effects.{Adds-add_message}
use kibertas.Util.Random.{size}
use kibertas.Util.Texts.{all_of, first_is}
use kibertas.Cmd.Labels.{IsPrefix}
use kibertas.Cmd.{Checker}
use kibertas.Cmd.Effects.{
  IsTestNamespace, named_for_test, Adds-generate_random_string, Adds-announce_start, Adds-rethrow,
  Adds-new_k8s_clientset,
}
use kibertas.Ingress.Objects.{Ingress, new_ingress}

module _ {P : Call → Type 0} (quiet : (c : Call) → effect_of c ≡ reads → P c) where
  pub Adds-new_ingress :
      (checker : Checker) (no_dns_check : Bool) → Adds P (new_ingress checker no_dns_check)
  unfolding new_ingress
  Adds-new_ingress checker no_dns_check = Adds-bind _ _ (Adds-call _ _ (quiet _ refl) refl) (λ t.
      Adds-bind _ _ (Adds-generate_random_string quiet 5) (λ s.
        Adds-bind _ _ (Adds-announce_start (quiet _ refl) _) (λ a.
          Adds-bind _ _ (Adds-add_message _) (λ b. Adds-bind _ _ (Adds-ask _) (λ c.
            Adds-bind _ _ (Adds-ask _) (λ d. Adds-bind _ _ (Adds-ask _) (λ e.
              Adds-bind _ _ (Adds-rethrow _ _ (Adds-new_k8s_clientset quiet))
                (λ f. Adds-pure _))))))))

-- The settings of a check that the environment variables give, or their defaults.
pub record IsConfigured (env : Env) (i : Ingress) : Type 0 where
  pub resource_name : i.resource_name ≡ text_or (env.getenv "RESOURCE_NAME") "sample"
  pub external_hostname :
      i.external_hostname ≡ text_or (env.getenv "EXTERNAL_HOSTNAME") "example.local"
  pub http_check_endpoint : i.http_check_endpoint ≡ ""

-- what holds of a check that is made: its `Chatwork`, its namespace, its mode and its settings
abbrev pub MadeIngress : Env → Checker → Ingress → Type 0
MadeIngress env checker i =
    (i.chatwork ≡ checker.chatwork)
    × IsTestNamespace env i.namespace
    × (i.debug ≡ checker.debug)
    × (i.timeout ≡ checker.timeout)
    × IsConfigured env i

prefix-IsPrefix : IsPrefix "ingress"
unfolding all_of first_is size
prefix-IsPrefix = record { characters = refl; begins = refl; short = omega arith }

pub new_ingress-Makes :
    (checker : Checker) (no_dns_check : Bool) (env : Env)
    → IsLawful env
    → Makes env (MadeIngress env checker) (new_ingress checker no_dns_check)
unfolding new_ingress
new_ingress-Makes checker no_dns_check env l = Makes-step _ _ (λ s0 time u0 read.
    Makes-step _ _ (λ s1 suffix s2 e. Makes-skip _ _ (λ u3. Makes-skip _ _ (λ u4. Makes-ask _ _ (
      Makes-ask _ _ (
        Makes-ask _ _ (
          Makes-skip _ _ (λ u8. Makes-pure _ (
            refl,
            (named_for_test "ingress" env s0 s1 l prefix-IsPrefix read e),
            refl,
            refl,
            record { resource_name = refl; external_hostname = refl; http_check_endpoint = refl },
          )))))))))

-- a check that is made skips the DNS check as it is told to, and never the HTTP check
pub new_ingress-Skips :
    (checker : Checker) (no_dns_check : Bool) (env : Env)
    → Makes env
        (λ i. (i.no_dns_check ≡ no_dns_check) × (i.no_http_check ≡ false))
        (new_ingress checker no_dns_check)
unfolding new_ingress
new_ingress-Skips checker no_dns_check env = Makes-skip _ _ (λ time. Makes-skip _ _ (λ suffix.
    Makes-skip _ _ (λ u3. Makes-skip _ _ (λ u4. Makes-skip _ _ (λ u5.
      Makes-skip _ _
        (λ u6. Makes-skip _ _ (λ u7. Makes-skip _ _ (λ u8. Makes-pure _ (refl, refl)))))))))
