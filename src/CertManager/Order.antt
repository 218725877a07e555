-- ===== src/CertManager/Order.antt =====
-- In which order a cert-manager check asks for its certificates.
use kibertas.Prelude.{[], String, List, inl, inr, ◌⊎◌, ◌≡◌, refl}
use kibertas.Api.{Call}
use kibertas.Run.{Action, State, Env, IsLawful}
use kibertas.Run.Adds.{Adds, adds_rules}
use kibertas.Run.Seen.{Anything, Seen, later, Seen-first}
use kibertas.Run.Goes.{
  Follows, Goes, Goes-bind, Goes-issue, Goes-weaken, Goes-deferred, Goes-shown, Any, Adds-keeping,
}
use kibertas.Notify.Effects.{Adds-add_message, Adds-send}
use kibertas.Steps.Effects.{steps_adds, Adds-or_report, Adds-report_clean_up}
use kibertas.Steps.Housed.{Goes-or_report}
use kibertas.K8s.{create_namespace, delete_namespace}
use kibertas.K8s.Effects.{Adds-create_or_update}
use kibertas.CertManager.Objects.{CertManager, Certificates, create_certificate_object}
use kibertas.CertManager.Evidence.{Present, Adds-wait_for_secret, wait_for_secret-Shows}
use kibertas.CertManager.Check.{
  secret_ready, wait_for_secret, create_cert, create_resources, clean_up_resources, run_checks,
  check,
}

-- The secret of the root CA has been read, and was there.
abbrev pub HasRoot : Env → CertManager → Certificates → List Call → Type 0
HasRoot env c cert calls = Seen (Present env c.namespace cert.root_ca.secret_name) [] calls

-- What may be asked for after these calls: the root CA at any time, another certificate or an issuer
-- once the secret of the root CA is there.
abbrev pub MaySign : Env → CertManager → Certificates → List Call → Call → Type 0
MaySign env c cert calls (Call.create_certificate x) = (x ≡ cert.root_ca) ⊎ HasRoot env c cert calls
MaySign env c cert calls (Call.create_issuer x) = HasRoot env c cert calls
MaySign env c cert calls _ = Unit

-- Neither is asked for.
abbrev Plain : Call → Type 0
Plain (Call.create_certificate x) = ⊥
Plain (Call.create_issuer x) = ⊥
Plain _ = Unit

module _ (env : Env) (c : CertManager) (cert : Certificates) (calls : List Call) where
  Plain-MaySign : (call : Call) → Plain call → MaySign env c cert calls call
  Plain-MaySign (Call.create_certificate x) p = absurd p
  Plain-MaySign (Call.create_issuer x) p = absurd p
  Plain-MaySign _ p = p

  HasRoot-MaySign : (call : Call) → HasRoot env c cert calls → MaySign env c cert calls call
  HasRoot-MaySign (Call.create_certificate x) h = inr h
  HasRoot-MaySign (Call.create_issuer x) h = h
  HasRoot-MaySign _ h = tt

module _ {env : Env} (l : IsLawful env) (c : CertManager) where
  module _ (cert : Certificates) where
    -- an action that asks for neither
    Adds-Plain :
        {A : Type 0} {m : Action A} → Adds Plain m → Goes env (MaySign env c cert) Any Any m
    Adds-Plain = Adds-keeping (λ calls x p b. (Plain-MaySign env c cert calls x p, tt)) l

    -- an action where the secret is there
    Adds-HasRoot :
        {A : Type 0} {m : Action A}
        → Adds Anything m
        → Goes env (MaySign env c cert) (HasRoot env c cert) (HasRoot env c cert) m
    Adds-HasRoot = Adds-keeping (λ calls x p h. (HasRoot-MaySign env c cert calls x h, later h)) l

    wait-Plain : (name front : String) → Adds Plain (wait_for_secret c name front)
    unfolding wait_for_secret secret_ready
    wait-Plain name front = search (adds_rules, tt) depth 9

    create_cert-Goes : Goes env (MaySign env c cert) Any Any (create_cert c cert)
    unfolding create_cert
    create_cert-Goes =
        Goes-bind _ _ (λ calls b. b) (Adds-Plain (Adds-add_message _))
          (λ u1.
            Goes-bind _ _ (λ calls b. b) (Goes-issue _ l (λ calls b. inl refl) (λ calls b. tt))
              (λ u2.
                Goes-shown (λ calls b. b) _ _ (wait_for_secret-Shows c _ _ env l)
                  (λ u3.
                    Goes-weaken (λ calls (old, seen). Seen-first seen) (λ calls h. tt)
                      (Adds-HasRoot
                        (search (adds_rules, steps_adds, Adds-wait_for_secret) depth 12)))
                  (Adds-Plain (wait-Plain _ _))))

    namespace-Plain : (n : String) → Adds Plain (create_namespace n)
    unfolding create_namespace
    namespace-Plain n = Adds-create_or_update _ _ tt tt refl refl

    run_checks-Goes : Goes env (MaySign env c cert) Any Any (run_checks c cert)
    unfolding run_checks create_resources
    run_checks-Goes =
        Goes-bind _ _ (λ calls b. b)
          (Goes-bind _ _ (λ calls b. b) (Adds-Plain (Adds-or_report _ _ _ (namespace-Plain _)))
            (λ u. Goes-or_report l _ create_cert-Goes _ _))
          (λ v. Adds-Plain (Adds-add_message _))

    clean_up-Plain : Adds Plain (clean_up_resources c cert)
    unfolding clean_up_resources delete_namespace
    clean_up-Plain = search (adds_rules, steps_adds, tt) depth 12

  check-Goes : Goes env (MaySign env c (create_certificate_object c)) Any Any (check c)
  unfolding check
  check-Goes =
      let cert = create_certificate_object c in
      Goes-bind _ _ (λ calls b. b) (Adds-Plain cert (Adds-add_message _))
        (λ u.
          Goes-deferred (λ calls b. b) _ _ (Adds-Plain cert (Adds-send _ (λ r same. tt)))
            (Goes-deferred (λ calls b. b) _ _
              (Adds-Plain cert (Adds-report_clean_up _ (clean_up-Plain cert)))
              (run_checks-Goes cert)))

-- In a lawful environment, however a cert-manager check ends, every issuer that it asks for, and
-- every certificate but the root CA, is asked for only after the secret of the root CA has been
-- read and was there.
pub check-Follows :
    (c : CertManager) (env : Env) (s : State)
    → IsLawful env
    → Follows (MaySign env c (create_certificate_object c)) s.calls (check c env s).1.calls
check-Follows c env s l = ((check-Goes l c).at s tt).0
