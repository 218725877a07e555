-- ===== src/CertManager/Evidence.antt =====
-- What a successful cert-manager check has seen.
use mathlib.Core.Path.{subst}
use kibertas.Prelude.{◌*◌, String, Bool, true, Option, none, some, List, ◌∷◌, ◌≡◌, refl, ap, sym}
use kibertas.Go.Errors.{Error}
use kibertas.Api.{Call}
use kibertas.Run.{State, Outcome, ok, Env, IsLawful, ◌>>=◌}
use kibertas.Run.Adds.{Adds-issue, Adds, adds_rules}
use kibertas.Run.Trace.{same}
use kibertas.Run.Seen.{Anything, Seen, here}
use kibertas.Notify.{api_url}
use kibertas.Notify.Effects.{Adds-add_message}
use kibertas.K8s.{second}
use kibertas.K8s.Effects.{create_namespace-Within}
use kibertas.Steps.Effects.{steps_adds, Adds-or_report}
use kibertas.Steps.Shows.{Shows-or_report, Shows-cleaned, Shows-sent}
use kibertas.Run.Shows.{
  IsObservation, Seen-IsObservation, Both, Both-IsObservation, Shows, any_call, Shows-Both,
  Shows-first, Shows-rest, Shows-poll,
}
use kibertas.CertManager.Effects.{clean_up-Within}
use kibertas.CertManager.Objects.{CertManager, Certificates, create_certificate_object}
use kibertas.CertManager.Check.{
  is_there, secret_ready, wait_for_secret, create_cert, create_resources, run_checks, check,
}

-- The answer to a read of a secret, that it is there.
abbrev pub Present : Env → String → String → List Call → Call → Type 0
Present env ns name before c = (c ≡ Call.get_secret ns name) × (env.issue before c ≡ none)

is_there-true :
    (o : Option Error) (s : State) {t : State}
    → (◌≡◌ {A = Outcome Bool × State} (ok (is_there o), s) (ok true, t))
    → (o ≡ none) × (t.calls ≡ s.calls)
is_there-true none s h = (refl, sym (ap (λ (p : Outcome Bool × State). p.1.calls) h))
is_there-true (some e) s h = cc

secret_ready-true :
    (c : CertManager) (name : String) (env : Env) (s : State) {t : State}
    → secret_ready c name env s ≡ (ok true, t)
    → Seen (Present env c.namespace name) s.calls t.calls
unfolding secret_ready ◌>>=◌
secret_ready-true c name env s {t} h =
    let a = Call.get_secret c.namespace name in
    let (p, e) = is_there-true (env.issue s.calls a) (record s { calls = a ∷ s.calls }) h in
    subst (Seen (Present env c.namespace name) s.calls) (sym e) (here same (refl, p))

Adds-secret_ready : (c : CertManager) (name : String) → Adds Anything (secret_ready c name)
unfolding secret_ready
Adds-secret_ready c name = search (adds_rules, tt) depth 6

pub Adds-wait_for_secret :
    (c : CertManager) (name front : String) → Adds Anything (wait_for_secret c name front)
unfolding wait_for_secret
Adds-wait_for_secret c name front = search (adds_rules, Adds-secret_ready)

pub wait_for_secret-Shows :
    (c : CertManager) (name front : String) (env : Env)
    → IsLawful env
    → Shows env (Seen (Present env c.namespace name)) (wait_for_secret c name front)
unfolding wait_for_secret
wait_for_secret-Shows c name front env l =
    Shows-poll l Seen-IsObservation (5 * second) c.timeout true front (secret_ready c name)
      (Adds-secret_ready c name) (λ s t h. secret_ready-true c name env s h)

-- what is seen of the secrets of the root CA and of the certificate
abbrev pub Issued : Env → CertManager → Certificates → List Call → List Call → Type 0
Issued env c cert =
    Both (Seen (Present env c.namespace cert.root_ca.secret_name))
      (Seen (Present env c.namespace cert.certificate.secret_name))

pub Issued-IsObservation :
    (env : Env) (c : CertManager) (cert : Certificates) → IsObservation (Issued env c cert)
Issued-IsObservation env c cert = Both-IsObservation Seen-IsObservation Seen-IsObservation

module _ (c : CertManager) (cert : Certificates) (env : Env) (l : IsLawful env) where
  create_cert-root :
      Shows env (Seen (Present env c.namespace cert.root_ca.secret_name)) (create_cert c cert)
  unfolding create_cert
  create_cert-root = Shows-rest l Seen-IsObservation _ _ (Adds-add_message _) (λ u1.
      Shows-rest l Seen-IsObservation _ _ (Adds-issue _ tt refl) (λ u2.
        Shows-first l Seen-IsObservation _ _ (wait_for_secret-Shows c _ _ env l)
          (λ u3. search (adds_rules, steps_adds, Adds-wait_for_secret) depth 12)))

  create_cert-certificate :
      Shows env (Seen (Present env c.namespace cert.certificate.secret_name)) (create_cert c cert)
  unfolding create_cert
  create_cert-certificate = Shows-rest l Seen-IsObservation _ _ (Adds-add_message _) (λ u1.
      Shows-rest l Seen-IsObservation _ _ (Adds-issue _ tt refl) (λ u2.
        Shows-rest l Seen-IsObservation _ _ (Adds-wait_for_secret c _ _) (λ u3.
          Shows-rest l Seen-IsObservation _ _ (Adds-add_message _) (λ u4.
            Shows-rest l Seen-IsObservation _ _ (Adds-issue _ tt refl) (λ u5.
              Shows-rest l Seen-IsObservation _ _ (Adds-add_message _) (λ u6.
                Shows-rest l Seen-IsObservation _ _ (Adds-issue _ tt refl)
                  (λ u7. wait_for_secret-Shows c _ _ env l)))))))

  run_checks-Issued : Shows env (Issued env c cert) (run_checks c cert)
  unfolding run_checks create_resources
  run_checks-Issued =
      let o = Issued-IsObservation env c cert in
      Shows-first l o _ _
        (Shows-rest l o _ _
          (Adds-or_report _ _ _ (any_call (create_namespace-Within (api_url c.chatwork) _)))
          (λ u. Shows-or_report _ _ _ (Shows-Both create_cert-root create_cert-certificate)))
        (λ v. Adds-add_message _)

pub check-Issued :
    (c : CertManager) (env : Env)
    → IsLawful env
    → Shows env (Issued env c (create_certificate_object c)) (check c)
unfolding check
check-Issued c env l =
    let cert = create_certificate_object c in
    let o = Issued-IsObservation env c cert in
    Shows-rest l o _ _ (Adds-add_message _) (λ u.
      Shows-sent l o _ _
        (Shows-cleaned l o _ _ (any_call (clean_up-Within c)) (run_checks-Issued c cert env l)))

-- In a lawful environment, a cert-manager check that returns no error has, since it began, read
-- the secret of its root CA and the secret of its certificate, and both were there.
pub secrets-Seen :
    (c : CertManager) (env : Env) (s : State) {t : State}
    → IsLawful env
    → check c env s ≡ (ok tt, t)
    → let cert = create_certificate_object c in
      Seen (Present env c.namespace cert.root_ca.secret_name) s.calls t.calls
      × Seen (Present env c.namespace cert.certificate.secret_name) s.calls t.calls
secrets-Seen c env s l h = (check-Issued c env l).at s h
