-- ===== src/Steps/Success.antt =====
-- The steps that the checks share succeed in a healthy environment.
use kibertas.Prelude.{ℕ, String, List, [], ◌≡◌, refl, ◌∙◌}
use kibertas.Go.Errors.{Error}
use kibertas.Api.{Call}
use kibertas.Run.{ok, Env, IsLawful, Action, pure, ◌>>=◌, ◌>>◌}
use kibertas.Run.Success.{>>=-of_ok}
use kibertas.Run.Returns.{
  Succeeds, Returns-Succeeds, Succeeds-Returns, Succeeds-pure, Returns-call, Returns-or_throw,
  Returns-ask, Succeeds-check_nil, Succeeds-bind, on_error-of_ok, Succeeds-on_error, Succeeds-call,
}
use kibertas.Healthy.{IsHealthy}
use kibertas.Notify.{Chatwork, add_message, send, api_url, send_request}
use kibertas.Notify.Effects.{is_delivered, send_lem, calls_after_send}
use kibertas.Util.{generate_random_string}
use kibertas.Util.Random.{generate_random_string_lem}
use kibertas.Config.{new_k8s_clientset, new_k8s_client, new_aws_config}
use kibertas.Cmd.{announce_start}
use kibertas.K8s.Success.{Succeeds-issue}
use kibertas.Steps.{or_report, attempt, error_or_nil, report_clean_up, report_nodes}

module _ {env : Env} where
  pub Succeeds-add_message : (m : String) → Succeeds env (add_message m)
  unfolding add_message
  Succeeds-add_message m = record { at = λ s. (tt, _, refl) }

  pub Succeeds-or_report :
      (front back : String) (m : Action (Unit {0}))
      → Succeeds env m
      → Succeeds env (or_report front back m)
  unfolding or_report
  Succeeds-or_report front back m h = Succeeds-on_error _ _ h

  pub Succeeds-report_clean_up :
      (m : Action (Unit {0})) → Succeeds env m → Succeeds env (report_clean_up m)
  unfolding report_clean_up
  Succeeds-report_clean_up m h = Succeeds-on_error _ _ h

  pub Succeeds-report_nodes :
      (m : Action (List String)) → Succeeds env m → Succeeds env (report_nodes m)
  unfolding report_nodes
  Succeeds-report_nodes m h = Succeeds-on_error _ _ h

  -- a deletion that succeeds adds no error to those before
  pub Succeeds-attempt :
      {B : Type 0} (front back : String) (m : Action (Unit {0})) (result : List Error)
      (k : List Error → Action B)
      → Succeeds env m
      → Succeeds env (k result)
      → Succeeds env (attempt front back m result >>= k)
  unfolding attempt pure
  Succeeds-attempt front back m result k h next = record {
    at = λ s.
        let (u, t, e) = h.at s in
        let (b, t', e') = next.at t in
        let tried : (m >> pure result) env s ≡ (ok result, t) = >>=-of_ok m _ env s e in
        let whole : attempt front back m result env s ≡ (ok result, t) =
          on_error-of_ok _ _ s tried in
        (b, t', >>=-of_ok (attempt front back m result) k env s whole ∙ e');
  }

module _ {env : Env} (healthy : IsHealthy env) where
  pub Succeeds-send : (c : Chatwork) → Succeeds env (send c)
  unfolding is_delivered
  Succeeds-send c = record {
    at = λ s.
        let (status, p) = healthy.posts s.calls (Call.post_message (send_request c s.messages)) in
        (
          tt,
          record { messages = []; calls = calls_after_send env c s },
          rw send_lem (rw (healthy.urls (api_url c), is_delivered) (rw (p, is_delivered) refl)),
        );
  }

  pub Succeeds-announce_start : (name : String) → Succeeds env (announce_start name)
  unfolding announce_start
  Succeeds-announce_start name = Returns-Succeeds (
      Returns-ask _ _ (
        Succeeds-Returns
          (Succeeds-bind _ _ (Succeeds-call _ _) (λ t. rw healthy.tokyo (Succeeds-add_message _)))))

  pub Succeeds-new_k8s_clientset : Succeeds env new_k8s_clientset
  unfolding new_k8s_clientset
  Succeeds-new_k8s_clientset =
      Succeeds-bind _ _ (Succeeds-issue healthy _) (λ u. Succeeds-issue healthy _)

  pub Succeeds-new_k8s_client : Succeeds env new_k8s_client
  unfolding new_k8s_client
  Succeeds-new_k8s_client =
      Succeeds-bind _ _ (Succeeds-on_error _ _ (Succeeds-issue healthy _))
        (λ u. Succeeds-issue healthy _)

  pub Succeeds-new_aws_config : Succeeds env new_aws_config
  unfolding new_aws_config
  Succeeds-new_aws_config = Returns-Succeeds {Q = λ a. Unit {0}} (
      Returns-call (λ env. env.aws) _ _
        (λ calls.
          let (cfg, h, p) = healthy.aws_config calls Call.load_aws_config in
          Returns-or_throw {Q = λ a. Unit {0}} _ _ h (rw p (Succeeds-Returns (Succeeds-pure cfg)))))

pub Succeeds-generate_random_string :
    {env : Env} → IsLawful env → (n : ℕ) → Succeeds env (generate_random_string n)
Succeeds-generate_random_string {env} l n = record {
  at = λ s. let (str, t, e, p, q) = generate_random_string_lem env n s l in (str, t, e);
}

pub Succeeds-error_or_nil : {env : Env} → IsLawful env → Succeeds env (error_or_nil [])
unfolding error_or_nil
Succeeds-error_or_nil l =
    Returns-Succeeds (Returns-ask _ _ (Succeeds-Returns (Succeeds-check_nil _ l.no_errors)))
