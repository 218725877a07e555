-- ===== src/Cli/Says.antt =====
-- What the five checks say on the way to success.
use kibertas.Prelude.{String, none, List, [], ◌∷◌, ◌≡◌, ap, ◌∙◌}
use kibertas.Run.{Env, IsLawful, Action, deferred}
use kibertas.Run.Adds.{Adds, Adds-if}
use kibertas.Run.Log.{log-say}
use kibertas.Run.Says.{Says, Says-one, Says-nothing, Says-deferred, Says-then}
use kibertas.Scope.{Within}
use kibertas.Notify.{Chatwork, api_url, add_message, send}
use kibertas.Notify.Effects.{Adds-add_message, Adds-send}
use kibertas.Steps.{report_clean_up}
use kibertas.Steps.Effects.{Adds-report_clean_up, Adds-or_report, Adds-report_nodes}
use kibertas.K8s.Effects.{k8s_within, create_namespace-Within}
use kibertas.Ingress.Objects.{Ingress}
use kibertas.Ingress.Check as IngressCheck
use kibertas.Ingress.Effects as IngressEffects
use kibertas.Fluent.Objects.{Fluent}
use kibertas.Fluent.Check as FluentCheck
use kibertas.Fluent.Effects as FluentEffects
use kibertas.ClusterAutoscaler.Objects.{ClusterAutoscaler, create_deployment_object}
use kibertas.K8s.{create_deployment, new_k8s}
use kibertas.ClusterAutoscaler.Check as ScalerCheck
use kibertas.ClusterAutoscaler.Effects as ScalerEffects
use kibertas.CertManager.Objects.{CertManager}
use kibertas.CertManager.Check as CertsCheck
use kibertas.CertManager.Effects as CertsEffects
use kibertas.DatadogAgent.Client.{DatadogClient}
use kibertas.DatadogAgent.Check.{DatadogAgent}
use kibertas.DatadogAgent.Effects.{with_client}
use kibertas.DatadogAgent.Check as DatadogCheck
use kibertas.DatadogAgent.Effects as DatadogEffects

Says-add_message : {env : Env} (m : String) → Says env (m ∷ []) (add_message m)
unfolding add_message
Says-add_message m = Says-one (λ s. log-say s m)

-- A check whose calls are in a namespace, and whose messages go to a well-formed URL.
module _ {env : Env} (l : IsLawful env) (c : Chatwork) (ns : String)
    (h : env.bad_url (api_url c) ≡ none) where
  nothing : {A : Type 0} {m : Action A} → Adds (Within (api_url c) ns) m → Says env [] m
  nothing k = Says-nothing l (Within (api_url c) ns) (λ r same. ap env.bad_url same ∙ h) k

  sent :
      {ms : List String} {m : Action (Unit {0})} → Says env ms m → Says env ms (deferred (send c) m)
  sent {m} k =
      Says-deferred l (Within (api_url c) ns) (λ r same. ap env.bad_url same ∙ h) (send c) m
        (Adds-send c (λ r same. same)) k

  cleaned :
      {ms : List String} {clean_up m : Action (Unit {0})}
      → Adds (Within (api_url c) ns) clean_up
      → Says env ms m
      → Says env ms (deferred (report_clean_up clean_up) m)
  cleaned {clean_up} {m} a k =
      Says-deferred l (Within (api_url c) ns) (λ r same. ap env.bad_url same ∙ h)
        (report_clean_up clean_up) m (Adds-report_clean_up clean_up a) k

ready :
    (c : ClusterAutoscaler)
    → Adds
        (Within (api_url c.chatwork) c.namespace)
        (create_deployment (new_k8s c.namespace) (create_deployment_object c) c.timeout)
unfolding new_k8s
ready c = search k8s_within depth 5

module _ {env : Env} (l : IsLawful env) where
  pub ingress-Says :
      (i : Ingress)
      → env.bad_url (api_url i.chatwork) ≡ none
      → Says env ("Ingress check start\n" ∷ "Ingress check finished\n" ∷ []) (IngressCheck.check i)
  unfolding IngressCheck.check IngressCheck.run_checks
  ingress-Says i h = Says-then _ _ (Says-add_message _) (λ u. sent l i.chatwork i.namespace h (
      cleaned l i.chatwork i.namespace h (IngressEffects.clean_up-Within i) (
        Says-then _ _
          (nothing l i.chatwork i.namespace h (IngressEffects.create_resources-Within i))
          (λ v.
            Says-then _ _
              (nothing l i.chatwork i.namespace h
                (Adds-if _ _ _ (Adds-add_message _) (IngressEffects.check_dns-Within i)))
              (λ w.
                Says-then _ _
                  (nothing l i.chatwork i.namespace h
                    (Adds-if _ _ _ (Adds-add_message _) (IngressEffects.check_http-Within i)))
                  (λ x. Says-add_message _))))))

  pub fluent-Says :
      (f : Fluent)
      → env.bad_url (api_url f.chatwork) ≡ none
      → Says env ("fluent check start\n" ∷ "fluent check finished\n" ∷ []) (FluentCheck.check f)
  unfolding FluentCheck.check FluentCheck.run_checks FluentCheck.set_replicas
  fluent-Says f h = Says-then _ _ (Says-add_message _) (λ u. sent l f.chatwork f.namespace h (
      Says-then _ _
        (nothing l f.chatwork f.namespace h
          (Adds-report_nodes _ (FluentEffects.list_nodes-Within _ _)))
        (λ nodes. Says-then _ _ (nothing l f.chatwork f.namespace h (Adds-add_message _)) (λ v.
          let f' = FluentCheck.set_replicas f nodes in
          cleaned l f.chatwork f.namespace h (FluentEffects.clean_up-Within f') (
            Says-then _ _
              (nothing l f.chatwork f.namespace h (FluentEffects.create_resources-Within f'))
              (λ w.
                Says-then _ _
                  (nothing l f.chatwork f.namespace h (FluentEffects.check_s3_object-Within f'))
                  (λ x. Says-add_message _)))))))

  pub cluster_autoscaler-Says :
      (c : ClusterAutoscaler)
      → env.bad_url (api_url c.chatwork) ≡ none
      → Says env
          ("cluster-autoscaler check start\n" ∷ "cluster-autoscaler check finished\n" ∷ [])
          (ScalerCheck.check c)
  unfolding ScalerCheck.check ScalerCheck.run_checks ScalerCheck.set_replicas
      ScalerCheck.create_resources
  cluster_autoscaler-Says c h = Says-then _ _ (Says-add_message _) (λ u.
      sent l c.chatwork c.namespace h (
        Says-then _ _
          (nothing l c.chatwork c.namespace h
            (Adds-report_nodes _ (ScalerEffects.list_nodes-Within _ _ c)))
          (λ nodes. Says-then _ _ (nothing l c.chatwork c.namespace h (Adds-add_message _)) (λ v.
            let c' = ScalerCheck.set_replicas c nodes in
            cleaned l c.chatwork c.namespace h (ScalerEffects.clean_up-Within c') (
              Says-then _ _
                (nothing l c.chatwork c.namespace h
                  (Adds-or_report _ _ _ (create_namespace-Within _ _)))
                (λ w. Says-then _ _ (nothing l c.chatwork c.namespace h (Adds-add_message _)) (λ x.
                  Says-then _ _
                    (nothing l c.chatwork c.namespace h (Adds-or_report _ _ _ (ready c')))
                    (λ y. Says-add_message _))))))))

  pub cert_manager-Says :
      (c : CertManager)
      → env.bad_url (api_url c.chatwork) ≡ none
      → Says env
          ("cert-manager check start\n" ∷ "cert-manager check finished\n" ∷ [])
          (CertsCheck.check c)
  unfolding CertsCheck.check CertsCheck.run_checks
  cert_manager-Says c h = Says-then _ _ (Says-add_message _) (λ u. sent l c.chatwork c.namespace h (
      cleaned l c.chatwork c.namespace h (CertsEffects.clean_up-Within c) (
        Says-then _ _ (nothing l c.chatwork c.namespace h (CertsEffects.create_resources-Within c))
          (λ v. Says-add_message _))))

  pub datadog_agent-Says :
      (d : DatadogAgent) (client : DatadogClient)
      → env.bad_url (api_url d.chatwork) ≡ none
      → Says env
          ("datadog-agent check start\n" ∷ "datadog-agent check finished\n" ∷ [])
          (DatadogCheck.check (with_client d client))
  unfolding DatadogCheck.check DatadogCheck.run_checks
  datadog_agent-Says d client h = sent l d.chatwork "" h (
      Says-then _ _ (Says-add_message _) (λ u.
        Says-then _ _
          (nothing l d.chatwork "" h (DatadogEffects.reported_metrics-Within "" d client))
          (λ v. Says-add_message _)))
