-- ===== src/Fluent/Success.antt =====
-- The fluent check succeeds in a healthy environment.
use kibertas.Run.{or_throw, Env, IsLawful}
use kibertas.Run.Returns.{
  Returns, Succeeds, Returns-Succeeds, Succeeds-Returns, Succeeds-pure, Returns-pure, Returns-call,
  Returns-deref, Returns-skip, Succeeds-bind, Succeeds-if, Succeeds-on_error, Succeeds-deferred,
  Succeeds-ask, Succeeds-call, Succeeds-poll, Succeeds-or_throw, Returns-bind,
}
use kibertas.Healthy.{IsLong, IsHealthy}
use kibertas.K8s.Success.{
  Succeeds-create_namespace, Succeeds-create_deployment, Succeeds-delete_deployment,
  Succeeds-delete_namespace,
}
use kibertas.Steps.Success.{
  Succeeds-add_message, Succeeds-or_report, Succeeds-report_clean_up, Succeeds-report_nodes,
  Succeeds-attempt, Succeeds-send, Succeeds-announce_start, Succeeds-new_k8s_clientset,
  Succeeds-new_aws_config, Succeeds-generate_random_string, Succeeds-error_or_nil,
}
use kibertas.Prelude.{arith, ℕ, String, true, some, List, ◌∷◌, ◌≡◌, refl, arith, ltb, ◌<◌, ◌≤◌}
use kibertas.Api.{Call, S3Object}
use kibertas.Cmd.{Checker}
use kibertas.Fluent.Objects.{Fluent, new_fluent}
use kibertas.Fluent.Check.{
  set_replicas, create_resources, clean_up_resources, new_object, find_new_object, read_objects,
  object_available, check_s3_object, list_nodes, run_checks, check,
}

ltb-true : (a b n : ℕ) → a ≤ n → n < b → ltb a b ≡ true
ltb-true a b n h k = ground arith

module _ {env : Env} (l : IsLawful env) (healthy : IsHealthy env) where
  module _ (f : Fluent) (long : IsLong f.timeout) where
    Succeeds-create_resources : Succeeds env (create_resources f)
    unfolding create_resources
    Succeeds-create_resources =
        Succeeds-bind _ _ (Succeeds-or_report _ _ _ (Succeeds-create_namespace healthy _))
          (λ u1. Succeeds-or_report _ _ _ (Succeeds-create_deployment healthy _ _ _ long))

    Succeeds-clean_up_resources : Succeeds env (clean_up_resources f)
    unfolding clean_up_resources
    Succeeds-clean_up_resources = Succeeds-if _ _ _ (Succeeds-add_message _) (
        Succeeds-attempt _ _ _ _ _ (Succeeds-delete_deployment healthy _ _) (
          Succeeds-attempt _ _ _ _ _ (Succeeds-delete_namespace healthy _)
            (Succeeds-error_or_nil l)))

    Returns-new_object :
        (since modified : ℕ) (key : String)
        → ltb since modified ≡ true
        → Returns env
            (λ b. b ≡ true)
            (new_object f since (record { key = some key; last_modified = some modified }))
    unfolding new_object
    Returns-new_object since modified key h = Returns-deref _ _ refl (
        rw h (
          Returns-deref _ _ refl
            (Returns-skip _ _ (Succeeds-add_message _) (λ u. Returns-pure true refl))))

    Returns-find_new_object :
        (since modified : ℕ) (key : String) (items : List S3Object)
        → ltb since modified ≡ true
        → Returns env
            (λ b. b ≡ true)
            (find_new_object f since
              (record { key = some key; last_modified = some modified } ∷ items))
    unfolding find_new_object
    Returns-find_new_object since modified key items h =
        Returns-bind _ _ (Returns-new_object since modified key h)
          (λ found p. rw p (Returns-pure true refl))

    Succeeds-check_s3_object : Succeeds env (check_s3_object f)
    unfolding check_s3_object object_available read_objects
    Succeeds-check_s3_object = Returns-Succeeds (
        Returns-call (λ env. env.clock) _ _
          (λ before. Succeeds-Returns (
            Succeeds-on_error _ _ (
              Succeeds-poll healthy.patient _ _ _ _ (omega (arith, long.minute_lt)) long.bounded (
                Returns-call (λ env. env.objects) _ _
                  (λ calls.
                    let (key, modified, items, h, p) =
                      healthy.logged calls
                        (Call.list_objects f.log_bucket_name f.log_path f.use_path_style) in
                    rw h (
                      Returns-find_new_object _ modified key items
                        (ltb-true _ _ healthy.latest (healthy.clock_le before Call.now) p))))))))

    Succeeds-run_checks : Succeeds env (run_checks f)
    unfolding run_checks
    Succeeds-run_checks =
        Succeeds-deferred _ _ (Succeeds-report_clean_up _ Succeeds-clean_up_resources) (
          Succeeds-bind _ _ Succeeds-create_resources
            (λ u1. Succeeds-bind _ _ Succeeds-check_s3_object (λ u2. Succeeds-add_message _)))

  Succeeds-list_nodes : Succeeds env list_nodes
  unfolding list_nodes
  Succeeds-list_nodes = Returns-Succeeds (
      Returns-call (λ env. env.nodes) _ or_throw
        (λ calls.
          let (names, h) =
            healthy.lists_nodes calls (Call.list_nodes "eks.amazonaws.com/capacityType=SPOT") in
          Succeeds-Returns (Succeeds-or_throw _ h)))

  pub Succeeds-check : (f : Fluent) → IsLong f.timeout → Succeeds env (check f)
  unfolding check set_replicas
  Succeeds-check f long = Succeeds-bind _ _ (Succeeds-add_message _) (λ u1.
      Succeeds-deferred _ _ (Succeeds-send healthy _) (
        Succeeds-bind _ _ (Succeeds-report_nodes _ Succeeds-list_nodes) (λ nodes.
          Succeeds-bind _ _ (Succeeds-add_message _)
            (λ u2. Succeeds-run_checks (set_replicas f nodes) long))))

  pub Succeeds-new_fluent : (checker : Checker) → Succeeds env (new_fluent checker)
  unfolding new_fluent
  Succeeds-new_fluent checker = Succeeds-bind _ _ (Succeeds-call _ _) (λ t.
      Succeeds-bind _ _ (Succeeds-generate_random_string l 5) (λ s.
        Succeeds-bind _ _ (Succeeds-ask _) (λ a.
          Succeeds-bind _ _ (Succeeds-announce_start healthy _) (λ b.
            Succeeds-bind _ _ (Succeeds-add_message _) (λ c.
              Succeeds-bind _ _ (Succeeds-ask _) (λ d. Succeeds-bind _ _ (Succeeds-ask _) (λ e.
                Succeeds-bind _ _ (Succeeds-ask _) (λ f. Succeeds-bind _ _ (Succeeds-ask _) (λ g.
                  Succeeds-bind _ _ (Succeeds-ask _) (λ h.
                    Succeeds-bind _ _ (Succeeds-on_error _ _ (Succeeds-new_k8s_clientset healthy))
                      (λ i.
                        Succeeds-bind _ _ (Succeeds-on_error _ _ (Succeeds-new_aws_config healthy))
                          (λ j. Succeeds-pure _))))))))))))
