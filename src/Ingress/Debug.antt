-- ===== src/Ingress/Debug.antt =====
-- In debug mode the ingress check deletes nothing.
use kibertas.Prelude.{true, ◌≡◌}
use kibertas.Scope.{Keeps, Owned-Keeps}
use kibertas.Run.Adds.{Adds, Adds-bind, Adds-deferred, Adds-map}
use kibertas.Notify.Effects.{Adds-add_message, Adds-send}
use kibertas.Steps.Effects.{Adds-report_clean_up}
use kibertas.Ingress.Owns.{things, run_checks-Owned}
use kibertas.Ingress.Objects.{Ingress}
use kibertas.Ingress.Check.{clean_up_resources, check}

module _ (i : Ingress) (debug : i.debug ≡ true) where
  clean_up-Keeps : Adds Keeps (clean_up_resources i)
  unfolding clean_up_resources
  clean_up-Keeps = rw debug (Adds-add_message _)

  pub check-Keeps : Adds Keeps (check i)
  unfolding check
  check-Keeps = Adds-bind _ _ (Adds-add_message _) (λ u.
      Adds-deferred _ _ (Adds-send i.chatwork (λ r same. tt)) (
        Adds-deferred _ _ (Adds-report_clean_up _ clean_up-Keeps)
          (Adds-map (Owned-Keeps (things i)) (run_checks-Owned i))))
