-- ===== src/Steps/Guarded.antt =====
-- A check behind its two deferred calls, the clean-up and the message.
use kibertas.Prelude.{Bool, true, false, [], ◌≡◌, refl, ◌∙◌, if◌then◌else◌}
use kibertas.Run.{State, Outcome, ok, panicked, Env, IsLawful, Action, deferred, and_then}
use kibertas.Run.Lives.{Lives, Lives-deferred, deferred_lem}
use kibertas.Notify.{Chatwork, send}
use kibertas.Notify.Effects.{is_delivered, calls_after_send, send_lem}
use kibertas.Steps.{report_clean_up}
use kibertas.Steps.Effects.{Lives-report_clean_up}
use kibertas.Steps.CleanUp.{reported, Returns, report_clean_up_lem}

-- The end of a check, from the end of what it defers on and the state after the clean-up: the message
-- goes out, and its failure alone changes the result.
abbrev pub notified : Env → Chatwork → Outcome (Unit {0}) → State → Outcome (Unit {0}) × State
notified env c r s = (
  if is_delivered env c s then r else panicked,
  record { messages = []; calls = calls_after_send env c s },
)

and_then_sent :
    (r : Outcome (Unit {0})) (b : Bool)
    → and_then r (if b then ok tt else panicked) ≡ (if b then r else panicked)
and_then_sent r true = refl
and_then_sent r false = refl

module _ (c : Chatwork) (m : Action (Unit {0})) (lives : Lives m) (env : Env)
    (l : IsLawful env) where
  -- a deferred `Send`
  pub deferred-send :
      (s : State) → deferred (send c) m env s ≡ notified env c (m env s).0 (m env s).1
  deferred-send s = deferred_lem (send c) m lives env l s ∙ rw send_lem (rw and_then_sent)

module _ (clean_up body : Action (Unit {0})) (lives : Lives body) (env : Env) (l : IsLawful env)
    (s : State) where
  -- a deferred clean-up that returns
  pub clean_up_after :
      let (r, s1) = body env s in
      Returns (clean_up env s1).0
      → deferred (report_clean_up clean_up) body env s ≡ (r, reported (clean_up env s1))
  clean_up_after v =
      deferred_lem (report_clean_up clean_up) body lives env l s
      ∙ rw (report_clean_up_lem clean_up env (body env s).1 v) refl

module _ (c : Chatwork) (clean_up body : Action (Unit {0})) (lives : Lives body)
    (clean_up_lives : Lives clean_up) (env : Env) (l : IsLawful env) (s : State) where
  -- a deferred clean-up, and a deferred `Send` around it
  pub guarded_lem :
      let (r, s1) = body env s in
      Returns (clean_up env s1).0
      → deferred (send c) (deferred (report_clean_up clean_up) body) env s
        ≡ notified env c r (reported (clean_up env s1))
  guarded_lem v =
      deferred-send c (deferred (report_clean_up clean_up) body)
        (Lives-deferred _ _ (Lives-report_clean_up clean_up clean_up_lives) lives) env l s
      ∙ rw (deferred_lem (report_clean_up clean_up) body lives env l s)
          (rw (report_clean_up_lem clean_up env (body env s).1 v))
