-- ===== src/Steps/CleanUp.antt =====
-- What a clean-up promises: every deletion is tried, in order, and every error is gathered.
use kibertas.Prelude.{
  String, ◌<>◌, Option, none, some, List, [], ◌∷◌, ◌++◌, ◌≡◌, refl, arith, append_assoc, append-nil,
  ◌∙◌, Option-cases, inl, inr,
}
use kibertas.Go.Errors.{Error, text}
use kibertas.Api.{Call}
use kibertas.Run.{
  State, Outcome, ok, fail, panicked, exited, Env, Action, ◌>>=◌, issue, handle, on_error,
}
use kibertas.Run.Success.{>>=-of_ok}
use kibertas.Notify.{add_message}
use kibertas.Steps.{attempt, error_or_nil, report_clean_up}

-- A deletion: the call, and the text around its error in the message.
pub record Deletion : Type 0 where
  pub front : String
  pub back : String
  pub deletes : Call

-- The errors that the environment answers to calls made one after the other.
unfoldable pub refusals : Env → List Call → List Deletion → List Error
refusals env calls [] = []
refusals env calls (d ∷ ds) =
    let rest = refusals env (d.deletes ∷ calls) ds in
    elim (env.issue calls d.deletes) [ none ↦ rest | some e ↦ e ∷ rest ]

-- The calls after those.
unfoldable pub issued : List Call → List Deletion → List Call
issued calls [] = calls
issued calls (d ∷ ds) = issued (d.deletes ∷ calls) ds

-- The messages about those errors.
unfoldable pub refusal_messages : Env → List Call → List Deletion → List String
refusal_messages env calls [] = []
refusal_messages env calls (d ∷ ds) =
    let rest = refusal_messages env (d.deletes ∷ calls) ds in
    elim (env.issue calls d.deletes) [
      | none ↦ rest
      | some e ↦ (d.front <> (text e <> d.back)) ∷ rest
    ]

-- What `ErrorOrNil` makes of errors.
abbrev pub gathered : Env → List Error → Outcome (Unit {0})
gathered env es = elim (env.error_or_nil es) [ none ↦ ok tt | some e ↦ fail e ]

-- The state and the result that a clean-up of these deletions promises.
abbrev pub cleaned : Env → State → List Deletion → Outcome (Unit {0}) × State
cleaned env s ds = (
  gathered env (refusals env s.calls ds),
  record { messages = s.messages ++ refusal_messages env s.calls ds; calls = issued s.calls ds },
)

-- The deletions of a list, tried one after the other.
unfoldable pub attempt_all : List Deletion → List Error → Action (Unit {0})
attempt_all [] r = error_or_nil r
attempt_all (d ∷ ds) r = do r' ← attempt d.front d.back (issue d.deletes) r; attempt_all ds r'

module _ (front back : String) (c : Call) (r : List Error) (env : Env) (s : State) where
  attempt-none :
      env.issue s.calls c ≡ none
      → attempt front back (issue c) r env s ≡ (ok r, record s { calls = c ∷ s.calls })
  unfolding attempt issue ◌>>=◌
  attempt-none h = ground arith

  attempt-some :
      (e : Error)
      → env.issue s.calls c ≡ some e
      → attempt front back (issue c) r env s ≡ (
        ok (r ++ e ∷ []),
        record { messages = s.messages ++ (front <> (text e <> back)) ∷ []; calls = c ∷ s.calls },
      )
  unfolding attempt issue add_message ◌>>=◌
  attempt-some e h = ground arith

attempt_all_nil :
    (r : List Error) (env : Env) (s : State) → attempt_all [] r env s ≡ (gathered env r, s)
unfolding attempt_all error_or_nil ◌>>=◌
attempt_all_nil r env s = ground arith

abbrev cleaned_from : List Error → Env → State → List Deletion → Outcome (Unit {0}) × State
cleaned_from r env s ds = (
  gathered env (r ++ refusals env s.calls ds),
  record { messages = s.messages ++ refusal_messages env s.calls ds; calls = issued s.calls ds },
)

module _ (d : Deletion) (ds : List Deletion) (r : List Error) (env : Env) (s : State) where
  cleaned_none :
      env.issue s.calls d.deletes ≡ none
      → cleaned_from r env (record s { calls = d.deletes ∷ s.calls }) ds
        ≡ cleaned_from r env s (d ∷ ds)
  unfolding refusals issued refusal_messages
  cleaned_none h = rw (h, refusals, refusal_messages)

  cleaned_some :
      (e : Error)
      → env.issue s.calls d.deletes ≡ some e
      → cleaned_from
          (r ++ e ∷ [])
          env
          (record {
            messages = s.messages ++ (d.front <> (text e <> d.back)) ∷ [];
            calls = d.deletes ∷ s.calls;
          })
          ds
        ≡ cleaned_from r env s (d ∷ ds)
  unfolding refusals issued refusal_messages
  cleaned_some e h = rw (h, refusals, refusal_messages) (simp append_assoc)

attempt_all_from :
    (ds : List Deletion) (r : List Error) (env : Env) (s : State)
    → attempt_all ds r env s ≡ cleaned_from r env s ds
unfolding attempt_all refusals issued refusal_messages
attempt_all_from [] r env s = attempt_all_nil r env s ∙ simp append-nil
attempt_all_from (d ∷ ds) r env s = elim (Option-cases (env.issue s.calls d.deletes)) [
  | inl h ↦
      >>=-of_ok _ _ env s (attempt-none d.front d.back d.deletes r env s h)
      ∙ attempt_all_from ds r env (record s { calls = d.deletes ∷ s.calls })
      ∙ cleaned_none d ds r env s h
  | inr (e, h) ↦
      >>=-of_ok _ _ env s (attempt-some d.front d.back d.deletes r env s e h)
      ∙ attempt_all_from ds (r ++ e ∷ []) env (record {
        messages = s.messages ++ (d.front <> (text e <> d.back)) ∷ [];
        calls = d.deletes ∷ s.calls;
      })
      ∙ cleaned_some d ds r env s e h
]

-- Trying a list of deletions does what `cleaned` says.
pub attempt_all_lem :
    (ds : List Deletion) (env : Env) (s : State) → attempt_all ds [] env s ≡ cleaned env s ds
attempt_all_lem ds env s = attempt_all_from ds [] env s

-- The state after the report of a clean-up's result.
abbrev pub reported : Outcome (Unit {0}) × State → State
reported (ok u, s) = s
reported (fail e, s) = record s {
  messages = s.messages ++ ("Error Delete Resources: " <> (text e <> "\n")) ∷ [];
}
reported (panicked, s) = s
reported (exited, s) = s

abbrev pub Returns : Outcome (Unit {0}) → Type 0
Returns (ok u) = Unit
Returns (fail e) = Unit
Returns panicked = ⊥
Returns exited = ⊥

gathered-Returns : (o : Option Error) → Returns (elim o [ none ↦ ok tt | some e ↦ fail e ])
gathered-Returns none = tt
gathered-Returns (some e) = tt

report_handled :
    (p : Outcome (Unit {0}) × State) (env : Env)
    → Returns p.0
    → handle p.0 (λ e. add_message ("Error Delete Resources: " <> (text e <> "\n"))) env p.1
      ≡ (ok tt, reported p)
unfolding add_message
report_handled (ok u, s) env v = refl
report_handled (fail e, s) env v = refl
report_handled (panicked, s) env v = absurd v
report_handled (exited, s) env v = absurd v

-- The deferred report of a clean-up that returns has no error of its own.
pub report_clean_up_lem :
    (m : Action (Unit {0})) (env : Env) (s : State)
    → Returns (m env s).0
    → report_clean_up m env s ≡ (ok tt, reported (m env s))
unfolding report_clean_up on_error
report_clean_up_lem m env s v = report_handled (m env s) env v

pub cleaned-Returns : (env : Env) (s : State) (ds : List Deletion) → Returns (cleaned env s ds).0
cleaned-Returns env s ds = gathered-Returns (env.error_or_nil (refusals env s.calls ds))

reported_calls : (p : Outcome (Unit {0}) × State) → (reported p).calls ≡ p.1.calls
reported_calls (ok u, s) = refl
reported_calls (fail e, s) = refl
reported_calls (panicked, s) = refl
reported_calls (exited, s) = refl

-- The calls after a reported clean-up: the deletions, all of them, in order.
pub calls_reported :
    (env : Env) (s : State) (ds : List Deletion)
    → (reported (cleaned env s ds)).calls ≡ issued s.calls ds
calls_reported env s ds = reported_calls (cleaned env s ds)
