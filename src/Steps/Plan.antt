-- ===== src/Steps/Plan.antt =====
-- What a check promises, without its deferred calls: it works, it tidies up however the work ends, and it
-- sends its messages.
use mathlib.Core.Path.{subst}
use kibertas.Prelude.{
  String, ◌<>◌, Bool, true, false, List, [], ◌∷◌, ◌++◌, ◌≡◌, refl, sym, ◌∙◌, ap, if◌then◌else◌,
}
use kibertas.Go.Errors.{Error, text}
use kibertas.Api.{Call, Reply, answer, refused}
use kibertas.Run.{
  State, Outcome, ok, fail, Env, IsLawful, Action, ◌>>=◌, ◌>>◌, deferred, call, or_throw,
}
use kibertas.Run.Lives.{Lives, lives_rules}
use kibertas.Notify.{Chatwork, add_message, send}
use kibertas.Steps.{report_clean_up, report_nodes}
use kibertas.Steps.Effects.{steps_lives}
use kibertas.Steps.CleanUp.{
  Deletion, cleaned, attempt_all, attempt_all_lem, reported, cleaned-Returns, Returns,
}
use kibertas.Steps.Guarded.{notified, deferred-send, clean_up_after, guarded_lem}

pub record Plan : Type 0 where
  pub chatwork : Chatwork
  pub debug : Bool
  pub deletions : List Deletion
  pub work : Action (Unit {0})

-- What the clean-up makes of a state: in debug mode it says that it is skipped, and otherwise it tries all
-- deletions.
abbrev pub tidied : Bool → List Deletion → Env → State → Outcome (Unit {0}) × State
tidied debug deletions env s =
    if debug
    then (ok tt, record s { messages = s.messages ++ "Skip Delete Resources\n" ∷ [] })
    else cleaned env s deletions

-- The work and the report of the clean-up after it.
abbrev pub worked : Plan → Env → State → Outcome (Unit {0}) × State
worked plan env s =
    let (r, s1) = plan.work env s in (r, reported (tidied plan.debug plan.deletions env s1))

-- And the message.
abbrev pub carried_out : Plan → Env → State → Outcome (Unit {0}) × State
carried_out plan env s = let (r, s1) = worked plan env s in notified env plan.chatwork r s1

-- A plan for the nodes that are listed: it is carried out once they are announced, and where they cannot
-- be listed their error is reported.
abbrev pub for_nodes :
    Chatwork
    → (List String → Plan)
    → (List String → String)
    → Reply (List String)
    → Env
    → State
    → Outcome (Unit {0}) × State
for_nodes chatwork plan announced (answer nodes) env s =
    carried_out (plan nodes) env (record s { messages = s.messages ++ announced nodes ∷ [] })
for_nodes chatwork plan announced (refused e) env s =
    notified env chatwork (fail e)
      (record s { messages = s.messages ++ ("Error List Nodes: " <> (text e <> "\n")) ∷ [] })

-- The nodes that have a label are listed first.
abbrev pub counted :
    Chatwork
    → String
    → (List String → Plan)
    → (List String → String)
    → Env
    → State
    → Outcome (Unit {0}) × State
counted chatwork label plan announced env s =
    let c = Call.list_nodes label in
    for_nodes chatwork plan announced (env.nodes s.calls c) env (record s { calls = c ∷ s.calls })

tidied-Returns :
    (b : Bool) (ds : List Deletion) (env : Env) (s : State) → Returns (tidied b ds env s).0
tidied-Returns true ds env s = tt
tidied-Returns false ds env s = cleaned-Returns env s ds

-- A clean-up that is skipped in debug mode, and tries its deletions otherwise.
pub tidied_lem :
    (clean_up : Action (Unit {0})) (b : Bool) (ds : List Deletion) (env : Env) (s : State)
    → clean_up env s
      ≡ (if b then add_message "Skip Delete Resources\n" else attempt_all ds []) env s
    → clean_up env s ≡ tidied b ds env s
unfolding add_message
tidied_lem clean_up true ds env s h = h
tidied_lem clean_up false ds env s h = h ∙ attempt_all_lem ds env s

module _ (plan : Plan) (clean_up : Action (Unit {0})) (lives : Lives plan.work) (env : Env)
    (l : IsLawful env)
    (tidies : (s : State) → clean_up env s ≡ tidied plan.debug plan.deletions env s) where
  returns : (s : State) → Returns (clean_up env s).0
  returns s =
      subst (λ p. Returns p.0) (sym (tidies s)) (tidied-Returns plan.debug plan.deletions env s)

  pub worked_lem :
      (s : State) → deferred (report_clean_up clean_up) plan.work env s ≡ worked plan env s
  worked_lem s =
      clean_up_after clean_up plan.work lives env l s (returns (plan.work env s).1)
      ∙ ap (λ p. ((plan.work env s).0, reported p)) (tidies (plan.work env s).1)

  pub carried_out_lem :
      Lives clean_up
      → (s : State)
      → deferred (send plan.chatwork) (deferred (report_clean_up clean_up) plan.work) env s
        ≡ carried_out plan env s
  carried_out_lem clean_up_lives s =
      guarded_lem plan.chatwork clean_up plan.work lives clean_up_lives env l s
        (returns (plan.work env s).1)
      ∙ ap (λ p. notified env plan.chatwork (plan.work env s).0 (reported p))
          (tidies (plan.work env s).1)

-- A check that lists nodes, announces how many there are, and carries out a plan for them.
module _ (label : String) (announced : List String → String) (plan : List String → Plan)
    (body : List String → Action (Unit {0})) (env : Env) where
  abbrev listing : Action (Unit {0})
  listing = do
    nodes ← report_nodes (do reply ← call (λ e. e.nodes) (Call.list_nodes label); or_throw reply)
    add_message (announced nodes)
    body nodes

  abbrev listed : State → List Call
  listed s = Call.list_nodes label ∷ s.calls

  listing-answer :
      (s : State) (nodes : List String)
      → env.nodes s.calls (Call.list_nodes label) ≡ answer nodes
      → listing env s
        ≡ body nodes env
            (record { messages = s.messages ++ announced nodes ∷ []; calls = listed s })
  unfolding report_nodes add_message ◌>>=◌
  listing-answer s nodes p = rw p refl

  listing-refused :
      (s : State) (e : Error)
      → env.nodes s.calls (Call.list_nodes label) ≡ refused e
      → listing env s ≡ (
        fail e,
        record {
          messages = s.messages ++ ("Error List Nodes: " <> (text e <> "\n")) ∷ [];
          calls = listed s;
        },
      )
  unfolding report_nodes add_message ◌>>=◌
  listing-refused s e p = rw p refl

  module _ (chatwork : Chatwork) (l : IsLawful env)
      (same : (nodes : List String) → (plan nodes).chatwork ≡ chatwork)
      (works : (nodes : List String) (s : State) → body nodes env s ≡ worked (plan nodes) env s)
      (lives : (nodes : List String) → Lives (body nodes)) (s : State) where
    Lives-listing : Lives listing
    Lives-listing = search (lives_rules, steps_lives, lives) depth 9

    counts :
        (r : Reply (List String))
        → env.nodes s.calls (Call.list_nodes label) ≡ r
        → notified env chatwork (listing env s).0 (listing env s).1
          ≡ for_nodes chatwork plan announced r env (record s { calls = listed s })
    counts (answer nodes) p = rw (listing-answer s nodes p, works, same) refl
    counts (refused e) p = rw (listing-refused s e p) refl

    pub counted_lem :
        deferred (send chatwork) listing env s ≡ counted chatwork label plan announced env s
    counted_lem =
        deferred-send chatwork listing Lives-listing env l s
        ∙ counts (env.nodes s.calls (Call.list_nodes label)) refl
