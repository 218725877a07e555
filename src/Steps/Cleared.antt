-- ===== src/Steps/Cleared.antt =====
-- A check whose clean-up deletes all that it may have created leaves nothing.
use mathlib.Core.Path.{subst}
use kibertas.Prelude.{List, [], ◌∷◌, ◌≡◌, sym, ap, ◌∙◌}
use kibertas.Api.{Call}
use kibertas.Scope.{Thing, deletes, effect_of, Among, first, later, Owned}
use kibertas.Run.{State, Outcome, Env, IsLawful, Action, deferred}
use kibertas.Run.Adds.{Adds, Adds-Since}
use kibertas.Run.Lives.{Lives}
use kibertas.Run.Left.{Left, asked, still, Left-Since, Owned-spares, Clears, Adds-Clears}
use kibertas.Notify.{Chatwork, send}
use kibertas.Notify.Effects.{Adds-send}
use kibertas.Steps.{report_clean_up}
use kibertas.Steps.CleanUp.{
  Deletion, issued, cleaned, reported, Returns, cleaned-Returns, calls_reported,
}
use kibertas.Steps.Guarded.{clean_up_after}

-- The deletions of a list delete the things of another, in the same order.
pub data AreDeleted : List Deletion → List Thing → Type 0 where
  end : AreDeleted [] []
  then :
      {d : Deletion} {ds : List Deletion} {o : Thing} {os : List Thing}
      → effect_of d.deletes ≡ deletes o
      → AreDeleted ds os
      → AreDeleted (d ∷ ds) (o ∷ os)

-- What is left before the last deletion, and is not the thing deleted.
before_deletion :
    {o p : Thing} {c : Call} {calls : List Call}
    → effect_of c ≡ deletes p
    → Left o (c ∷ calls)
    → Left o calls × (o ≡ p → ⊥)
before_deletion e (asked q) = cc (sym e ∙ q)
before_deletion e (still n h) = (h, λ q. n (e ∙ ap deletes (sym q)))

-- What is left after deletions was left before, and is none of the things deleted.
Left-issued :
    {o : Thing} {ds : List Deletion} {os : List Thing} (calls : List Call)
    → AreDeleted ds os
    → Left o (issued calls ds)
    → Left o calls × (Among o os → ⊥)
unfolding issued
Left-issued calls end left = (left, λ among. elim among [ ])
Left-issued calls (then {d} e k) left =
    let (rest, others) = Left-issued (d.deletes ∷ calls) k left in
    let (h, other) = before_deletion e rest in
    (h, λ among. elim among [ first q ↦ other q | later m ↦ others m ])

-- A clean-up that is deferred on the steps that create things, and deletes them all.
module _ (clean_up body : Action (Unit {0})) {ds : List Deletion} {things : List Thing} {env : Env}
    (l : IsLawful env) (deleted : AreDeleted ds things)
    (cleans : (s : State) → clean_up env s ≡ cleaned env s ds) (owned : Adds (Owned things) body)
    (lives : Lives body) where
  calls_after :
      (s : State)
      → (deferred (report_clean_up clean_up) body env s).1.calls ≡ issued (body env s).1.calls ds
  calls_after s =
      let s1 = (body env s).1 in
      ap (λ (p : Outcome (Unit {0}) × State). p.1.calls)
        (clean_up_after clean_up body lives env l s
          (subst (λ p. Returns p.0) (sym (cleans s1)) (cleaned-Returns env s1 ds)))
      ∙ ap (λ p. (reported p).calls) (cleans s1)
      ∙ calls_reported env s1 ds

  pub Clears-cleaned : Clears env (deferred (report_clean_up clean_up) body)
  Clears-cleaned = record {
    at = λ s o left.
        let (h, other) =
          Left-issued (body env s).1.calls deleted (subst (Left o) (calls_after s) left) in
        Left-Since (Owned-spares things o other) (Adds-Since owned env l s) h;
  }

pub Clears-send : {env : Env} (l : IsLawful env) (c : Chatwork) → Clears env (send c)
Clears-send l c = Adds-Clears l (Adds-send c (λ r same. tt))
