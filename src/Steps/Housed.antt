-- ===== src/Steps/Housed.antt =====
-- The shared steps go where the actions go that they guard.
use kibertas.Prelude.{String, List}
use kibertas.Go.Errors.{Error}
use kibertas.Api.{Call}
use kibertas.Run.{Env, IsLawful, Action, ◌>>=◌, deferred}
use kibertas.Run.Adds.{Adds, adds_rules, Adds-pure}
use kibertas.Run.Housed.{There, Adds-Goes, Adds-Aside, MayHouse, Inside}
use kibertas.Run.Goes.{Any, Goes-weaken, Goes-deferred, Goes, Goes-bind, Goes-on_error, Adds-still}
use kibertas.Notify.Effects.{Adds-add_message, Adds-send}
use kibertas.Notify.{Chatwork, add_message, send}
use kibertas.Steps.Effects.{Adds-error_or_nil}
use kibertas.Steps.{error_or_nil, or_report, attempt, report_clean_up}

module _ {env : Env} {May : List Call → Call → Type 0} {B C : List Call → Type 0} (l : IsLawful env)
    (m : Action (Unit {0})) (k : Goes env May B C m) where
  pub Goes-or_report : (front back : String) → Goes env May B C (or_report front back m)
  unfolding or_report
  Goes-or_report front back =
      Goes-on_error (λ calls c. c) _ _ k
        (λ e. Adds-still l (search (adds_rules, Adds-add_message) depth 6))

  pub Goes-attempt :
      (front back : String) (r : List Error) → Goes env May B C (attempt front back m r)
  unfolding attempt
  Goes-attempt front back r =
      Goes-on_error (λ calls c. c) _ _
        (Goes-bind _ _ (λ calls c. c) k (λ u. Adds-still l (Adds-pure r)))
        (λ e. Adds-still l (search (adds_rules, Adds-add_message) depth 6))

  pub Goes-report_clean_up : Goes env May B C (report_clean_up m)
  unfolding report_clean_up
  Goes-report_clean_up = Goes-on_error (λ calls c. c) _ _ k (λ e. Adds-still l (Adds-add_message _))

-- A clean-up: deletions inside a namespace, and that of the namespace at last.
module _ {env : Env} {n : String} (l : IsLawful env) where
  pub Goes-delete :
      (front back : String) (m : Action (Unit {0})) (r : List Error)
      (f : List Error → Action (Unit {0}))
      → Adds (Inside n) m
      → ((r : List Error) → Goes env MayHouse (There n) Any (f r))
      → Goes env MayHouse (There n) Any (attempt front back m r >>= f)
  Goes-delete front back m r f inside k =
      Goes-bind _ _ (λ calls h. tt) (Goes-attempt l m (Adds-Goes l inside) front back r) k

  pub Goes-end :
      (front back : String) (m : Action (Unit {0})) (r : List Error)
      → Goes env MayHouse (There n) Any m
      → Goes env MayHouse (There n) Any (attempt front back m r >>= error_or_nil)
  Goes-end front back m r k =
      Goes-bind _ _ (λ calls h. tt) (Goes-attempt l m k front back r)
        (λ r'. Adds-Aside l (Adds-error_or_nil r'))

  -- nothing is deleted
  pub Goes-skip : (message : String) → Goes env MayHouse (There n) Any (add_message message)
  Goes-skip message =
      Goes-weaken (λ calls h. h) (λ calls h. tt) (Adds-Goes l (Adds-add_message message))

-- Any check: its clean-up and its messages are deferred.
pub Goes-cleaned :
    {env : Env} {n : String} (l : IsLawful env) (clean_up m : Action (Unit {0}))
    → Goes env MayHouse (There n) Any clean_up
    → Goes env MayHouse Any (There n) m
    → Goes env MayHouse Any Any (deferred (report_clean_up clean_up) m)
Goes-cleaned l clean_up m k h = Goes-deferred (λ calls h. tt) _ _ (Goes-report_clean_up l _ k) h

pub Goes-sent :
    {env : Env} (l : IsLawful env) (c : Chatwork) (m : Action (Unit {0}))
    → Goes env MayHouse Any Any m
    → Goes env MayHouse Any Any (deferred (send c) m)
Goes-sent l c m k = Goes-deferred (λ calls h. h) _ _ (Adds-Aside l (Adds-send c (λ r same. tt))) k
