-- ===== src/Run/Says.antt =====
-- Which messages an action has gathered or posted when it returns a value, and in which order.
use text.Mathlib.TextLemmas.{append_assoc as text_assoc, append-nil as text_nil}
use kibertas.Prelude.{String, ◌<>◌, none, List, [], ◌∷◌, ◌++◌, ◌≡◌, sym, ap, ◌∙◌}
use kibertas.Api.{Call, Request}
use kibertas.Run.World.{State, Outcome, ok, Env, IsLawful}
use kibertas.Run.Actions.{Action, ◌>>=◌, deferred}
use kibertas.Run.Adds.{Adds}
use kibertas.Run.Makes.{Makes}
use kibertas.Run.Success.{>>=-ok, deferred-ok}
use kibertas.Run.Log.{log, Extends, Runs-Extends}
use mathlib.Core.Path.{subst}

-- A text begins with an old one, and has these pieces after that, in this order and none in another.
pub data Reports : List String → String → String → Type 0 where
  ends : {old new : String} → Extends old new → Reports [] old new
  goes :
      {m : String} {ms : List String} {old middle new : String}
      → Extends old middle
      → Reports ms (middle <> m) new
      → Reports (m ∷ ms) old new

Extends-trans : {a b c : String} → Extends a b → Extends b c → Extends a c
Extends-trans {a} h k = record {
  rest = h.rest <> k.rest;
  continues = k.continues ∙ ap (λ z. z <> k.rest) h.continues ∙ text_assoc a h.rest k.rest;
}

Reports-before : {ms : List String} {a b c : String} → Extends a b → Reports ms b c → Reports ms a c
Reports-before h (ends k) = ends (Extends-trans h k)
Reports-before h (goes e k) = goes (Extends-trans h e) k

Reports-append :
    {ms ns : List String} {a b c : String}
    → Reports ms a b
    → Reports ns b c
    → Reports (ms ++ ns) a c
Reports-append (ends h) k = Reports-before h k
Reports-append (goes e h) k = goes e (Reports-append h k)

Reports-after : {ms : List String} {a b c : String} → Reports ms a b → Extends b c → Reports ms a c
Reports-after (ends h) k = ends (Extends-trans h k)
Reports-after (goes e h) k = goes e (Reports-after h k)

-- If `m` returns a value, these messages have been gathered since.
pub record Says {A : Type 0} (env : Env) (ms : List String) (m : Action A) : Type 0 where
  pub at : (s : State) {a : A} {t : State} → m env s ≡ (ok a, t) → Reports ms (log s) (log t)

pub Says-one :
    {A : Type 0} {env : Env} {m : String} {k : Action A}
    → ((s : State) → log (k env s).1 ≡ log s <> m)
    → Says env (m ∷ []) k
Says-one {A} h = record {
  at = λ s e.
      goes (record { rest = ""; continues = sym (text_nil (log s)) })
        (ends (record {
          rest = "";
          continues = sym (ap (λ (p : Outcome A × State). log p.1) e) ∙ h s ∙ sym (text_nil _);
        }));
}

-- Actions that post to well-formed URLs only.
module _ {env : Env} (l : IsLawful env) (P : Call → Type 0)
    (good : (r : Request) → P (Call.post_message r) → env.bad_url r.url ≡ none) where
  extends : {A : Type 0} {m : Action A} → Adds P m → (s : State) → Extends (log s) (log (m env s).1)
  extends k s = Runs-Extends good (k.at env l s)

  -- a part of which nothing is asked
  pub Says-nothing : {A : Type 0} {m : Action A} → Adds P m → Says env [] m
  Says-nothing {A} k = record {
    at = λ s e. ends (subst (λ (p : Outcome A × State). Extends (log s) (log p.1)) e (extends k s));
  }

  pub Says-deferred :
      {A : Type 0} {ms : List String} (d : Action (Unit {0})) (m : Action A)
      → Adds P d
      → Says env ms m
      → Says env ms (deferred d m)
  Says-deferred {ms} d m k h = record {
    at = λ s e.
        let (s', p, q) = deferred-ok d m env s e in
        Reports-after (h.at s p) (subst (λ (x : State). Extends (log s') (log x)) q (extends k s'));
  }

module _ {A B : Type 0} {env : Env} {ms ns : List String} (m : Action A) (f : A → Action B) where
  pub Says-made :
      {Q : A → Type 0}
      → Makes env Q m
      → Says env ms m
      → ((a : A) → Q a → Says env ns (f a))
      → Says env (ms ++ ns) (m >>= f)
  Says-made makes h k = record {
    at = λ s e.
        let (a, s', p, q) = >>=-ok m f env s e in
        Reports-append (h.at s p) ((k a (makes.at s p)).at s' q);
  }

  pub Says-then : Says env ms m → ((a : A) → Says env ns (f a)) → Says env (ms ++ ns) (m >>= f)
  Says-then h k = Says-made {Q = λ a. Unit {0}} (record { at = λ s e. tt }) h (λ a u. k a)
