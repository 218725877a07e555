-- ===== src/Run/Goes.antt =====
-- Actions whose calls may be made after the calls before them, from a state where something is known of
-- those.
use kibertas.Prelude.{◌∷◌, List, ◌≡◌, refl}
use kibertas.Go.Errors.{Error}
use kibertas.Api.{Call}
use kibertas.Run.World.{State, Outcome, ok, fail, panicked, exited, Env, IsLawful}
use kibertas.Run.Trace.{Since, same as none_since, more as one_since}
use kibertas.Run.Adds.{Adds-check_nil, Adds, Adds-Since}
use kibertas.Run.Makes.{Makes}
use kibertas.Run.Shows.{Shows}
use kibertas.Run.Actions.{
  check_nil, call, issue, Action, continue, ◌>>=◌, handle, on_error, finally, deferred,
}

-- `new` is `old` and calls after it, each of which may be made after the calls before it. The newest call
-- is first.
pub data Follows (May : List Call → Call → Type 0) (old : List Call) : List Call → Type 0 where
  same : Follows May old old
  more : {c : Call} {new : List Call} → May new c → Follows May old new → Follows May old (c ∷ new)

Follows-trans :
    {May : List Call → Call → Type 0} {a b c : List Call}
    → Follows May a b
    → Follows May b c
    → Follows May a c
Follows-trans h same = h
Follows-trans h (more p k) = more p (Follows-trans h k)

-- From a state whose calls meet `B`, the calls of `m` may be made, and they meet `C` after it.
pub record Goes {A : Type 0} (env : Env) (May : List Call → Call → Type 0)
    (B C : List Call → Type 0) (m : Action A) : Type 0 where
  pub at : (s : State) → B s.calls → Follows May s.calls (m env s).1.calls × C (m env s).1.calls

-- Nothing is asked of the calls.
abbrev pub Any : List Call → Type 0
Any calls = Unit

module _ {May : List Call → Call → Type 0} {B : List Call → Type 0} where
  Since-Follows :
      {P : Call → Type 0} {old new : List Call}
      → ((calls : List Call) (c : Call) → P c → B calls → May calls c × B (c ∷ calls))
      → Since P old new
      → B old
      → Follows May old new × B new
  Since-Follows step none_since b = (same, b)
  Since-Follows step (one_since {c} {new} p k) b =
      let (follows, b') = Since-Follows step k b in
      let (may, b'') = step new c p b' in (more may follows, b'')

  module _ {A : Type 0} {env : Env} {m : Action A} where
    -- an action whose calls may be made where `B` holds, and keep it
    pub Adds-keeping :
        {P : Call → Type 0}
        → ((calls : List Call) (c : Call) → P c → B calls → May calls c × B (c ∷ calls))
        → IsLawful env
        → Adds P m
        → Goes env May B B m
    Adds-keeping step l k = record { at = λ s b. Since-Follows step (Adds-Since k env l s) b }

    -- an action that makes no calls
    pub Adds-still : IsLawful env → Adds (λ c. ⊥) m → Goes env May B B m
    Adds-still = Adds-keeping (λ calls c none b. absurd none)

-- less is known, or needed
pub Goes-weaken :
    {A : Type 0} {env : Env} {May : List Call → Call → Type 0} {B B' C C' : List Call → Type 0}
    {m : Action A}
    → ((calls : List Call) → B' calls → B calls)
    → ((calls : List Call) → C calls → C' calls)
    → Goes env May B C m
    → Goes env May B' C' m
Goes-weaken before after k = record {
  at = λ s b. let (follows, c) = k.at s (before s.calls b) in (follows, after _ c);
}

module _ {A : Type 0} {env : Env} {May : List Call → Call → Type 0} {C D : List Call → Type 0}
    (after : (calls : List Call) → C calls → D calls) where
  handle-Goes :
      (r : Outcome A) (h : Error → Action A) (t : State)
      → ((e : Error) → Goes env May C D (h e))
      → C t.calls
      → Follows May t.calls (handle r h env t).1.calls × D (handle r h env t).1.calls
  handle-Goes (ok a) h t k c = (same, after _ c)
  handle-Goes (fail e) h t k c = (k e).at t c
  handle-Goes panicked h t k c = (same, after _ c)
  handle-Goes exited h t k c = (same, after _ c)

  pub Goes-on_error :
      {B : List Call → Type 0} (m : Action A) (h : Error → Action A)
      → Goes env May B C m
      → ((e : Error) → Goes env May C D (h e))
      → Goes env May B D (on_error m h)
  unfolding on_error
  Goes-on_error m h km kh = record {
    at = λ s b.
        let (r, t) = m env s in
        let (follows, c) = km.at s b in
        let (follows', d) = handle-Goes r h t kh c in (Follows-trans follows follows', d);
  }

  finally-Goes :
      (r : Outcome A) (d : Action (Unit {0})) (t : State)
      → Goes env May C D d
      → C t.calls
      → Follows May t.calls (finally r d env t).1.calls × D (finally r d env t).1.calls
  finally-Goes exited d t k c = (same, after _ c)
  finally-Goes (ok a) d t k c = k.at t c
  finally-Goes (fail e) d t k c = k.at t c
  finally-Goes panicked d t k c = k.at t c

  pub Goes-deferred :
      {B : List Call → Type 0} (d : Action (Unit {0})) (m : Action A)
      → Goes env May C D d
      → Goes env May B C m
      → Goes env May B D (deferred d m)
  unfolding deferred
  Goes-deferred d m kd km = record {
    at = λ s b.
        let (r, t) = m env s in
        let (follows, c) = km.at s b in
        let (follows', d') = finally-Goes r d t kd c in (Follows-trans follows follows', d');
  }

-- An action, and then another that depends on what it returned, of which `Q` holds.
module _ {A X : Type 0} {env : Env} {May : List Call → Call → Type 0} {Q : X → Type 0}
    {C D : List Call → Type 0} (after : (calls : List Call) → C calls → D calls) (m : Action X)
    (f : X → Action A) (makes : Makes env Q m) (kf : (a : X) → Q a → Goes env May C D (f a)) where
  continue-Goes :
      (s : State) (r : Outcome X) (t : State)
      → m env s ≡ (r, t)
      → C t.calls
      → Follows May t.calls (continue r f env t).1.calls × D (continue r f env t).1.calls
  continue-Goes s (ok a) t e c = (kf a (makes.at s e)).at t c
  continue-Goes s (fail x) t e c = (same, after _ c)
  continue-Goes s panicked t e c = (same, after _ c)
  continue-Goes s exited t e c = (same, after _ c)

  pub Goes-made : {B : List Call → Type 0} → Goes env May B C m → Goes env May B D (m >>= f)
  unfolding ◌>>=◌
  Goes-made km = record {
    at = λ s b.
        let (r, t) = m env s in
        let (follows, c) = km.at s b in
        let (follows', d) = continue-Goes s r t refl c in (Follows-trans follows follows', d);
  }

pub Goes-bind :
    {A X : Type 0} {env : Env} {May : List Call → Call → Type 0} {B C D : List Call → Type 0}
    (m : Action X) (f : X → Action A)
    → ((calls : List Call) → C calls → D calls)
    → Goes env May B C m
    → ((a : X) → Goes env May C D (f a))
    → Goes env May B D (m >>= f)
Goes-bind m f after km kf =
    Goes-made {Q = λ a. Unit {0}} after m f (record { at = λ s h. tt }) (λ a u. kf a) km

-- A call, of which it is known that it may be made.
Goes-call :
    {A : Type 0} {env : Env} {May : List Call → Call → Type 0} {B C : List Call → Type 0}
    (f : Env → List Call → Call → A) (c : Call)
    → ((calls : List Call) → B calls → May calls c)
    → ((calls : List Call) → B calls → C (c ∷ calls))
    → Goes env May B C (call f c)
unfolding call
Goes-call f c may then = record { at = λ s b. (more (may s.calls b) same, then s.calls b) }

pub Goes-issue :
    {env : Env} {May : List Call → Call → Type 0} {B C : List Call → Type 0} (c : Call)
    → IsLawful env
    → ((calls : List Call) → B calls → May calls c)
    → ((calls : List Call) → B calls → C (c ∷ calls))
    → Goes env May B C (issue c)
unfolding issue
Goes-issue c l may then =
    Goes-bind (call (λ env. env.issue) c) check_nil (λ calls h. h)
      (Goes-call (λ env. env.issue) c may then) (λ e. Adds-still l (Adds-check_nil e))

-- An action, and then another, which may count on what the success of the first shows.
module _ {A X : Type 0} {env : Env} {May : List Call → Call → Type 0}
    {R : List Call → List Call → Type 0} {C D : List Call → Type 0}
    (after : (calls : List Call) → C calls → D calls) (m : Action X) (f : X → Action A)
    (shows : Shows env R m)
    (kf : (a : X) → Goes env May (λ calls. (old : List Call) × R old calls) D (f a)) where
  continue-shown :
      (s : State) (r : Outcome X) (t : State)
      → m env s ≡ (r, t)
      → C t.calls
      → Follows May t.calls (continue r f env t).1.calls × D (continue r f env t).1.calls
  continue-shown s (ok a) t e c = (kf a).at t (s.calls, shows.at s e)
  continue-shown s (fail x) t e c = (same, after _ c)
  continue-shown s panicked t e c = (same, after _ c)
  continue-shown s exited t e c = (same, after _ c)

  pub Goes-shown : {B : List Call → Type 0} → Goes env May B C m → Goes env May B D (m >>= f)
  unfolding ◌>>=◌
  Goes-shown km = record {
    at = λ s b.
        let (r, t) = m env s in
        let (follows, c) = km.at s b in
        let (follows', d) = continue-shown s r t refl c in (Follows-trans follows follows', d);
  }
