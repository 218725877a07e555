-- ===== src/Run/Housed.antt =====
-- In which namespaces a run acts: the calls that change the cluster, each with the calls before it.
use mathlib.Core.Path.{subst}
use kibertas.Prelude.{[], String, List, ◌∷◌, ◌≡◌, refl, sym, ◌≢◌}
use kibertas.Api.{Call}
use kibertas.Scope.{
  Among, first, later, Own, Owned, Thing, home, Effect, reads, creates, updates, deletes, posts,
  effect_of,
}
use kibertas.Run.Goes.{Follows, Goes, Any, Adds-keeping}
use kibertas.Run.Adds.{Adds}
use kibertas.Run.Actions.{Action}
use kibertas.Run.World.{Env, IsLawful}
use kibertas.Run.Left.{Left, still}

-- What may be done after these calls: a namespace may be created at any time, and all else is done in a
-- namespace that has been asked for, and whose deletion has not been asked for since.
abbrev pub IsHoused : List Call → Effect → Type 0
IsHoused calls reads = Unit
IsHoused calls (creates (Thing.namespace n)) = Unit
IsHoused calls (creates o) = Left (Thing.namespace (home o)) calls
IsHoused calls (updates o) = Left (Thing.namespace (home o)) calls
IsHoused calls (deletes o) = Left (Thing.namespace (home o)) calls
IsHoused calls (posts r) = Unit

-- A call that may be made after these calls.
abbrev pub MayHouse : List Call → Call → Type 0
MayHouse calls c = IsHoused calls (effect_of c)

-- `new` is `old` and calls after it, each of which may be made after the calls before it.
abbrev pub Housed : List Call → List Call → Type 0
Housed = Follows MayHouse

-- The namespace is there.
abbrev pub There : String → List Call → Type 0
There n = Left (Thing.namespace n)

-- A change in a namespace that does not end it.
abbrev pub IsInside : String → Effect → Type 0
IsInside n reads = Unit
IsInside n (creates o) = home o ≡ n
IsInside n (updates o) = home o ≡ n
IsInside n (deletes o) = (home o ≡ n) × (Thing.namespace n ≢ o)
IsInside n (posts r) = Unit

abbrev pub Inside : String → Call → Type 0
Inside n c = IsInside n (effect_of c)

IsInside-created :
    (n : String) (o : Thing) (calls : List Call)
    → home o ≡ n
    → Left (Thing.namespace n) calls
    → IsHoused calls (creates o)
IsInside-created n (Thing.namespace m) calls p left = tt
IsInside-created n (Thing.deployment m name) calls p left = rw p left
IsInside-created n (Thing.service m name) calls p left = rw p left
IsInside-created n (Thing.ingress m name) calls p left = rw p left
IsInside-created n (Thing.certificate m name) calls p left = rw p left
IsInside-created n (Thing.issuer m name) calls p left = rw p left

IsInside-IsHoused :
    (n : String) (calls : List Call) (e : Effect)
    → IsInside n e
    → Left (Thing.namespace n) calls
    → IsHoused calls e
IsInside-IsHoused n calls reads p left = tt
IsInside-IsHoused n calls (creates o) p left = IsInside-created n o calls p left
IsInside-IsHoused n calls (updates o) p left = rw p left
IsInside-IsHoused n calls (deletes o) (p, q) left = rw p left
IsInside-IsHoused n calls (posts r) p left = tt

IsInside-kept : (n : String) (e : Effect) → IsInside n e → e ≢ deletes (Thing.namespace n)
IsInside-kept n e p q = (subst (IsInside n) q p).1 refl

-- an action that stays inside a namespace that is there
pub Adds-Goes :
    {A : Type 0} {env : Env} {n : String} {m : Action A}
    → IsLawful env
    → Adds (Inside n) m
    → Goes env MayHouse (There n) (There n) m
Adds-Goes {n} = Adds-keeping (λ calls c p left.
    (IsInside-IsHoused n calls (effect_of c) p left, still (IsInside-kept n (effect_of c) p) left))

-- What is done anywhere: reads and messages.
abbrev pub IsAside : Effect → Type 0
IsAside reads = Unit
IsAside (creates o) = ⊥
IsAside (updates o) = ⊥
IsAside (deletes o) = ⊥
IsAside (posts r) = Unit

abbrev pub Aside : Call → Type 0
Aside c = IsAside (effect_of c)

pub reads-Aside : (c : Call) → effect_of c ≡ reads → Aside c
reads-Aside c e = subst IsAside (sym e) tt

IsAside-IsHoused : (calls : List Call) (e : Effect) → IsAside e → IsHoused calls e
IsAside-IsHoused calls reads p = tt
IsAside-IsHoused calls (creates o) p = absurd p
IsAside-IsHoused calls (updates o) p = absurd p
IsAside-IsHoused calls (deletes o) p = absurd p
IsAside-IsHoused calls (posts r) p = tt

-- an action that changes nothing
pub Adds-Aside :
    {A : Type 0} {env : Env} {m : Action A}
    → IsLawful env
    → Adds Aside m
    → Goes env MayHouse Any Any m
Adds-Aside = Adds-keeping (λ calls c p b. (IsAside-IsHoused calls (effect_of c) p, tt))

-- Things of one namespace.
pub data AllIn (n : String) : List Thing → Type 0 where
  none : AllIn n []
  also : {o : Thing} {os : List Thing} → home o ≡ n → AllIn n os → AllIn n (o ∷ os)

AllIn-home :
    {n : String} {things : List Thing} {o : Thing} → AllIn n things → Among o things → home o ≡ n
AllIn-home none k = elim k [ ]
AllIn-home (also p h) (first q) = rw q p
AllIn-home (also p h) (later k) = AllIn-home h k

Own-IsInside :
    (n : String) (things : List Thing) (e : Effect) → AllIn n things → Own things e → IsInside n e
Own-IsInside n things reads h own = tt
Own-IsInside n things (creates o) h own = AllIn-home h own
Own-IsInside n things (updates o) h own = AllIn-home h own
Own-IsInside n things (deletes o) h own = absurd own
Own-IsInside n things (posts r) h own = absurd own

-- Whoever creates and updates things of a namespace only, and deletes nothing, stays inside.
pub Owned-Inside :
    {n : String} {things : List Thing} → AllIn n things → (c : Call) → Owned things c → Inside n c
Owned-Inside {n} {things} h c own = Own-IsInside n things (effect_of c) h own
