-- ===== src/Scope.antt =====
-- What a call does outside the program: which calls change the cluster, and where, and which send a
-- message.
use kibertas.Prelude.{String, Option, none, some, List, ◌∷◌, ◌≡◌}
use kibertas.Api.{Call, Request}

-- What the program may leave in the cluster: a namespace, or an object by its namespace and its name.
pub data Thing : Type 0 where
  namespace : String → Thing
  deployment service ingress certificate issuer : String → String → Thing

-- The namespace of a thing.
abbrev pub home : Thing → String
home (Thing.namespace n) = n
home (Thing.deployment n name) = n
home (Thing.service n name) = n
home (Thing.ingress n name) = n
home (Thing.certificate n name) = n
home (Thing.issuer n name) = n

pub data Effect : Type 0 where
  reads : Effect
  creates updates deletes : Thing → Effect
  posts : Request → Effect

abbrev pub effect_of : Call → Effect
effect_of (Call.create_namespace n) = creates (Thing.namespace n)
effect_of (Call.update_namespace n) = updates (Thing.namespace n)
effect_of (Call.delete_namespace n) = deletes (Thing.namespace n)
effect_of (Call.create_deployment n d) = creates (Thing.deployment n d.name)
effect_of (Call.update_deployment n d) = updates (Thing.deployment n d.name)
effect_of (Call.delete_deployment n name) = deletes (Thing.deployment n name)
effect_of (Call.create_service n o) = creates (Thing.service n o.name)
effect_of (Call.update_service n o) = updates (Thing.service n o.name)
effect_of (Call.delete_service n name) = deletes (Thing.service n name)
effect_of (Call.create_ingress n o) = creates (Thing.ingress n o.name)
effect_of (Call.update_ingress n o) = updates (Thing.ingress n o.name)
effect_of (Call.delete_ingress n name) = deletes (Thing.ingress n name)
effect_of (Call.create_certificate c) = creates (Thing.certificate c.namespace c.name)
effect_of (Call.delete_certificate c) = deletes (Thing.certificate c.namespace c.name)
effect_of (Call.create_issuer i) = creates (Thing.issuer i.namespace i.name)
effect_of (Call.delete_issuer i) = deletes (Thing.issuer i.namespace i.name)
effect_of (Call.post_message r) = posts r
effect_of _ = reads

-- The request of a message.
abbrev pub posted : Effect → Option Request
posted (posts r) = some r
posted _ = none

-- Changes stay in a namespace, and messages go to a URL.
abbrev pub Allowed : String → String → Effect → Type 0
Allowed url ns reads = Unit
Allowed url ns (creates o) = home o ≡ ns
Allowed url ns (updates o) = home o ≡ ns
Allowed url ns (deletes o) = home o ≡ ns
Allowed url ns (posts r) = r.url ≡ url

-- A call that creates, updates or deletes does so in this namespace, or to the namespace itself, and a
-- message is sent to this URL.
abbrev pub Within : String → String → Call → Type 0
Within url ns c = Allowed url ns (effect_of c)

abbrev pub IsKept : Effect → Type 0
IsKept (deletes o) = ⊥
IsKept _ = Unit

-- A call that deletes nothing.
abbrev pub Keeps : Call → Type 0
Keeps c = IsKept (effect_of c)

-- A thing is in a list.
pub data Among (o : Thing) : List Thing → Type 0 where
  first : {p : Thing} {ps : List Thing} → o ≡ p → Among o (p ∷ ps)
  later : {p : Thing} {ps : List Thing} → Among o ps → Among o (p ∷ ps)

-- Nothing is created or updated but things of a list, nothing is deleted, and no message is sent.
abbrev pub Own : List Thing → Effect → Type 0
Own things reads = Unit
Own things (creates o) = Among o things
Own things (updates o) = Among o things
Own things (deletes o) = ⊥
Own things (posts r) = ⊥

abbrev pub Owned : List Thing → Call → Type 0
Owned things c = Own things (effect_of c)

Own-IsKept : (things : List Thing) (e : Effect) → Own things e → IsKept e
Own-IsKept things reads h = tt
Own-IsKept things (creates o) h = tt
Own-IsKept things (updates o) h = tt
Own-IsKept things (deletes o) h = h
Own-IsKept things (posts r) h = tt

pub Owned-Keeps : (things : List Thing) (c : Call) → Owned things c → Keeps c
Owned-Keeps things c = Own-IsKept things (effect_of c)
