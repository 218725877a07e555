-- ===== src/Run/Cluster.antt =====
-- What is in the cluster, by the requests of a run and the answers to them.
use kibertas.Prelude.{none, ◌⊎◌, inl, inr, List, ◌∷◌, ◌≡◌, ◌≢◌, refl}
use kibertas.Api.{Call, background, context_of}
use kibertas.Scope.{Thing, home, deletes, creates, effect_of}
use kibertas.Run.World.{Env}
use kibertas.Run.Trace.{Since, same, more}
use kibertas.Run.Left.{Left, asked, still}

-- The request to delete a thing, or its namespace with all that is in it, has been answered without an
-- error.
abbrev IsGone : Env → Thing → List Call → Call → Type 0
IsGone env o before c =
    ((effect_of c ≡ deletes o) ⊎ (effect_of c ≡ deletes (Thing.namespace (home o))))
    × (env.issue before c ≡ none)

-- A thing has been created, and not deleted since. The newest call of a list is first.
pub data Exists (env : Env) (o : Thing) : List Call → Type 0 where
  created :
      {c : Call} {before : List Call}
      → effect_of c ≡ creates o
      → env.issue before c ≡ none
      → Exists env o (c ∷ before)
  kept :
      {c : Call} {before : List Call}
      → ¬ IsGone env o before c
      → Exists env o before
      → Exists env o (c ∷ before)

-- A cluster that deletes what is there, if the context of the request is not cancelled.
pub record IsObedient (env : Env) : Type 0 where
  pub deletes_existing :
      (o : Thing) (before : List Call) (c : Call)
      → effect_of c ≡ deletes o
      → context_of c ≡ background
      → Exists env o before
      → env.issue before c ≡ none

deletes-background : (o : Thing) (c : Call) → effect_of c ≡ deletes o → context_of c ≡ background
deletes-background o (Call.delete_namespace n) e = refl
deletes-background o (Call.delete_deployment n name) e = refl
deletes-background o (Call.delete_service n name) e = refl
deletes-background o (Call.delete_ingress n name) e = refl
deletes-background o (Call.delete_certificate c) e = refl
deletes-background o (Call.delete_issuer i) e = refl
deletes-background o _ e = cc

-- In such a cluster what is there is left by the requests: a request to delete it would have been
-- carried out, whatever has become of the context of the program.
pub Exists-Left :
    {env : Env} {o : Thing} {calls : List Call} → IsObedient env → Exists env o calls → Left o calls
Exists-Left obeys (created e p) = asked e
Exists-Left {o} obeys (kept {c} {before} n k) =
    still (λ e. n (inl e, obeys.deletes_existing o before c e (deletes-background o c e) k))
      (Exists-Left obeys k)

-- Requests that neither create nor delete a thing do not change whether it is there.
module _ {P : Call → Type 0} {o : Thing} (uncreated : (c : Call) → P c → effect_of c ≢ creates o)
    (undeleted : (c : Call) → P c → effect_of c ≢ deletes o)
    (housed : (c : Call) → P c → effect_of c ≢ deletes (Thing.namespace (home o))) where
  stays : (env : Env) {c : Call} {before : List Call} → P c → ¬ IsGone env o before c
  stays env p (inl e, q) = undeleted _ p e
  stays env p (inr e, q) = housed _ p e

  pub Exists-before :
      {env : Env} {old new : List Call} → Since P old new → Exists env o new → Exists env o old
  Exists-before same h = h
  Exists-before (more p k) (created e q) = absurd (uncreated _ p e)
  Exists-before (more p k) (kept n h) = Exists-before k h

  pub Exists-after :
      {env : Env} {old new : List Call} → Since P old new → Exists env o old → Exists env o new
  Exists-after same h = h
  Exists-after {env} (more p k) h = kept (stays env p) (Exists-after k h)
