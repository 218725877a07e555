-- ===== src/Fluent/Evidence.antt =====
-- What a successful fluent check has seen.
use kibertas.Prelude.{
  ℕ, ◌*◌, ◌<◌, Bool, true, false, none, some, Option-cases, inl, inr, ◌⊎◌, List, [], ◌∷◌, ◌≡◌, refl,
  ap, ◌∙◌, ltb, arith, if◌then◌else◌, Bool-cases,
}
use mathlib.Core.List.{Mem, mem-cons_self, mem-cons_of_mem}
use kibertas.Api.{Call, Reply, answer, refused, S3Object}
use kibertas.Run.{Action, pure, State, ok, panicked, Env, IsLawful, ◌>>=◌}
use kibertas.Run.Adds.{Adds-from}
use kibertas.Run.Trace.{same, more}
use kibertas.Run.Seen.{Anything, Seen, here, Seen-Since, Since-Seen}
use kibertas.Run.Success.{>>=-ok, poll-throw-ok}
use kibertas.K8s.{second}
use kibertas.Fluent.Objects.{Fluent}
use kibertas.Fluent.Check.{
  new_object, find_new_object, read_objects, object_available, check_s3_object,
}
use kibertas.Fluent.Effects.{Adds-read_objects, object_available-Within}

-- An object of a list was modified after an instant.
pub record IsNew (since : ℕ) (items : List S3Object) : Type 0 where
  pub item : S3Object
  pub listed : Mem item items
  pub modified : ℕ
  pub last_modified : item.last_modified ≡ some modified
  pub after : since < modified

-- The answer to a listing of the bucket and path of the check, in which an object is new.
abbrev pub Arrived : Env → Fluent → ℕ → List Call → Call → Type 0
Arrived env f since before c =
    (c ≡ Call.list_objects f.log_bucket_name f.log_path f.use_path_style)
    × ((items : List S3Object) × (env.objects before c ≡ answer items) × IsNew since items)

module _ (f : Fluent) (since : ℕ) where
  ltb-lt : (m : ℕ) → ltb since m ≡ true → since < m
  ltb-lt m h = ground arith

  unmodified :
      (item : S3Object) (env : Env) (s : State)
      → item.last_modified ≡ none
      → new_object f since item env s ≡ (panicked, s)
  unfolding new_object ◌>>=◌
  unmodified item env s h = rw h refl

  old :
      (item : S3Object) (env : Env) (s : State) (m : ℕ)
      → item.last_modified ≡ some m
      → ltb since m ≡ false
      → new_object f since item env s ≡ (ok false, s)
  unfolding new_object ◌>>=◌
  old item env s m h b = rw h (rw b refl)

  new_object-true :
      (item : S3Object) (env : Env) (s : State) {t : State}
      → new_object f since item env s ≡ (ok true, t)
      → (m : ℕ) × (item.last_modified ≡ some m) × (since < m)
  new_object-true item env s h = elim (Option-cases item.last_modified) [
    | inl p ↦ cc (unmodified item env s p)
    | inr (m, p) ↦ elim (Bool-cases (ltb since m)) [
      | inl b ↦ (m, p, ltb-lt m b)
      | inr b ↦ cc (old item env s m p b)
    ]
  ]

  found-true :
      (b : Bool) (m : Action Bool) (env : Env) (s : State) {t : State}
      → (if b then pure true else m) env s ≡ (ok true, t)
      → (b ≡ true) ⊎ (m env s ≡ (ok true, t))
  found-true true m env s h = inl refl
  found-true false m env s h = inr h

  find_new_object-true :
      (items : List S3Object) (env : Env) (s : State) {t : State}
      → find_new_object f since items env s ≡ (ok true, t)
      → IsNew since items
  unfolding find_new_object ◌>>=◌
  find_new_object-true [] env s h = cc
  find_new_object-true (item ∷ items) env s h =
      let (found, s1, p, q) = >>=-ok (new_object f since item) _ env s h in
      elim (found-true found (find_new_object f since items) env s1 q) [
        | inl e ↦
            let (m, modified, after) =
              new_object-true item env s (p ∙ ap (λ (b : Bool). (ok b, s1)) e) in
            record {
              item = item;
              listed = mem-cons_self;
              modified = m;
              last_modified = modified;
              after = after;
            }
        | inr r ↦
            let n = find_new_object-true items env s1 r in
            record {
              item = n.item;
              listed = mem-cons_of_mem item n.listed;
              modified = n.modified;
              last_modified = n.last_modified;
              after = n.after;
            }
      ]

  read_objects-true :
      (r : Reply (List S3Object)) (env : Env) (s : State) {t : State}
      → read_objects f since r env s ≡ (ok true, t)
      → (items : List S3Object) × (r ≡ answer items) × IsNew since items
  unfolding read_objects ◌>>=◌
  read_objects-true (refused e) env s h = cc
  read_objects-true (answer items) env s h = (items, refl, find_new_object-true items env s h)

  object_available-true :
      (env : Env) (l : IsLawful env) (s : State) {t : State}
      → object_available f since env s ≡ (ok true, t)
      → Seen (Arrived env f since) s.calls t.calls
  unfolding object_available ◌>>=◌
  object_available-true env l s h =
      let c = Call.list_objects f.log_bucket_name f.log_path f.use_path_style in
      let (items, p, n) =
        read_objects-true (env.objects s.calls c) env (record s { calls = c ∷ s.calls }) h in
      Seen-Since (Adds-from (Adds-read_objects Anything f since (env.objects s.calls c)) env l h)
        (here same (refl, (items, p, n)))

-- In a lawful environment, the wait for the logs succeeds only if it has, since it began, been
-- answered a listing of the bucket and path of the check with an object that was modified after it
-- began.
pub object-Seen :
    (f : Fluent) (env : Env) (s : State) {t : State}
    → IsLawful env
    → check_s3_object f env s ≡ (ok tt, t)
    → Seen (Arrived env f (env.clock s.calls Call.now).instant) s.calls t.calls
unfolding check_s3_object ◌>>=◌
object-Seen f env s l h =
    let since = (env.clock s.calls Call.now).instant in
    let s0 = record s { calls = Call.now ∷ s.calls } in
    let (s', steps, e) =
      poll-throw-ok (object_available f since) (object_available-Within f since) env l (60 * second)
        f.timeout false "error waiting for S3 objects to be ready: " s0 h in
    Since-Seen {P = Anything} (more tt same)
      (Since-Seen steps (object_available-true f since env l s' e))
