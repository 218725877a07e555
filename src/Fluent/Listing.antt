-- ===== src/Fluent/Listing.antt =====
-- The loop over the objects of a bucket, beside a description of it.
use kibertas.Prelude.{
  ℕ, String, some, List, [], ◌∷◌, map, any, ltb, ◌≡◌, refl, Bool-cases, inl, inr,
}
use kibertas.Api.{S3Object, answer}
use kibertas.Run.{State, ok, Env, ◌>>=◌}
use kibertas.Notify.{add_message}
use kibertas.Fluent.Objects.{Fluent}
use kibertas.Fluent.Check.{new_object, find_new_object, read_objects}

-- An object of a listing whose key and time are there.
abbrev pub listed : String × ℕ → S3Object
listed (key, modified) = record { key = some key; last_modified = some modified }

-- On a listing of a bucket whose keys and times are all there, the loop over the objects returns
-- whether any of them is newer than the time that it is given.
pub read_objects-any :
    (f : Fluent) (since : ℕ) (items : List (String × ℕ)) (env : Env) (s : State)
    → (read_objects f since (answer (map listed items)) env s).0
      ≡ ok (any (λ (item : String × ℕ). ltb since item.1) items)
unfolding read_objects find_new_object new_object add_message ◌>>=◌
read_objects-any f since [] env s = refl
read_objects-any f since ((key, modified) ∷ items) env s = elim (Bool-cases (ltb since modified)) [
  | inl h ↦ rw h refl
  | inr h ↦ rw h (read_objects-any f since items env s)
]
