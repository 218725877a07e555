-- ===== src/Util/Random.antt =====
-- The random names of util/util.go.
use Prim.Native.Char.{Char}
use Prim.Native.String.{len}
use kibertas.Prelude.{ℕ, zero, suc, ◌<◌, ◌∷◌, String, some, ◌≡◌, refl, ap, arith}
use kibertas.Api.{Call}
use kibertas.Run.{pure, State, ok, Env, IsLawful, ◌>>=◌}
use kibertas.Run.Success.{>>=-of_ok}
use kibertas.Util.{letters, byte_at, generate_random_string}

-- A text whose characters are all among those that may be drawn.
pub data Drawn : String → Type 0 where
  empty : Drawn String.[]
  with :
      {c : Char} {s : String} (i : ℕ)
      → byte_at letters i ≡ some c
      → Drawn s
      → Drawn (String.◌∷◌ c s)

-- The number of characters of a text.
unfoldable pub size : String → ℕ
size String.[] = zero
size (String.◌∷◌ c s) = suc (size s)

-- An index below the number of characters is in range.
byte_at_lt : (s : String) (i : ℕ) → i < size s → (c : Char) × (byte_at s i ≡ some c)
unfolding byte_at size
byte_at_lt String.[] i h = absurd (omega (arith, h))
byte_at_lt (String.◌∷◌ c s) zero h = (c, refl)
byte_at_lt (String.◌∷◌ c s) (suc i) h = byte_at_lt s i (omega (arith, h))

size_letters : size letters ≡ len letters
unfolding size
size_letters = refl

-- a character that is drawn, before the rest
draw :
    (env : Env) (n i : ℕ) (s t : State) (c : Char) (rest : String)
    → env.intn s.calls (len letters) ≡ i
    → byte_at letters i ≡ some c
    → generate_random_string n env (record s { calls = Call.random (len letters) ∷ s.calls })
      ≡ (ok rest, t)
    → generate_random_string (suc n) env s ≡ (ok (String.◌∷◌ c rest), t)
unfolding generate_random_string ◌>>=◌
draw env n i s t c rest p q h = rw p (
    rw q (
      >>=-of_ok (generate_random_string n) (λ rest. pure (String.◌∷◌ c rest)) env
        (record s { calls = Call.random (len letters) ∷ s.calls }) h))

-- If the random numbers stay below their bounds, GenerateRandomString returns, without indexing
-- out of range, a text with as many characters as asked for, every one of them one of the letters.
pub generate_random_string_lem :
    (env : Env) (n : ℕ) (s : State)
    → IsLawful env
    → (str : String) × (t : State) × (generate_random_string n env s ≡ (ok str, t))
      × (size str ≡ n)
      × Drawn str
unfolding generate_random_string size pure
generate_random_string_lem env zero s l = (String.[], s, refl, refl, empty)
generate_random_string_lem env (suc n) s l =
    let i = env.intn s.calls (len letters) in
    let (c, p) =
      byte_at_lt letters i
        (omega (arith, l.intn_lt s.calls (len letters) (omega arith), size_letters)) in
    let (rest, t, h, size_rest, drawn) = generate_random_string_lem env n _ l in
    (String.◌∷◌ c rest, t, draw env n i s t c rest refl p h, ap suc size_rest, with i p drawn)
