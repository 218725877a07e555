-- ===== src/Util.antt =====
-- util/util.go
pub mod Random
pub mod Texts
use Prim.Native.Char.{Char}
use Prim.Native.String
use Prim.Native.String.{len}
use kibertas.Prelude.{ℕ, ◌%◌, ◌^◌, zero, suc, String, Option, none, some}
use kibertas.Api.{Call}
use kibertas.Run.{Action, pure, ◌>>=◌, call, deref, issue}

-- `Int32Ptr`: a pointer to the number is never nil.
unfoldable pub int32_ptr : ℕ → Option ℕ
int32_ptr i = some i

-- `int32(n)`, as a bit pattern
abbrev pub int32 : ℕ → ℕ
int32 n = n % 2 ^ 32

abbrev pub letters : String
letters = "abcdefghijklmnopqrstuvwxyz1234567890"

-- `s[i]` of a text of ASCII characters; `none` is out of range.
unfoldable pub byte_at : String → ℕ → Option Char
byte_at String.[] i = none
byte_at (String.◌∷◌ c s) zero = some c
byte_at (String.◌∷◌ c s) (suc i) = byte_at s i

-- `rand.Intn(n)`
abbrev pub rand_intn : ℕ → Action ℕ
rand_intn n = call (λ env calls _. env.intn calls n) (Call.random n)

-- `GenerateRandomString`
unfoldable pub generate_random_string : ℕ → Action String
generate_random_string zero = pure ""
generate_random_string (suc n) = do
  i ← rand_intn (len letters)
  c ← deref (byte_at letters i)
  rest ← generate_random_string n
  pure (String.◌∷◌ c rest)

-- `SleepContext`: the error of a context that ends first.
unfoldable pub sleep_context : ℕ → Action (Unit {0})
unfolding issue
sleep_context d = issue (Call.sleep d)
