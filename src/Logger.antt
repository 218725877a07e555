-- ===== src/Logger.antt =====
-- main.go: the logger, as far as it decides something: its level, and the field that names a place in
-- the source. What is logged is left out.
pub mod Place
use Prim.Native.Char.{Char, code}
use Prim.Native.String
use kibertas.Prelude.{
  ℕ, ◌+◌, zero, suc, String, ◌<>◌, Bool, true, false, Option, none, some, ◌==◌, if◌then◌else◌,
}
use kibertas.Go.Format.{decimal}
use kibertas.Run.{Action, pure, ◌>>=◌, ask, or_throw}

-- A level of logrus is a number.
pub record Logger : Type 0 where
  pub level : ℕ

-- `initLogger`, up to the function that it returns: `--debug` goes before the level's name, which has
-- to parse all the same.
unfoldable pub init_logger : String → Bool → Action Logger
init_logger log_level debug = do
  reply ← ask (λ env. env.parse_level log_level)
  level ← or_throw reply
  debug_level ← ask (λ env. env.debug_level)
  pure (record { level = if debug then debug_level else level })

-- `strings.LastIndex(s, "/") + 1`, which is 0 where there is none; in characters of the text.
unfoldable pub after_last_slash : String → ℕ
after_last_slash String.[] = 0
after_last_slash (String.◌∷◌ c s) =
    let i = after_last_slash s in if i == 0 then (if code c == 47 then 1 else 0) else suc i

-- `s[i:]`
unfoldable pub from_index : String → ℕ → String
from_index s zero = s
from_index String.[] (suc i) = String.[]
from_index (String.◌∷◌ c s) (suc i) = from_index s i

-- The value of the field `file`, of what `runtime.Caller(1)` finds: a file and a line.
unfoldable pub file_field : Option (String × ℕ) → String
unfolding after_last_slash from_index decimal
file_field none = "unknown"
file_field (some (file, line)) = from_index file (after_last_slash file) <> (":" <> decimal line)
