-- ===== src/Go/Errors.antt =====
-- Go's error values, as far as the program makes or reads them.
use kibertas.Prelude.{ℕ, String, ◌<>◌}

pub data Error : Type 0 where
  -- an error value of a library: an identity, and the text that its method `Error` returns
  library : ℕ → String → Error
  -- `errors.New`, and `fmt.Errorf` with no `%w`
  plain : String → Error
  -- `fmt.Errorf("…: %w", err)`: the text in front, and what is wrapped
  wrapped : String → Error → Error
  -- `context.DeadlineExceeded` and `context.Canceled`
  deadline_exceeded canceled : Error

-- `err.Error()`, which is also what `%s` prints.
abbrev pub text : Error → String
text (library identity t) = t
text (plain t) = t
text (wrapped front e) = front <> text e
text deadline_exceeded = "context deadline exceeded"
text canceled = "context canceled"

-- One of the two errors of a context that has ended.
pub data IsContextError : Error → Type 0 where
  by_deadline : IsContextError deadline_exceeded
  by_cancel : IsContextError canceled
