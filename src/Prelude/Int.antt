-- ===== src/Prelude/Int.antt =====
-- Signed integers over the native numbers; `negsuc n` is -(n + 1).
use kibertas.Prelude.{ℕ, ◌+◌, ◌-◌, leb, if◌then◌else◌}

pub data ℤ : Type 0 where
  pos : ℕ → ℤ
  negsuc : ℕ → ℤ

-- a - b, as an integer
abbrev pub sub_ℕ : ℕ → ℕ → ℤ
sub_ℕ a b = if leb b a then pos (a - b) else negsuc (b - a - 1)

infixl 65 ◌-ℤ◌
-- z - k for a number k
abbrev pub ◌-ℤ◌ : ℤ → ℕ → ℤ
pos n -ℤ k = sub_ℕ n k
negsuc n -ℤ k = negsuc (n + k)
