-- ===== src/Go/Format/Fuel.antt =====
-- The fuel of decimal numbers.
use kibertas.Prelude.{ℕ, zero, suc, ◌/◌, ◌<◌, false, ◌≡◌, refl, ltb, arith, Bool-cases, inl, inr}
use kibertas.Go.Format.{decimal_digits}

short : (n : ℕ) → ltb n 10 ≡ false → n / 10 < n
short n h = ground arith

-- Any two amounts of fuel above a number print it alike, so that `n + 1` is enough.
pub decimal_digits_lem : (f g n : ℕ) → n < f → n < g → decimal_digits f n ≡ decimal_digits g n
unfolding decimal_digits
decimal_digits_lem zero g n p q = absurd (omega (arith, p))
decimal_digits_lem (suc f) zero n p q = absurd (omega (arith, q))
decimal_digits_lem (suc f) (suc g) n p q = elim (Bool-cases (ltb n 10)) [
  | inl h ↦ rw h refl
  | inr h ↦
      let front =
        decimal_digits_lem f g (n / 10) (omega (arith, short n h, p))
          (omega (arith, short n h, q)) in
      rw (h, front) refl
]
