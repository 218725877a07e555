-- ===== src/Go/Format/Digits.antt =====
-- The digits of decimal numbers: what they are, and how many.
use Prim.Native.Char.{Char, code}
use kibertas.Prelude.{
  ℕ, zero, suc, ◌+◌, ◌/◌, ◌%◌, ◌^◌, ◌≤◌, ◌<◌, Bool, true, false, ◌&&◌, ltb, leb, Bool-cases, inl,
  inr, ◌≡◌, refl, arith,
}
use kibertas.Go.Format.{digit, decimal_digits, decimal, decimal_02}
use kibertas.Util.Random.{size}
use kibertas.Util.Texts.{all_of, size-append, all_of-append}

abbrev pub is_digit : Char → Bool
is_digit c = leb 48 (code c) && leb (code c) 57

digit-all_of : (n : ℕ) → all_of is_digit (digit n) ≡ true
unfolding all_of
digit-all_of zero = refl
digit-all_of (suc zero) = refl
digit-all_of (suc (suc zero)) = refl
digit-all_of (suc (suc (suc zero))) = refl
digit-all_of (suc (suc (suc (suc zero)))) = refl
digit-all_of (suc (suc (suc (suc (suc zero))))) = refl
digit-all_of (suc (suc (suc (suc (suc (suc zero)))))) = refl
digit-all_of (suc (suc (suc (suc (suc (suc (suc zero))))))) = refl
digit-all_of (suc (suc (suc (suc (suc (suc (suc (suc zero)))))))) = refl
digit-all_of (suc (suc (suc (suc (suc (suc (suc (suc (suc n))))))))) = refl

size-digit : (n : ℕ) → size (digit n) ≡ 1
unfolding size
size-digit zero = refl
size-digit (suc zero) = refl
size-digit (suc (suc zero)) = refl
size-digit (suc (suc (suc zero))) = refl
size-digit (suc (suc (suc (suc zero)))) = refl
size-digit (suc (suc (suc (suc (suc zero))))) = refl
size-digit (suc (suc (suc (suc (suc (suc zero)))))) = refl
size-digit (suc (suc (suc (suc (suc (suc (suc zero))))))) = refl
size-digit (suc (suc (suc (suc (suc (suc (suc (suc zero)))))))) = refl
size-digit (suc (suc (suc (suc (suc (suc (suc (suc (suc n))))))))) = refl

digits-all_of : (fuel n : ℕ) → all_of is_digit (decimal_digits fuel n) ≡ true
unfolding decimal_digits all_of
digits-all_of zero n = refl
digits-all_of (suc fuel) n = elim (Bool-cases (ltb n 10)) [
  | inl h ↦ rw h (all_of-append is_digit "" (digit (n % 10)) refl (digit-all_of (n % 10)))
  | inr h ↦ rw h (
      all_of-append is_digit (decimal_digits fuel (n / 10)) (digit (n % 10))
        (digits-all_of fuel (n / 10)) (digit-all_of (n % 10)))
]

front-lt : (k n : ℕ) → n < 10 ^ suc (suc k) → n / 10 < 10 ^ suc k
front-lt k n h = omega (arith, h)

no_front : (n : ℕ) → n < 10 → ltb n 10 ≡ false → ⊥
no_front n h e = ground arith

-- A number below 10 ^ k has at most k digits, if k is not 0.
size-digits : (k fuel n : ℕ) → n < 10 ^ suc k → size (decimal_digits fuel n) ≤ suc k
unfolding decimal_digits size
size-digits k zero n h = omega arith
size-digits zero (suc fuel) n h = elim (Bool-cases (ltb n 10)) [
  | inl e ↦ rw (e, size-append "" (digit (n % 10)), size-digit (n % 10)) (omega arith)
  | inr e ↦ absurd (no_front n h e)
]
size-digits (suc k) (suc fuel) n h = elim (Bool-cases (ltb n 10)) [
  | inl e ↦ rw (e, size-append "" (digit (n % 10)), size-digit (n % 10)) (omega arith)
  | inr e ↦
      rw (e, size-append (decimal_digits fuel (n / 10)) (digit (n % 10)), size-digit (n % 10))
        (omega (arith, size-digits k fuel (n / 10) (front-lt k n h)))
]

pub decimal-all_of : (n : ℕ) → all_of is_digit (decimal n) ≡ true
unfolding decimal
decimal-all_of n = digits-all_of (n + 1) n

pub size-decimal : (k n : ℕ) → n < 10 ^ suc k → size (decimal n) ≤ suc k
unfolding decimal
size-decimal k n h = size-digits k (n + 1) n h

pub decimal_02-all_of : (n : ℕ) → all_of is_digit (decimal_02 n) ≡ true
unfolding decimal_02 all_of
decimal_02-all_of n = elim (Bool-cases (ltb n 10)) [
  | inl e ↦ rw e (all_of-append is_digit "0" (decimal n) refl (decimal-all_of n))
  | inr e ↦ rw e (decimal-all_of n)
]

-- A number below 100 has two digits at most.
pub size-decimal_02 : (n : ℕ) → n < 100 → size (decimal_02 n) ≤ 2
unfolding decimal_02 size
size-decimal_02 n h = elim (Bool-cases (ltb n 10)) [
  | inl e ↦ rw (e, size-append "0" (decimal n)) (omega (arith, size-decimal 0 n (ground arith)))
  | inr e ↦ rw e (size-decimal 1 n h)
]
