-- ===== src/Ktesting/Hex.antt =====
-- The hex digits of the cluster ID.
use Prim.Native.Char.{Char, char, code}
use Prim.Native.String.{len, slice}
use text.Mathlib.TextLemmas.{
  append_assoc as text_assoc, append-nil as text_nil, nil-append as nil_text,
  cons-append as cons_text,
}
use text.Mathlib.TextPositions.{slice-append_left, len-append}
use kibertas.Prelude.{
  ℕ, zero, suc, ◌-◌, ◌/◌, ◌%◌, ◌<◌, String, ◌<>◌, Option, some, List, [], ◌∷◌, ltb, if◌then◌else◌,
  ◌≡◌, refl, sym, ap, ◌∙◌, arith,
}
use kibertas.Go.Hex.{hex_digit, encode_to_string}
use kibertas.Ktesting.{random_hex, random_cluster_id}

-- The number that a hex digit stands for.
abbrev pub hex_value : Char → ℕ
hex_value c = if ltb (code c) 58 then code c - 48 else code c - 87

-- A text that is one character, the digit for `n`.
record IsDigit (n : ℕ) (s : String) : Type 0 where
  symbol : Char
  alone : s ≡ String.◌∷◌ symbol String.[]
  value : hex_value symbol ≡ n
  one_byte : len s ≡ 1

hex_digit-IsDigit : (n : ℕ) → n < 16 → IsDigit n (hex_digit n)
unfolding hex_digit
hex_digit-IsDigit zero h = record {
  symbol = char 48 tt;
  alone = refl;
  value = refl;
  one_byte = refl;
}
hex_digit-IsDigit (suc zero) h = record {
  symbol = char 49 tt;
  alone = refl;
  value = refl;
  one_byte = refl;
}
hex_digit-IsDigit (suc (suc zero)) h = record {
  symbol = char 50 tt;
  alone = refl;
  value = refl;
  one_byte = refl;
}
hex_digit-IsDigit (suc (suc (suc zero))) h = record {
  symbol = char 51 tt;
  alone = refl;
  value = refl;
  one_byte = refl;
}
hex_digit-IsDigit (suc (suc (suc (suc zero)))) h = record {
  symbol = char 52 tt;
  alone = refl;
  value = refl;
  one_byte = refl;
}
hex_digit-IsDigit (suc (suc (suc (suc (suc zero))))) h = record {
  symbol = char 53 tt;
  alone = refl;
  value = refl;
  one_byte = refl;
}
hex_digit-IsDigit (suc (suc (suc (suc (suc (suc zero)))))) h = record {
  symbol = char 54 tt;
  alone = refl;
  value = refl;
  one_byte = refl;
}
hex_digit-IsDigit (suc (suc (suc (suc (suc (suc (suc zero))))))) h = record {
  symbol = char 55 tt;
  alone = refl;
  value = refl;
  one_byte = refl;
}
hex_digit-IsDigit (suc (suc (suc (suc (suc (suc (suc (suc zero)))))))) h = record {
  symbol = char 56 tt;
  alone = refl;
  value = refl;
  one_byte = refl;
}
hex_digit-IsDigit (suc (suc (suc (suc (suc (suc (suc (suc (suc zero))))))))) h = record {
  symbol = char 57 tt;
  alone = refl;
  value = refl;
  one_byte = refl;
}
hex_digit-IsDigit (suc (suc (suc (suc (suc (suc (suc (suc (suc (suc zero)))))))))) h = record {
  symbol = char 97 tt;
  alone = refl;
  value = refl;
  one_byte = refl;
}
hex_digit-IsDigit (suc (suc (suc (suc (suc (suc (suc (suc (suc (suc (suc zero))))))))))) h =
    record { symbol = char 98 tt; alone = refl; value = refl; one_byte = refl }
hex_digit-IsDigit (suc (suc (suc (suc (suc (suc (suc (suc (suc (suc (suc (suc zero)))))))))))) h =
    record { symbol = char 99 tt; alone = refl; value = refl; one_byte = refl }
hex_digit-IsDigit (suc (suc (suc (suc (suc (suc (suc (suc (suc (suc (suc (suc (suc zero)))))))))))))
      h =
    record { symbol = char 100 tt; alone = refl; value = refl; one_byte = refl }
hex_digit-IsDigit
      (suc (suc (suc (suc (suc (suc (suc (suc (suc (suc (suc (suc (suc (suc zero)))))))))))))) h =
    record { symbol = char 101 tt; alone = refl; value = refl; one_byte = refl }
hex_digit-IsDigit
      (suc (suc (suc (suc (suc (suc (suc (suc (suc (suc (suc (suc (suc (suc (suc zero)))))))))))))))
      h =
    record { symbol = char 102 tt; alone = refl; value = refl; one_byte = refl }
hex_digit-IsDigit
      (suc
        (suc (suc (suc (suc (suc (suc (suc (suc (suc (suc (suc (suc (suc (suc (suc n))))))))))))))))
      h =
    absurd (omega (arith, h))

abbrev pub IsByte : ℕ → Type 0
IsByte b = b < 256

high : (b : ℕ) → IsByte b → b / 16 < 16
high b h = omega (arith, h)

low : (b : ℕ) → b % 16 < 16
low b = omega arith

front : {n : ℕ} {s : String} (d : IsDigit n s) (t : String) → s <> t ≡ String.◌∷◌ d.symbol t
front d t =
    ap (λ z. z <> t) d.alone
    ∙ cons_text d.symbol String.[] t
    ∙ ap (String.◌∷◌ d.symbol) (nil_text t)

-- The first five of the six digits of three bytes.
abbrev pub five_digits : ℕ → ℕ → ℕ → String
five_digits a b c =
    hex_digit (a / 16)
    <> (hex_digit (a % 16) <> (hex_digit (b / 16) <> (hex_digit (b % 16) <> hex_digit (c / 16))))

len-five_digits : (a b c : ℕ) → IsByte a → IsByte b → IsByte c → len (five_digits a b c) ≡ 5
len-five_digits a b c p q r =
    rw
      (
        len-append,
        (hex_digit-IsDigit (a / 16) (high a p)).one_byte,
        len-append,
        (hex_digit-IsDigit (a % 16) (low a)).one_byte,
        len-append,
        (hex_digit-IsDigit (b / 16) (high b q)).one_byte,
        len-append,
        (hex_digit-IsDigit (b % 16) (low b)).one_byte,
        (hex_digit-IsDigit (c / 16) (high c r)).one_byte,
      )
      refl

-- the six digits are those five and one more
six_digits :
    (a b c : ℕ) → encode_to_string (a ∷ b ∷ c ∷ []) ≡ five_digits a b c <> hex_digit (c % 16)
unfolding encode_to_string
six_digits a b c =
    rw (text_nil (hex_digit (c % 16)), text_assoc, text_assoc, text_assoc, text_assoc) refl

-- If the random source gives three bytes, the cluster ID is the first five of their six hex
-- digits, and has a length of five.
pub random_cluster_id_lem :
    (read : ℕ → Option (List ℕ)) (a b c : ℕ)
    → IsByte a
    → IsByte b
    → IsByte c
    → read 3 ≡ some (a ∷ b ∷ c ∷ [])
    → (random_cluster_id read ≡ five_digits a b c) × (len (random_cluster_id read) ≡ 5)
unfolding random_cluster_id random_hex
random_cluster_id_lem read a b c p q r h =
    let five = len-five_digits a b c p q r in
    let last = (hex_digit-IsDigit (c % 16) (low c)).one_byte in
    let id : random_cluster_id read ≡ five_digits a b c =
      rw (h, random_cluster_id, random_hex)
        (rw (six_digits a b c) (
          rw (len-append (five_digits a b c) (hex_digit (c % 16)), five, last)
            (ap (slice (five_digits a b c <> hex_digit (c % 16)) 0) (sym five)
              ∙ slice-append_left (five_digits a b c) (hex_digit (c % 16))))) in
    (id, ap len id ∙ five)
