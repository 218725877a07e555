-- ===== src/Cmd/Labels.antt =====
-- The names of namespaces, as Kubernetes wants them: DNS labels.
use Prim.Native.Char.{Char, code}
use kibertas.Prelude.{◌+◌, ◌≤◌, ◌<◌, String, Bool, true, ◌&&◌, ◌||◌, ◌==◌, leb, ◌≡◌, refl, arith}
use kibertas.Go.Format.{decimal, decimal_02}
use kibertas.Go.Format.Digits.{
  is_digit, decimal-all_of, decimal_02-all_of, size-decimal, size-decimal_02,
}
use kibertas.Api.{Time}
use kibertas.Util.Random.{Drawn, size}
use kibertas.Util.Texts.{
  all_of, first_is, last_is, size-append, all_of-imp, all_of-append, first_is-append,
  last_is-append, last_is-all_of, Drawn-all_of,
}
use kibertas.Cmd.{test_namespace}

-- A small letter or a digit, and one of these or a dash.
abbrev pub is_alphanumeric : Char → Bool
is_alphanumeric c = (leb 97 (code c) && leb (code c) 122) || is_digit c

abbrev pub is_label_character : Char → Bool
is_label_character c = is_alphanumeric c || (code c == 45)

-- A label of RFC 1123, which the name of a namespace has to be: at most 63 small letters, digits and
-- dashes, of which neither the first nor the last is a dash.
pub record IsLabel (name : String) : Type 0 where
  pub characters : all_of is_label_character name ≡ true
  pub begins : first_is is_alphanumeric name ≡ true
  pub ends : last_is is_alphanumeric name ≡ true
  pub short : size name ≤ 63

-- A date whose year has at most four digits.
pub record IsDate (t : Time) : Type 0 where
  pub year_lt : t.year < 10000
  pub month_lt : t.month < 13
  pub day_lt : t.day < 32

digit-label : (c : Char) → is_digit c ≡ true → is_label_character c ≡ true
digit-label c h = ground arith

digits-label : (s : String) → all_of is_digit s ≡ true → all_of is_label_character s ≡ true
digits-label s h = all_of-imp is_digit is_label_character digit-label s h

-- The prefixes of the namespaces.
pub record IsPrefix (prefix : String) : Type 0 where
  pub characters : all_of is_label_character prefix ≡ true
  pub begins : first_is is_alphanumeric prefix ≡ true
  pub short : size prefix ≤ 43

tested : all_of is_label_character "-test-" ≡ true
unfolding all_of
tested = refl

dashed : all_of is_label_character "-" ≡ true
unfolding all_of
dashed = refl

Drawn-label : {s : String} → Drawn s → all_of is_label_character s ≡ true
unfolding all_of
Drawn-label h = Drawn-all_of is_label_character refl h

Drawn-ends : {s : String} → Drawn s → 0 < size s → last_is is_alphanumeric s ≡ true
unfolding all_of
Drawn-ends h n = last_is-all_of is_alphanumeric _ (Drawn-all_of is_alphanumeric refl h) n

size-test_namespace :
    (prefix : String) (t : Time) (suffix : String)
    → size (test_namespace prefix t suffix)
      ≡ size prefix
        + 7
        + size (decimal t.year)
        + size (decimal_02 t.month)
        + size (decimal_02 t.day)
        + size suffix
unfolding test_namespace size
size-test_namespace prefix t suffix = simp size-append (omega arith)

-- A namespace for a test has a label as its name.
pub test_namespace-IsLabel :
    (prefix : String) (t : Time) (suffix : String)
    → IsPrefix prefix
    → IsDate t
    → Drawn suffix
    → size suffix ≡ 5
    → IsLabel (test_namespace prefix t suffix)
unfolding test_namespace
test_namespace-IsLabel prefix t suffix p d drawn five = record {
  characters =
      search
        (
          all_of-append, digits-label, decimal-all_of, decimal_02-all_of, tested, dashed,
          Drawn-label, p.characters, drawn,
        )
        depth 9;
  begins = first_is-append is_alphanumeric prefix _ p.begins;
  ends = let ends = Drawn-ends drawn (omega (arith, five)) in search (last_is-append, ends) depth 9;
  short = rw size-test_namespace (
      omega (
        arith,
        p.short,
        five,
        size-decimal 3 t.year d.year_lt,
        size-decimal_02 t.month (omega (arith, d.month_lt)),
        size-decimal_02 t.day (omega (arith, d.day_lt)),
      ));
}
