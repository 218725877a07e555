-- ===== src/Util/Texts.antt =====
-- Texts by their characters.
use Prim.Native.Char.{Char}
use text.Mathlib.TextLemmas.{nil-append as nil_text, cons-append as cons_text}
use kibertas.Prelude.{
  ℕ, zero, suc, ◌+◌, ◌<◌, String, ◌<>◌, Bool, true, false, some, if◌then◌else◌, ◌≡◌, refl, arith,
}
use kibertas.Util.{byte_at, letters}
use kibertas.Util.Random.{Drawn, empty, with, size}

-- All characters of a text, the first, and the last, pass a test.
unfoldable pub all_of : (Char → Bool) → String → Bool
all_of p String.[] = true
all_of p (String.◌∷◌ c s) = let rest = all_of p s in if p c then rest else false

unfoldable pub first_is : (Char → Bool) → String → Bool
first_is p String.[] = false
first_is p (String.◌∷◌ c s) = p c

unfoldable pub last_is : (Char → Bool) → String → Bool
last_is p String.[] = false
last_is p (String.◌∷◌ c String.[]) = p c
last_is p (String.◌∷◌ c (String.◌∷◌ d s)) = last_is p (String.◌∷◌ d s)

pub size-append : (a b : String) → size (a <> b) ≡ size a + size b
unfolding size
size-append String.[] b = rw (nil_text b) (omega arith)
size-append (String.◌∷◌ c a) b = rw (cons_text c a b) (rw (size-append a b) (omega arith))

both : (b c : Bool) → (if b then c else false) ≡ true → (b ≡ true) × (c ≡ true)
both true c h = (refl, h)
both false c h = (cc h, cc h)

module _ (p : Char → Bool) where
  pub all_of-append :
      (a b : String) → all_of p a ≡ true → all_of p b ≡ true → all_of p (a <> b) ≡ true
  unfolding all_of
  all_of-append String.[] b ha hb = rw (nil_text b) hb
  all_of-append (String.◌∷◌ c a) b ha hb =
      let (hc, rest) = both (p c) (all_of p a) ha in
      rw (cons_text c a b) (rw (hc, all_of-append a b rest hb) refl)

  pub first_is-append : (a b : String) → first_is p a ≡ true → first_is p (a <> b) ≡ true
  unfolding first_is
  first_is-append String.[] b h = cc h
  first_is-append (String.◌∷◌ c a) b h = rw (cons_text c a b) h

  last_is-cons : (c : Char) (s : String) → last_is p s ≡ true → last_is p (String.◌∷◌ c s) ≡ true
  unfolding last_is
  last_is-cons c String.[] h = cc h
  last_is-cons c (String.◌∷◌ d s) h = h

  pub last_is-append : (a b : String) → last_is p b ≡ true → last_is p (a <> b) ≡ true
  last_is-append String.[] b h = rw (nil_text b) h
  last_is-append (String.◌∷◌ c a) b h =
      rw (cons_text c a b) (last_is-cons c (a <> b) (last_is-append a b h))

  -- the last of some characters that all pass
  pub last_is-all_of : (s : String) → all_of p s ≡ true → 0 < size s → last_is p s ≡ true
  unfolding all_of last_is size
  last_is-all_of String.[] h n = absurd (omega (arith, n))
  last_is-all_of (String.◌∷◌ c String.[]) h n = (both (p c) true h).0
  last_is-all_of (String.◌∷◌ c (String.◌∷◌ d s)) h n =
      last_is-all_of (String.◌∷◌ d s) (both (p c) (all_of p (String.◌∷◌ d s)) h).1 (omega arith)

  byte_at-all_of :
      (s : String) (i : ℕ) {c : Char} → all_of p s ≡ true → byte_at s i ≡ some c → p c ≡ true
  unfolding all_of byte_at
  byte_at-all_of String.[] i h e = cc e
  byte_at-all_of (String.◌∷◌ d s) zero {c} h e =
      let same : d ≡ c = cc e in rw same at (both (p d) (all_of p s) h).0
  byte_at-all_of (String.◌∷◌ d s) (suc i) h e = byte_at-all_of s i (both (p d) (all_of p s) h).1 e

  -- what holds of all letters holds of what is drawn from them
  pub Drawn-all_of : {s : String} → all_of p letters ≡ true → Drawn s → all_of p s ≡ true
  unfolding all_of
  Drawn-all_of h empty = refl
  Drawn-all_of h (with i e d) = rw (byte_at-all_of letters i h e, Drawn-all_of h d) refl

-- a test that is passed more often
pub all_of-imp :
    (p q : Char → Bool)
    → ((c : Char) → p c ≡ true → q c ≡ true)
    → (s : String) → all_of p s ≡ true
    → all_of q s ≡ true
unfolding all_of
all_of-imp p q imp String.[] h = refl
all_of-imp p q imp (String.◌∷◌ c s) h =
    let (hc, rest) = both (p c) (all_of p s) h in rw (imp c hc, all_of-imp p q imp s rest) refl
