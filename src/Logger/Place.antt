-- ===== src/Logger/Place.antt =====
-- The field that names a place in the source.
use Prim.Native.Char.{Char, char, code}
use text.Mathlib.TextLemmas.{nil-append as nil_text, cons-append as cons_text}
use kibertas.Prelude.{ℕ, suc, String, ◌<>◌, some, false, ◌==◌, ◌≡◌, refl, ap, ◌∙◌, arith}
use kibertas.Go.Format.{decimal}
use kibertas.Util.Random.{size}
use kibertas.Logger.{after_last_slash, from_index, file_field}

-- A text without a slash.
data IsBase : String → Type 0 where
  empty : IsBase String.[]
  with : {c : Char} {s : String} → (code c == 47) ≡ false → IsBase s → IsBase (String.◌∷◌ c s)

IsBase-after_last_slash : {s : String} → IsBase s → after_last_slash s ≡ 0
unfolding after_last_slash
IsBase-after_last_slash empty = refl
IsBase-after_last_slash (with p h) = rw (IsBase-after_last_slash h) (rw p refl)

abbrev slash : Char
slash = char 47 tt

slash_first : (base : String) → "/" <> base ≡ String.◌∷◌ slash base
slash_first base = cons_text slash "" base ∙ ap (String.◌∷◌ slash) (nil_text base)

-- The index after the last slash of a path is that after its directory.
after_last_slash-path :
    (dir base : String) → IsBase base → after_last_slash (dir <> ("/" <> base)) ≡ suc (size dir)
unfolding after_last_slash size
after_last_slash-path String.[] base h =
    rw (nil_text ("/" <> base), slash_first base) (rw (IsBase-after_last_slash h) refl)
after_last_slash-path (String.◌∷◌ c dir) base h =
    rw (cons_text c dir ("/" <> base)) (rw (after_last_slash-path dir base h) (ground arith))

from_index-path : (dir base : String) → from_index (dir <> ("/" <> base)) (suc (size dir)) ≡ base
unfolding from_index size
from_index-path String.[] base = rw (nil_text ("/" <> base), slash_first base) refl
from_index-path (String.◌∷◌ c dir) base =
    rw (cons_text c dir ("/" <> base)) (from_index-path dir base)

-- The field that names a place in the source is the last component of the path of the file,
-- whatever directory comes before it, and the line.
file_field-path :
    (dir base : String) (line : ℕ)
    → IsBase base
    → (file_field (some (dir <> ("/" <> base), line)) ≡ base <> (":" <> decimal line))
      × (file_field (some (base, line)) ≡ base <> (":" <> decimal line))
unfolding file_field from_index
file_field-path dir base line h = (
  ap (λ x. x <> (":" <> decimal line))
      (ap (from_index (dir <> ("/" <> base))) (after_last_slash-path dir base h)
        ∙ from_index-path dir base),
  ap (λ n. from_index base n <> (":" <> decimal line)) (IsBase-after_last_slash h),
)
