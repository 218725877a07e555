-- ===== src/Run/Seen.antt =====
-- What has been observed in a part of a run: a call of which `Q` holds, with the calls before it.
use kibertas.Prelude.{[], List, ◌∷◌}
use kibertas.Api.{Call}
use kibertas.Run.Trace.{Since, same, more, Since-trans}

abbrev pub Anything : Call → Type 0
Anything c = Unit

-- Of the calls after `old`, one meets `Q`.
pub data Seen (Q : List Call → Call → Type 0) (old : List Call) : List Call → Type 0 where
  here :
      {c : Call} {before : List Call}
      → Since Anything old before
      → Q before c
      → Seen Q old (c ∷ before)
  later : {c : Call} {calls : List Call} → Seen Q old calls → Seen Q old (c ∷ calls)

module _ {P : Call → Type 0} where
  forget : {old new : List Call} → Since P old new → Since Anything old new
  forget same = same
  forget (more p h) = more tt (forget h)

  module _ {Q : List Call → Call → Type 0} where
    -- What has been seen stays seen.
    pub Seen-Since :
        {old new newer : List Call} → Since P new newer → Seen Q old new → Seen Q old newer
    Seen-Since same q = q
    Seen-Since (more p h) q = later (Seen-Since h q)

    -- What has been seen in a part has been seen in the whole.
    pub Since-Seen :
        {older old new : List Call} → Since P older old → Seen Q old new → Seen Q older new
    Since-Seen p (here h q) = here (Since-trans (forget p) h) q
    Since-Seen p (later q) = later (Since-Seen p q)

all_calls : (calls : List Call) → Since Anything [] calls
all_calls [] = same
all_calls (c ∷ calls) = more tt (all_calls calls)

-- What has been seen has been seen since the first call of all.
pub Seen-first :
    {Q : List Call → Call → Type 0} {old new : List Call} → Seen Q old new → Seen Q [] new
Seen-first {old} q = Since-Seen (all_calls old) q
