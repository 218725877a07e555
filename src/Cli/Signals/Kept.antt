-- ===== src/Cli/Signals/Kept.antt =====
-- What the steps of the program keep of a message that has been gathered.
use mathlib.Core.Path.{subst}
use text.Mathlib.TextLemmas.{
  append_assoc as text_assoc, append-nil as text_nil, nil-append as nil_text,
}
use kibertas.Prelude.{String, ◌<>◌, [], ◌∷◌, ◌≡◌, ◌⊎◌, inl, inr, sym, ap, ◌∙◌, concat}
use kibertas.Api.{Call, Request}
use kibertas.Run.{State, Env}
use kibertas.Run.Trace.{Runs, stay, say, make, send, lose}
use kibertas.Run.Log.{Extends, concat-snoc, posted_text, posted_text-make, posted_text-post}
use kibertas.Cli.Signals.{Sender, elsewhere, has_read, has_posted, Quiet}

-- A text with another inside it.
pub record Contains (piece whole : String) : Type 0 where
  pub before : String
  pub after : String
  pub split : whole ≡ before <> (piece <> after)

pub Contains-Extends :
    {piece old new : String} → Contains piece old → Extends old new → Contains piece new
Contains-Extends {piece} h k = record {
  before = h.before;
  after = h.after <> k.rest;
  split =
      k.continues
      ∙ ap (λ z. z <> k.rest) h.split
      ∙ text_assoc h.before (piece <> h.after) k.rest
      ∙ ap (λ z. h.before <> z) (text_assoc piece h.after k.rest);
}

Extends-Contains : {piece new : String} (old : String) → new ≡ old <> piece → Contains piece new
Extends-Contains old h = record {
  before = old;
  after = "";
  split = h ∙ ap (λ z. old <> z) (sym (text_nil _));
}

pub Contains-after :
    {piece new body : String} (old : String)
    → Contains piece body
    → new ≡ old <> body
    → Contains piece new
Contains-after {piece} old h e = record {
  before = old <> h.before;
  after = h.after;
  split = e ∙ ap (λ z. old <> z) h.split ∙ sym (text_assoc old h.before (piece <> h.after));
}

pub whole : {piece : String} → Contains piece piece
whole {piece} = record {
  before = "";
  after = "";
  split = sym (nil_text (piece <> "") ∙ text_nil piece);
}

-- A piece has been posted, or is on its way to be posted: it is among the messages, and in the body that
-- was read of them, if `Send` has read them.
abbrev pub Underway : String → Sender → State → Type 0
Underway piece elsewhere s = Contains piece (concat s.messages)
Underway piece (has_read body) s = Contains piece body × Contains piece (concat s.messages)
Underway piece has_posted s = ⊥

abbrev pub IsKept : String → Sender → State → Type 0
IsKept piece sender s = Contains piece (posted_text s.calls) ⊎ Underway piece sender s

Contains-same : {piece a b : String} → Contains piece a → b ≡ a → Contains piece b
Contains-same h e = Contains-Extends h (record { rest = ""; continues = e ∙ sym (text_nil _) })

module _ {env : Env} {P : Call → Type 0} {piece : String} where
  -- steps outside `Send` keep what was posted and what was gathered
  pub Runs-IsKept :
      {s t : State} → Runs env (Quiet P) s t → IsKept piece elsewhere s → IsKept piece elsewhere t
  Runs-IsKept stay h = h
  Runs-IsKept (say {t} m k) h = elim (Runs-IsKept k h) [
    | inl c ↦ inl c
    | inr c ↦ inr (Contains-Extends c (record { rest = m; continues = concat-snoc t.messages m }))
  ]
  Runs-IsKept (make {t} {c} p q k) h = elim (Runs-IsKept k h) [
    | inl d ↦ inl (Contains-same d (posted_text-make t.calls c q))
    | inr d ↦ inr d
  ]
  Runs-IsKept (send (p, q) f k) h = cc q
  Runs-IsKept (lose (p, q) f k) h = cc q

module _ {piece : String} where
  -- so do the steps of `Send`: what was read is posted, before the messages are emptied
  pub reads-IsKept :
      (s : State) (sender : Sender)
      → sender ≡ elsewhere
      → IsKept piece sender s
      → IsKept piece (has_read (concat s.messages)) s
  reads-IsKept s sender e h = elim (subst (λ x. IsKept piece x s) e h) [
    | inl c ↦ inl c
    | inr c ↦ inr (c, c)
  ]

  pub posts-IsKept :
      (s : State) (sender : Sender) (body : String) (r : Request)
      → sender ≡ has_read body
      → r.form ≡ ("body", body) ∷ []
      → IsKept piece sender s
      → IsKept piece has_posted (record s { calls = Call.post_message r ∷ s.calls })
  posts-IsKept s sender body r e f h =
      let extends = posted_text-post s.calls r body f in
      elim (subst (λ x. IsKept piece x s) e h) [
        | inl c ↦ inl (Contains-Extends c (record { rest = body; continues = extends }))
        | inr (c, d) ↦ inl (Contains-after (posted_text s.calls) c extends)
      ]

  pub resets-IsKept :
      (s : State) (sender : Sender)
      → sender ≡ has_posted
      → IsKept piece sender s
      → IsKept piece elsewhere (record s { messages = [] })
  resets-IsKept s sender e h = elim (subst (λ x. IsKept piece x s) e h) [
    | inl c ↦ inl c
    | inr c ↦ absurd c
  ]

  pub IsKept-Contains :
      (s : State) (sender : Sender)
      → IsKept piece sender s
      → Contains piece (posted_text s.calls) ⊎ Contains piece (concat s.messages)
  IsKept-Contains s sender (inl c) = inl c
  IsKept-Contains s elsewhere (inr c) = inr c
  IsKept-Contains s has_posted (inr c) = elim c [ ]
  IsKept-Contains s (has_read body) (inr (c, d)) = inr d
