-- ===== src/Run/Log.antt =====
-- The log of a run: what has been posted, and what is gathered. A run only adds to it.
use text.Mathlib.TextLemmas.{
  append_assoc as text_assoc, append-nil as text_nil, nil-append as nil_text,
}
use kibertas.Prelude.{
  String, ◌<>◌, Option, none, some, List, [], ◌∷◌, ◌++◌, ◌≡◌, sym, ◌∙◌, ap, concat,
}
use kibertas.Api.{Call, Request}
use kibertas.Scope.{effect_of, posted}
use kibertas.Run.World.{State, Env}
use kibertas.Run.Trace.{Runs, stay, say, make, send, lose}

-- The values of a form, one after the other.
abbrev pub form_text : List (String × String) → String
form_text [] = ""
form_text ((k, v) ∷ form) = v <> form_text form

abbrev pub request_text : Option Request → String
request_text none = ""
request_text (some r) = form_text r.form

-- The text that a call posts.
abbrev pub text_of : Call → String
text_of c = request_text (posted (effect_of c))

-- The text of all the posts of a run.
unfoldable pub posted_text : List Call → String
posted_text [] = ""
posted_text (c ∷ calls) = posted_text calls <> text_of c

-- All that has been posted, and what is gathered and not posted yet.
abbrev pub log : State → String
log s = posted_text s.calls <> concat s.messages

pub concat-snoc : (xs : List String) (x : String) → concat (xs ++ x ∷ []) ≡ concat xs <> x
concat-snoc [] x = text_nil x ∙ sym (nil_text x)
concat-snoc (y ∷ xs) x = ap (λ z. y <> z) (concat-snoc xs x) ∙ sym (text_assoc y (concat xs) x)

-- One text begins with another.
pub record Extends (old new : String) : Type 0 where
  pub rest : String
  pub continues : new ≡ old <> rest

Extends-grow : {a b c : String} (x : String) → Extends a b → c ≡ b <> x → Extends a c
Extends-grow {a} x h f = record {
  rest = h.rest <> x;
  continues = f ∙ ap (λ z. z <> x) h.continues ∙ text_assoc a h.rest x;
}

Extends-same : {a b c : String} → Extends a b → c ≡ b → Extends a c
Extends-same h f = record { rest = h.rest; continues = f ∙ h.continues }

pub log-say :
    (s : State) (m : String) → log (record s { messages = s.messages ++ m ∷ [] }) ≡ log s <> m
log-say s m =
    ap (λ z. posted_text s.calls <> z) (concat-snoc s.messages m)
    ∙ sym (text_assoc (posted_text s.calls) (concat s.messages) m)

pub posted_text-make :
    (calls : List Call) (c : Call)
    → posted (effect_of c) ≡ none
    → posted_text (c ∷ calls) ≡ posted_text calls
unfolding posted_text
posted_text-make calls c h =
    ap (λ z. posted_text calls <> z) (ap request_text h) ∙ text_nil (posted_text calls)

-- a post of one body
pub posted_text-post :
    (calls : List Call) (r : Request) (body : String)
    → r.form ≡ ("body", body) ∷ []
    → posted_text (Call.post_message r ∷ calls) ≡ posted_text calls <> body
unfolding posted_text
posted_text-post calls r body h = ap (λ z. posted_text calls <> z) (ap form_text h ∙ text_nil body)

log-make :
    (s : State) (c : Call)
    → posted (effect_of c) ≡ none
    → log (record s { calls = c ∷ s.calls }) ≡ log s
unfolding posted_text
log-make s c h =
    ap (λ z. (posted_text s.calls <> z) <> concat s.messages) (ap request_text h)
    ∙ ap (λ z. z <> concat s.messages) (text_nil (posted_text s.calls))

log-send :
    (s : State) (r : Request)
    → r.form ≡ ("body", concat s.messages) ∷ []
    → log (record { messages = []; calls = Call.post_message r ∷ s.calls }) ≡ log s
unfolding posted_text
log-send s r h =
    text_nil (posted_text s.calls <> form_text r.form)
    ∙ ap (λ z. posted_text s.calls <> z) (ap form_text h ∙ text_nil (concat s.messages))

-- If no URL to which a message may go is ill-formed, a run only adds to the log.
pub Runs-Extends :
    {env : Env} {P : Call → Type 0} {s t : State}
    → ((r : Request) → P (Call.post_message r) → env.bad_url r.url ≡ none)
    → Runs env P s t
    → Extends (log s) (log t)
Runs-Extends {s} good stay = record { rest = ""; continues = sym (text_nil (log s)) }
Runs-Extends good (say {t} m k) = Extends-grow m (Runs-Extends good k) (log-say t m)
Runs-Extends good (make {t} {c} p q k) = Extends-same (Runs-Extends good k) (log-make t c q)
Runs-Extends good (send {t} {r} p q k) = Extends-same (Runs-Extends good k) (log-send t r q)
Runs-Extends good (lose {r} p q k) = cc (good r p)
