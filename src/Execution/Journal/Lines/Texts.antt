-- ===== src/Execution/Journal/Lines/Texts.antt =====
-- The lines of a journal's text, and the candidates that the loop reads.
use Prim.Native.String
use Prim.Native.Char.{Char}
use text.Mathlib.TextLemmas
use protostar.Base.{
  ℕ, ◌+◌, ◌≡◌, refl, sym, ap, ap₂, ◌∙◌, inl, inr, String, Bool, true, false, not, ◌&&◌, List, [],
  ◌∷◌, ◌++◌, map, append-nil, append_assoc, arith, ◌==◌, eq_iff, length, All, is_empty, Bool-cases,
  if◌then◌else◌,
}
use protostar.Execution.Journal.{TaskJournalEvent}
use protostar.Execution.Journal.Lines.{
  is_newline, ends_with_newline, split_lines, drop_last, is_blank, Parsing, JsonResult, value,
  add_line, parse_candidates,
}

unfoldable pub has_no_newline : String → Bool
has_no_newline String.[] = true
has_no_newline (String.◌∷◌ c s) = not (is_newline c) && has_no_newline s

abbrev newline : Char
newline = "\n"

-- The lines, each with a newline, and what follows.
abbrev pub terminated : List String → String → String
terminated [] p = p
terminated (l ∷ ls) p = String.◌++◌ l (String.◌++◌ "\n" (terminated ls p))

newline-append : (s : String) → String.◌++◌ "\n" s ≡ String.◌∷◌ newline s
newline-append s =
    TextLemmas.cons-append newline String.[] s ∙ ap (String.◌∷◌ newline) (TextLemmas.nil-append s)

module _ (s : String) where
  pub split_lines-append :
      (l : String)
      → has_no_newline l ≡ true
      → split_lines (String.◌++◌ l (String.◌++◌ "\n" s)) ≡ l ∷ split_lines s
  unfolding has_no_newline split_lines
  split_lines-append String.[] h =
      ap split_lines (TextLemmas.nil-append (String.◌++◌ "\n" s) ∙ newline-append s)
  split_lines-append (String.◌∷◌ c l) h =
      ap split_lines (TextLemmas.cons-append c l (String.◌++◌ "\n" s))
      ∙ ground (arith, split_lines-append l)

pub split_lines-terminated :
    (ls : List String) (s : String)
    → All (λ l. has_no_newline l ≡ true) ls
    → split_lines (terminated ls s) ≡ ls ++ split_lines s
split_lines-terminated [] s h = refl
split_lines-terminated (l ∷ ls) s (h, hs) =
    split_lines-append (terminated ls s) l h ∙ ap (λ r. l ∷ r) (split_lines-terminated ls s hs)

pub split_lines-single : (p : String) → has_no_newline p ≡ true → split_lines p ≡ p ∷ []
unfolding has_no_newline split_lines
split_lines-single String.[] h = refl
split_lines-single (String.◌∷◌ c p) h = ground (arith, split_lines-single p)

ends_with_newline-append :
    (a : String) (d : Char) (s : String)
    → ends_with_newline (String.◌++◌ a (String.◌∷◌ d s)) ≡ ends_with_newline (String.◌∷◌ d s)
unfolding ends_with_newline
ends_with_newline-append String.[] d s =
    ap ends_with_newline (TextLemmas.nil-append (String.◌∷◌ d s))
ends_with_newline-append (String.◌∷◌ c String.[]) d s = ap ends_with_newline (
    TextLemmas.cons-append c String.[] (String.◌∷◌ d s)
    ∙ ap (String.◌∷◌ c) (TextLemmas.nil-append (String.◌∷◌ d s)))
ends_with_newline-append (String.◌∷◌ c (String.◌∷◌ c' a)) d s =
    ap ends_with_newline (
      TextLemmas.cons-append c (String.◌∷◌ c' a) (String.◌∷◌ d s)
      ∙ ap (String.◌∷◌ c) (TextLemmas.cons-append c' a (String.◌∷◌ d s)))
    ∙ ap ends_with_newline (sym (TextLemmas.cons-append c' a (String.◌∷◌ d s)))
    ∙ ends_with_newline-append (String.◌∷◌ c' a) d s

pub ends_with_newline-none : (p : String) → has_no_newline p ≡ true → ends_with_newline p ≡ false
unfolding has_no_newline ends_with_newline
ends_with_newline-none String.[] h = refl
ends_with_newline-none (String.◌∷◌ c String.[]) h = ground arith
ends_with_newline-none (String.◌∷◌ c (String.◌∷◌ d p)) h =
    ends_with_newline-none (String.◌∷◌ d p) (ground arith)

ends_with_newline-line :
    (l s : String)
    → ends_with_newline (String.◌++◌ l (String.◌++◌ "\n" s))
      ≡ ends_with_newline (String.◌∷◌ newline s)
ends_with_newline-line l s =
    ap (λ t. ends_with_newline (String.◌++◌ l t)) (newline-append s)
    ∙ ends_with_newline-append l newline s

-- The end of a journal is that of the last line.
pub ends_with_newline-terminated :
    (l : String) (ls : List String) → ends_with_newline (terminated (l ∷ ls) String.[]) ≡ true
unfolding ends_with_newline
ends_with_newline-terminated l [] = ends_with_newline-line l String.[]
ends_with_newline-terminated l (m ∷ ls) =
    ends_with_newline-line l (terminated (m ∷ ls) String.[])
    ∙ later (terminated (m ∷ ls) String.[]) (ends_with_newline-terminated m ls)
  where
    later :
        (s : String) → ends_with_newline s ≡ true → ends_with_newline (String.◌∷◌ newline s) ≡ true
    later String.[] h = cc
    later (String.◌∷◌ d s) h = h

-- A text with a first character.
abbrev pub IsStarted : String → Type 0
IsStarted s = (d : Char) × (t : String) × (s ≡ String.◌∷◌ d t)

pub terminated-IsStarted :
    (l : String) (ls : List String) (p : String) → IsStarted (terminated (l ∷ ls) p)
terminated-IsStarted String.[] ls p =
    (newline, terminated ls p, TextLemmas.nil-append _ ∙ newline-append (terminated ls p))
terminated-IsStarted (String.◌∷◌ c l) ls p = (c, _, TextLemmas.cons-append c l _)

pub IsStarted-not_empty : (s : String) → IsStarted s → (s == "") ≡ false
IsStarted-not_empty s (d, t, e) = elim (Bool-cases (s == "")) [
  | inl empty ↦ absurd (TextLemmas.cons≢nil (sym e ∙ (eq_iff s "").0 empty))
  | inr other ↦ other
]

pub ends_with_newline-partial :
    (ls : List String) (p : String)
    → IsStarted p
    → ends_with_newline (terminated ls p) ≡ ends_with_newline p
unfolding ends_with_newline
ends_with_newline-partial [] p started = refl
ends_with_newline-partial (l ∷ ls) p started =
    ends_with_newline-line l (terminated ls p)
    ∙ later (terminated ls p) (started_of ls)
    ∙ ends_with_newline-partial ls p started
  where
    started_of : (ls : List String) → IsStarted (terminated ls p)
    started_of [] = started
    started_of (m ∷ ls) = terminated-IsStarted m ls p

    later :
        (s : String) → IsStarted s → ends_with_newline (String.◌∷◌ newline s) ≡ ends_with_newline s
    later s (d, t, e) =
        ap (λ r. ends_with_newline (String.◌∷◌ newline r)) e ∙ sym (ap ends_with_newline e)

pub drop_last-append : (ls : List String) (p : String) → drop_last (ls ++ p ∷ []) ≡ ls
drop_last-append [] p = refl
drop_last-append (l ∷ []) p = refl
drop_last-append (l ∷ m ∷ ls) p = ap (λ r. l ∷ r) (drop_last-append (m ∷ ls) p)

module _ (json_stringify : TaskJournalEvent → String) (json_parse : String → JsonResult) where
  -- The text of the event is a line by itself and is read back as the event.
  abbrev pub IsSerialized : TaskJournalEvent → Type 0
  IsSerialized e =
      (json_parse (json_stringify e) ≡ value e)
      × (has_no_newline (json_stringify e) ≡ true)
      × (is_blank (json_stringify e) ≡ false)

  abbrev pub texts : List TaskJournalEvent → List String
  texts es = map json_stringify es

  pub texts-has_no_newline :
      (es : List TaskJournalEvent)
      → All IsSerialized es
      → All (λ l. has_no_newline l ≡ true) (texts es)
  texts-has_no_newline [] h = tt
  texts-has_no_newline (e ∷ es) ((_, one_line, _), hs) = (one_line, texts-has_no_newline es hs)

  abbrev pub add_events : Parsing → List TaskJournalEvent → Parsing
  add_events p es = record p { events = p.events ++ es }

  pub parse_candidates-texts :
      (trailing : Bool) (index : ℕ) (es : List TaskJournalEvent) (tail : List String) (p : Parsing)
      → All IsSerialized es
      → parse_candidates json_parse trailing index (texts es ++ tail) p
        ≡ parse_candidates json_parse trailing (index + length es) tail (add_events p es)
  unfolding parse_candidates
  parse_candidates-texts trailing index [] tail p h =
      ap₂ (λ i events. parse_candidates json_parse trailing i tail (record p { events = events }))
        (omega arith) (sym (append-nil p.events))
  parse_candidates-texts trailing index (e ∷ es) tail p ((read_back, _, filled), hs) =
      ap
        (λ b. parse_candidates json_parse trailing (index + 1) (texts es ++ tail) (
          if b
          then p
          else add_line index (is_empty (texts es ++ tail) && not trailing)
              (json_parse (json_stringify e)) p))
        filled
      ∙ ap
          (λ r.
            parse_candidates json_parse trailing (index + 1) (texts es ++ tail)
              (add_line index (is_empty (texts es ++ tail) && not trailing) r p))
          read_back
      ∙ parse_candidates-texts trailing (index + 1) es tail (add_events p (e ∷ [])) hs
      ∙ ap₂ (λ i events. parse_candidates json_parse trailing i tail (record p { events = events }))
          (omega arith) (append_assoc p.events (e ∷ []) es)
