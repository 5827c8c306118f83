-- ===== src/Execution/Journal/Lines/RoundTrip.antt =====
-- What is written line by line is read back; a line that was cut off is dropped, and a complete line
-- that is no JSON is an error.
use Prim.Native.String
use text.Mathlib.TextLemmas
use protostar.Base.{
  ℕ, ◌+◌, ◌≡◌, refl, sym, ap, ap₂, ◌∙◌, ◌⊎◌, inl, inr, String, Bool, true, false, not, ◌&&◌, List,
  [], ◌∷◌, ◌++◌, Option, none, some, append-nil, arith, length, All, is_empty, if◌then◌else◌,
  or_else,
}
use protostar.Execution.Journal.{TaskJournalEvent}
use protostar.Execution.Journal.Lines.{
  missing_field, RequiredField, FormatResult, line, format_checked, format_task_journal_line,
  ends_with_newline, split_lines, drop_last, is_blank, Parsing, JsonResult, invalid, add_line,
  ParseResult, parsed, conclude, nothing_parsed, parse_candidates, parse_journal_lines,
}
use protostar.Execution.Journal.Lines.Texts.{
  has_no_newline, terminated, IsStarted, terminated-IsStarted, IsStarted-not_empty,
  ends_with_newline-partial, ends_with_newline-terminated, ends_with_newline-none,
  split_lines-terminated, split_lines-single, drop_last-append, IsSerialized, texts,
  texts-has_no_newline, add_events, parse_candidates-texts,
}

module _ (json_stringify : TaskJournalEvent → String) (json_parse : String → JsonResult) where
  -- The text of the events line by line, and what follows.
  abbrev prepend : FormatResult → Option String → Option String
  prepend (line l) (some rest) = some (String.◌++◌ l rest)
  prepend _ _ = none

  abbrev pub write_lines : List TaskJournalEvent → String → Option String
  write_lines [] tail = some tail
  write_lines (e ∷ es) tail =
      prepend (format_task_journal_line json_stringify e) (write_lines es tail)

  written :
      (es : List TaskJournalEvent) (tail : String)
      → (write_lines es tail ≡ none)
        ⊎ (write_lines es tail ≡ some (terminated (texts json_stringify json_parse es) tail))
  unfolding format_task_journal_line
  written [] tail = inr refl
  written (e ∷ es) tail = go (missing_field e) (write_lines es tail) (written es tail)
    where
      text : String
      text = json_stringify e

      rest : String
      rest = terminated (texts json_stringify json_parse es) tail

      go :
          (field : Option RequiredField) (o : Option String)
          → (o ≡ none) ⊎ (o ≡ some rest)
          → (prepend (format_checked text field) o ≡ none)
            ⊎ (prepend (format_checked text field) o
                ≡ some (String.◌++◌ text (String.◌++◌ "\n" rest)))
      go none o (inl missing) = inl (rw missing refl)
      go none o (inr found) = inr (rw found (ap some (TextLemmas.append_assoc text "\n" rest)))
      go (some field) o h = inl refl

  -- The text that was written.
  pub write_lines-terminated :
      (es : List TaskJournalEvent) (tail raw : String)
      → write_lines es tail ≡ some raw
      → raw ≡ terminated (texts json_stringify json_parse es) tail
  write_lines-terminated es tail raw h = elim (written es tail) [
    | inl missing ↦ cc
    | inr found ↦ ap (λ o. or_else o "") (sym h ∙ found)
  ]

  unfoldable pub read : Bool → List String → ParseResult
  read trailing candidates =
      let p = parse_candidates json_parse trailing 0 candidates nothing_parsed in
      conclude p p.errors

  abbrev pub chosen : Bool → List String → List String
  chosen trailing lines = if trailing then drop_last lines else lines

  pub parse_journal_lines_step :
      (raw : String) (trailing : Bool) (lines : List String)
      → IsStarted raw
      → ends_with_newline raw ≡ trailing
      → split_lines raw ≡ lines
      → parse_journal_lines json_parse raw ≡ read trailing (chosen trailing lines)
  unfolding parse_journal_lines read
  parse_journal_lines_step raw trailing lines started ends split =
      ap
        (λ b.
          if b
          then parsed [] false
          else read (ends_with_newline raw) (chosen (ends_with_newline raw) (split_lines raw)))
        (IsStarted-not_empty raw started)
      ∙ ap₂ (λ t ls. read t (chosen t ls)) ends split

  module _ (es : List TaskJournalEvent)
      (serialized : All (IsSerialized json_stringify json_parse) es) where
    abbrev pub lines : List String
    lines = texts json_stringify json_parse es

    -- The loop over the lines of the events.
    pub read_texts :
        (trailing : Bool) (tail : List String)
        → let p =
            parse_candidates json_parse trailing
              (length es)
              tail
              (add_events json_stringify json_parse nothing_parsed es) in
          read trailing (lines ++ tail) ≡ conclude p p.errors
    unfolding read
    read_texts trailing tail =
        ap (λ p. conclude p p.errors)
          (parse_candidates-texts json_stringify json_parse trailing 0 es tail nothing_parsed
              serialized
            ∙ ap
                (λ n.
                  parse_candidates json_parse trailing n tail
                    (add_events json_stringify json_parse nothing_parsed es))
                (omega arith))

    pub split_texts :
        (tail : String) → split_lines (terminated lines tail) ≡ lines ++ split_lines tail
    split_texts tail =
        split_lines-terminated lines tail
          (texts-has_no_newline json_stringify json_parse es serialized)

  -- A journal that is written event by event is read back as those events, with nothing dropped. The
  -- text of an event is assumed to be one line, not blank, that JSON.parse gives back as the event.
  pub parse_journal_lines-write_lines :
      (es : List TaskJournalEvent) (raw : String)
      → All (IsSerialized json_stringify json_parse) es
      → write_lines es "" ≡ some raw
      → parse_journal_lines json_parse raw ≡ parsed es false
  unfolding parse_journal_lines parse_candidates has_no_newline
  parse_journal_lines-write_lines [] raw serialized h =
      ap (parse_journal_lines json_parse) (write_lines-terminated [] "" raw h)
  parse_journal_lines-write_lines (e ∷ es) raw serialized h =
      let all_lines = lines (e ∷ es) serialized in
      ap (parse_journal_lines json_parse) (write_lines-terminated (e ∷ es) "" raw h)
      ∙ parse_journal_lines_step (terminated all_lines "") true (all_lines ++ "" ∷ [])
          (terminated-IsStarted (json_stringify e) (lines es serialized.1) "")
          (ends_with_newline-terminated (json_stringify e) (lines es serialized.1))
          (split_texts (e ∷ es) serialized ""
            ∙ ap (λ t. all_lines ++ t) (split_lines-single "" refl))
      ∙ ap (read true) (drop_last-append all_lines "" ∙ sym (append-nil all_lines))
      ∙ read_texts (e ∷ es) serialized true []

  pub is_blank-IsStarted : (p : String) → is_blank p ≡ false → IsStarted p
  unfolding is_blank
  is_blank-IsStarted String.[] h = cc
  is_blank-IsStarted (String.◌∷◌ c p) h = (c, p, refl)

  pub lines-IsStarted : (ls : List String) (p : String) → IsStarted p → IsStarted (terminated ls p)
  lines-IsStarted [] p started = started
  lines-IsStarted (l ∷ ls) p started = terminated-IsStarted l ls p

  -- A line that is no JSON, in the loop.
  pub parse_candidates-invalid :
      (trailing : Bool) (index : ℕ) (l : String) (ls : List String) (p : Parsing) (message : String)
      → is_blank l ≡ false
      → json_parse l ≡ invalid message
      → parse_candidates json_parse trailing index (l ∷ ls) p
        ≡ parse_candidates json_parse trailing
            (index + 1)
            ls
            (add_line index (is_empty ls && not trailing) (invalid message) p)
  unfolding parse_candidates
  parse_candidates-invalid trailing index l ls p message filled refused =
      ap
        (λ b.
          parse_candidates json_parse trailing (index + 1) ls
            (if b then p else add_line index (is_empty ls && not trailing) (json_parse l) p))
        filled
      ∙ ap
          (λ r.
            parse_candidates json_parse trailing (index + 1) ls
              (add_line index (is_empty ls && not trailing) r p))
          refused

  -- Where the writing of a line was cut off and what is left of it is no JSON, the journal is read as
  -- the events before, and the rest is reported as dropped. The texts of the events are assumed to be
  -- as above.
  pub parse_journal_lines-partial :
      (es : List TaskJournalEvent) (partial message raw : String)
      → All (IsSerialized json_stringify json_parse) es
      → has_no_newline partial ≡ true
      → is_blank partial ≡ false
      → json_parse partial ≡ invalid message
      → write_lines es partial ≡ some raw
      → parse_journal_lines json_parse raw ≡ parsed es true
  unfolding parse_candidates
  parse_journal_lines-partial es partial message raw serialized one_line filled refused h =
      let all_lines = lines es serialized in
      let started = is_blank-IsStarted partial filled in
      ap (parse_journal_lines json_parse) (write_lines-terminated es partial raw h)
      ∙ parse_journal_lines_step (terminated all_lines partial) false (all_lines ++ partial ∷ [])
          (lines-IsStarted all_lines partial started)
          (ends_with_newline-partial all_lines partial started
            ∙ ends_with_newline-none partial one_line)
          (split_texts es serialized partial
            ∙ ap (λ t. all_lines ++ t) (split_lines-single partial one_line))
      ∙ read_texts es serialized false (partial ∷ [])
      ∙ ap (λ p. conclude p p.errors)
          (parse_candidates-invalid false (length es) partial []
            (add_events json_stringify json_parse nothing_parsed es) message filled refused)
