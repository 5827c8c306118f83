-- ===== src/Execution/Journal/Lines/Corruption.antt =====
-- A complete line that is no JSON makes the journal corrupt, whatever follows.
use Prim.Native.String
use protostar.Base.{
  ℕ, ◌+◌, ◌≡◌, refl, sym, ap, ◌∙◌, String, Bool, true, false, not, ◌&&◌, List, [], ◌∷◌, ◌++◌, some,
  arith, append-nil, append_assoc, length, All, is_empty, if◌then◌else◌,
}
use protostar.Execution.Journal.{TaskJournalEvent}
use protostar.Execution.Journal.Lines.{
  ends_with_newline, add_character, split_lines, drop_last, is_blank, is_newline, LineError,
  Parsing, JsonResult, value, invalid, add_line, journal_corruption, conclude, nothing_parsed,
  parse_candidates, parse_journal_lines,
}
use protostar.Execution.Journal.Lines.Texts.{
  has_no_newline, terminated, terminated-IsStarted, split_lines-append, IsSerialized, add_events,
}
use protostar.Execution.Journal.Lines.RoundTrip.{
  write_lines, write_lines-terminated, parse_journal_lines_step, lines, read, read_texts,
  split_texts, lines-IsStarted, parse_candidates-invalid,
}

-- The loop takes back no error.
module _ (json_parse : String → JsonResult) where
  add_line-errors :
      (index : ℕ) (is_partial : Bool) (r : JsonResult) (p : Parsing)
      → (more : List LineError) × ((add_line index is_partial r p).errors ≡ p.errors ++ more)
  add_line-errors index is_partial (value e) p = ([], sym (append-nil p.errors))
  add_line-errors index true (invalid message) p = ([], sym (append-nil p.errors))
  add_line-errors index false (invalid message) p = (_, refl)

  parse_candidates-errors :
      (trailing : Bool) (index : ℕ) (ls : List String) (p : Parsing)
      → (more : List LineError) × ((parse_candidates json_parse trailing index ls p).errors
          ≡ p.errors ++ more)
  unfolding parse_candidates
  parse_candidates-errors trailing index [] p = ([], sym (append-nil p.errors))
  parse_candidates-errors trailing index (l ∷ ls) p =
      let p' = add_line index (is_empty ls && not trailing) (json_parse l) p in
      go (is_blank l) (add_line-errors index (is_empty ls && not trailing) (json_parse l) p)
        (parse_candidates-errors trailing (index + 1) ls p)
        (parse_candidates-errors trailing (index + 1) ls p')
    where
      next : Parsing → Parsing
      next p = parse_candidates json_parse trailing (index + 1) ls p

      added : Parsing
      added = add_line index (is_empty ls && not trailing) (json_parse l) p

      go :
          (b : Bool)
          → (more : List LineError) × (added.errors ≡ p.errors ++ more)
          → (more : List LineError) × ((next p).errors ≡ p.errors ++ more)
          → (more : List LineError) × ((next added).errors ≡ added.errors ++ more)
          → (more : List LineError) × ((next (if b then p else added)).errors ≡ p.errors ++ more)
      go true a same b = same
      go false (more, e) same (later, e') =
          (more ++ later, e' ∙ ap (λ es. es ++ later) e ∙ append_assoc p.errors more later)

split_lines-filled : (s : String) → (l : String) × (ls : List String) × (split_lines s ≡ l ∷ ls)
unfolding split_lines
split_lines-filled String.[] = ("", [], refl)
split_lines-filled (String.◌∷◌ c s) = go (is_newline c) (split_lines-filled s)
  where
    go :
        (b : Bool)
        → (l : String) × (ls : List String) × (split_lines s ≡ l ∷ ls)
        → (l : String) × (ls : List String) × ((if b
              then String.[] ∷ split_lines s
              else add_character c (split_lines s))
            ≡ l ∷ ls)
    go true h = ("", split_lines s, refl)
    go false (l, ls, e) = (String.◌∷◌ c l, ls, ap (add_character c) e)

-- The candidates behind a complete line: there are some, or the text ends with a newline.
chosen-behind :
    (front : List String) (l : String) (trailing : Bool) (rest : List String)
    → is_empty rest ≡ false
    → (later : List String) × ((if trailing
          then drop_last (front ++ l ∷ rest)
          else front ++ l ∷ rest)
        ≡ front ++ l ∷ later)
      × (is_empty later && not trailing ≡ false)
chosen-behind front l trailing [] filled = cc
chosen-behind front l false (m ∷ rest) filled = (m ∷ rest, refl, refl)
chosen-behind front l true (m ∷ rest) filled = (drop_last (m ∷ rest), go front, ground arith)
  where
    go :
        (front : List String)
        → drop_last (front ++ l ∷ m ∷ rest) ≡ front ++ l ∷ drop_last (m ∷ rest)
    go [] = refl
    go (x ∷ []) = refl
    go (x ∷ y ∷ front) = ap (λ r. x ∷ r) (go (y ∷ front))

module _ (json_stringify : TaskJournalEvent → String) (json_parse : String → JsonResult) where
  -- Where a complete line behind the events of a journal is no JSON, the journal is refused as corrupt,
  -- whatever stands behind that line, and the first error names the line. The texts of the events are
  -- assumed to be one line each, not blank, that JSON.parse gives back as the event.
  pub parse_journal_lines-corrupt :
      (es : List TaskJournalEvent) (bad rest message raw : String)
      → All (IsSerialized json_stringify json_parse) es
      → has_no_newline bad ≡ true
      → is_blank bad ≡ false
      → json_parse bad ≡ invalid message
      → write_lines json_stringify json_parse es (String.◌++◌ bad (String.◌++◌ "\n" rest))
        ≡ some raw
      → (more : List LineError) × (parse_journal_lines json_parse raw
          ≡ journal_corruption (record { line_index = length es; message = message } ∷ more))
  unfolding read
  parse_journal_lines-corrupt es bad rest message raw serialized one_line filled refused h =
      let front = lines json_stringify json_parse es serialized in
      let tail = String.◌++◌ bad (String.◌++◌ "\n" rest) in
      let whole = terminated front tail in
      let trailing = ends_with_newline whole in
      let (l, ls, some_lines) = split_lines-filled rest in
      let (later, chosen_lines, complete) =
        chosen-behind front bad trailing (split_lines rest) (ap is_empty some_lines) in
      let before = add_events json_stringify json_parse nothing_parsed es in
      let p = add_line (length es) false (invalid message) before in
      let (more, kept) = parse_candidates-errors json_parse trailing (length es + 1) later p in
      (
        more,
        ap (parse_journal_lines json_parse)
              (write_lines-terminated json_stringify json_parse es tail raw h)
            ∙ parse_journal_lines_step json_stringify json_parse whole trailing
                (front ++ bad ∷ split_lines rest)
                (lines-IsStarted json_stringify json_parse front tail
                  (terminated-IsStarted bad [] rest))
                refl
                (split_texts json_stringify json_parse es serialized tail
                  ∙ ap (λ t. front ++ t) (split_lines-append rest bad one_line))
            ∙ ap (read json_stringify json_parse trailing) chosen_lines
            ∙ read_texts json_stringify json_parse es serialized trailing (bad ∷ later)
            ∙ ap (λ q. conclude q q.errors)
                (parse_candidates-invalid json_stringify json_parse trailing (length es) bad later
                    before message filled refused
                  ∙ ap
                      (λ b.
                        parse_candidates json_parse trailing (length es + 1) later
                          (add_line (length es) b (invalid message) before))
                      complete)
            ∙ ap (conclude (parse_candidates json_parse trailing (length es + 1) later p)) kept,
      )
