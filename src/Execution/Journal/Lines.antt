-- ===== src/Execution/Journal/Lines.antt =====
-- packages/execution/src/journal.ts: the journal as lines of JSON. JSON.stringify and JSON.parse are
-- parameters; `json_parse` gives the message of the error where the code catches one.
pub mod Texts
pub mod RoundTrip
pub mod Corruption
mod Examples
use Prim.Native.String
use Prim.Native.Char.{Char, code}
use protostar.Base.{
  ℕ, ◌+◌, String, Bool, true, false, not, ◌&&◌, ◌||◌, List, [], ◌∷◌, ◌++◌, Option, none, some, ◌==◌,
  leb, nat_eq, is_empty, if◌then◌else◌,
}
use protostar.Base.Whitespace.{is_space}
use protostar.Execution.Journal.{TaskJournalEvent}

pub data RequiredField : Type 0 where
  run_id plan_task_id at : RequiredField

-- The checks of assertTaskJournalEvent that a typed event can fail: its schema version and its kind
-- are constants, and its numbers are natural.
unfoldable pub missing_field : TaskJournalEvent → Option RequiredField
missing_field e =
    if e.run_id == ""
    then some run_id
    else if e.plan_task_id == ""
    then some plan_task_id
    else if e.at == ""
    then some at
    else none

pub data FormatResult : Type 0 where
  line : String → FormatResult
  field_is_required : RequiredField → FormatResult

abbrev pub format_checked : String → Option RequiredField → FormatResult
format_checked text none = line (String.◌++◌ text "\n")
format_checked text (some field) = field_is_required field

unfoldable pub format_task_journal_line :
    (TaskJournalEvent → String) → TaskJournalEvent → FormatResult
unfolding missing_field
format_task_journal_line json_stringify e = format_checked (json_stringify e) (missing_field e)

abbrev pub is_newline : Char → Bool
is_newline c = nat_eq (code c) b'\n'

-- `raw.endsWith("\n")`
unfoldable pub ends_with_newline : String → Bool
ends_with_newline String.[] = false
ends_with_newline (String.◌∷◌ c String.[]) = is_newline c
ends_with_newline (String.◌∷◌ c s) = ends_with_newline s

abbrev pub add_character : Char → List String → List String
add_character c [] = String.◌∷◌ c String.[] ∷ []
add_character c (l ∷ ls) = String.◌∷◌ c l ∷ ls

-- `raw.split("\n")`
unfoldable pub split_lines : String → List String
split_lines String.[] = String.[] ∷ []
split_lines (String.◌∷◌ c s) =
    let rest = split_lines s in if is_newline c then String.[] ∷ rest else add_character c rest

-- `lines.slice(0, -1)`
abbrev pub drop_last : List String → List String
drop_last [] = []
drop_last (l ∷ []) = []
drop_last (l ∷ m ∷ ls) = l ∷ drop_last (m ∷ ls)

-- `line.trim() === ""`
unfoldable pub is_blank : String → Bool
unfolding is_space
is_blank String.[] = true
is_blank (String.◌∷◌ c s) = is_space (code c) && is_blank s

pub record LineError : Type 0 where
  pub line_index : ℕ
  pub message : String

-- What the loop assigns to.
pub record Parsing : Type 0 where
  pub events : List TaskJournalEvent
  pub errors : List LineError
  pub dropped_trailing_partial : Bool

pub data JsonResult : Type 0 where
  value : TaskJournalEvent → JsonResult
  invalid : (message : String) → JsonResult

-- One round: `is_partial` tells whether the line is the last one and has no newline.
abbrev pub add_line : ℕ → Bool → JsonResult → Parsing → Parsing
add_line index is_partial (value e) p = record p { events = p.events ++ e ∷ [] }
add_line index true (invalid message) p = record p { dropped_trailing_partial = true }
add_line index false (invalid message) p = record p {
  errors = p.errors ++ record { line_index = index; message = message } ∷ [];
}

pub data ParseResult : Type 0 where
  parsed : List TaskJournalEvent → (dropped_trailing_partial : Bool) → ParseResult
  journal_corruption : List LineError → ParseResult

abbrev pub conclude : Parsing → List LineError → ParseResult
conclude p [] = parsed p.events p.dropped_trailing_partial
conclude p (e ∷ es) = journal_corruption (e ∷ es)

abbrev pub nothing_parsed : Parsing
nothing_parsed = record { events = []; errors = []; dropped_trailing_partial = false }

module _ (json_parse : String → JsonResult) where
  unfoldable pub parse_candidates : Bool → ℕ → List String → Parsing → Parsing
  parse_candidates has_trailing_newline index [] p = p
  parse_candidates has_trailing_newline index (l ∷ ls) p =
      parse_candidates has_trailing_newline (index + 1) ls (
        if is_blank l
        then p
        else add_line index (is_empty ls && not has_trailing_newline) (json_parse l) p)

  unfoldable pub parse_journal_lines : String → ParseResult
  unfolding parse_candidates split_lines ends_with_newline is_blank
  parse_journal_lines raw =
      if raw == ""
      then parsed [] false
      else (let trailing = ends_with_newline raw in
          let lines = split_lines raw in
          let p =
            parse_candidates trailing 0 (if trailing then drop_last lines else lines)
              nothing_parsed in
          conclude p p.errors)
