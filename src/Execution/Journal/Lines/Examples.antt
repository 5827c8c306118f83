-- ===== src/Execution/Journal/Lines/Examples.antt =====
-- The theorems on the lines of a journal at two events, with a small serialization of them.
use protostar.Base.{◌≡◌, refl, String, true, false, List, [], ◌∷◌, some, ◌==◌, length, All}
use protostar.Execution.Journal.{TaskJournalEvent, task_pending, task_running}
use protostar.Execution.Journal.Lines.{
  JsonResult, value, invalid, parsed, journal_corruption, LineError, parse_journal_lines, is_blank,
  format_task_journal_line,
}
use protostar.Execution.Journal.Lines.Texts.{has_no_newline, IsSerialized}
use protostar.Execution.Journal.Lines.RoundTrip.{write_lines, parse_journal_lines-write_lines}
use protostar.Execution.Journal.Lines.Corruption.{parse_journal_lines-corrupt}

abbrev first : TaskJournalEvent
first = record {
  run_id = "run";
  plan_task_id = "task-a";
  at = "t1";
  attempt = 1;
  seq = 1;
  kind = task_pending;
}

abbrev second : TaskJournalEvent
second = record first { at = "t2"; seq = 2; kind = task_running }

abbrev both : List TaskJournalEvent
both = first ∷ second ∷ []

abbrev stringify : TaskJournalEvent → String
stringify e = elim (e.at == "t1") [ true ↦ "{1}" | false ↦ "{2}" ]

abbrev parse : String → JsonResult
parse text = elim (text == "{1}") [
  | true ↦ value first
  | false ↦ elim (text == "{2}") [ true ↦ value second | false ↦ invalid "no JSON" ]
]

both-IsSerialized : All (IsSerialized stringify parse) both
unfolding has_no_newline is_blank
both-IsSerialized = ((refl, refl, refl), ((refl, refl, refl), tt))

both_written : write_lines stringify parse both "" ≡ some "{1}\n{2}\n"
unfolding format_task_journal_line
both_written = refl

parse_journal_lines-write_lines_example : parse_journal_lines parse "{1}\n{2}\n" ≡ parsed both false
parse_journal_lines-write_lines_example =
    parse_journal_lines-write_lines stringify parse both "{1}\n{2}\n" both-IsSerialized both_written

partial_line : has_no_newline "{1" ≡ true
unfolding has_no_newline
partial_line = refl

partial_filled : is_blank "{1" ≡ false
unfolding is_blank
partial_filled = refl

partial_written : write_lines stringify parse both "{1" ≡ some "{1}\n{2}\n{1"
unfolding format_task_journal_line
partial_written = refl

corrupt_written : write_lines stringify parse both "{1\n{2" ≡ some "{1}\n{2}\n{1\n{2"
unfolding format_task_journal_line
corrupt_written = refl

parse_journal_lines-corrupt_example :
    (more : List LineError) × (parse_journal_lines parse "{1}\n{2}\n{1\n{2"
      ≡ journal_corruption (record { line_index = length both; message = "no JSON" } ∷ more))
parse_journal_lines-corrupt_example =
    parse_journal_lines-corrupt stringify parse both "{1" "{2" "no JSON" "{1}\n{2}\n{1\n{2"
      both-IsSerialized partial_line partial_filled refl corrupt_written
