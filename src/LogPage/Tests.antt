-- ===== src/LogPage/Tests.antt =====
-- modules/file_mgr/log_page.rs: concrete runs.
use al.Prelude.{ℕ, ◌≡◌, ◌++◌, refl, arith, Option, none, some, List, [], ◌∷◌, ltb, if◌then◌else◌}
use al.LogPage.{
  LogEvent, other, Lines, end_of_file, broken, line, opened, ok, clamp, max_log_page_limit,
  read_jsonl_page, read_lines, read_event, newer_than,
}
use al.LogPage.Pages.{outcome, cons?, events_after, error_of, read_jsonl_page-opened}
use al.LogPage.Cursor.{Ascending, events_of, read_jsonl_page-resumes}

abbrev event : ℕ → LogEvent
event n = record { seq = n; at = []; state = none; progress = none; message = none }

-- A line is the number of its event, and malformed from 100 on.
abbrev decode : List ℕ → Option LogEvent
decode [] = none
decode (n ∷ ns) = if ltb n 100 then some (event n) else none

abbrev log : Lines
log = line (1 ∷ []) (line [] (line (200 ∷ []) (line (2 ∷ []) (line (3 ∷ []) end_of_file))))

log-second :
    read_jsonl_page decode (opened log) 1 1
    ≡ ok (record { events = event 2 ∷ []; next_after_seq = 2 })
unfolding read_jsonl_page read_lines read_event newer_than clamp
log-second = refl

read_jsonl_page-opened_example :
    read_jsonl_page decode (opened (line (1 ∷ []) (line (2 ∷ []) (broken (other 5))))) 0 7
    ≡ outcome 0
        (clamp 7 1 max_log_page_limit)
        (events_after decode 0 (line (1 ∷ []) (line (2 ∷ []) (broken (other 5)))))
        (error_of (line (1 ∷ []) (line (2 ∷ []) (broken (other 5)))))
read_jsonl_page-opened_example =
    read_jsonl_page-opened decode (line (1 ∷ []) (line (2 ∷ []) (broken (other 5)))) 0 7

log-Ascending : Ascending (events_of decode log)
unfolding Ascending events_of cons?
log-Ascending = ((omega arith, (omega arith, tt)), ((omega arith, tt), (tt, tt)))

read_jsonl_page-resumes_example :
    event 2 ∷ [] ++ events_after decode 2 log ≡ events_after decode 1 log
read_jsonl_page-resumes_example = read_jsonl_page-resumes decode log 1 1 _ log-Ascending log-second
