-- ===== src/LogPage/Pages.antt =====
-- modules/file_mgr/log_page.rs: what a page holds, and where the next one goes on.
use al.Prelude.{
  ℕ, ◌<◌, ◌≡◌, ◌+◌, refl, sym, true, Option, none, some, List, [], ◌∷◌, ◌++◌, leb, leb→le, le→leb,
  if◌then◌else◌, length, length-append, take, take-append_left, arith, inl, inr, Bool-cases,
  Option-cases,
}
use mathlib.Core.List.{append-nil, append_assoc}
use al.LogPage.{
  LogEvent, LogPageResp, ErrorKind, Lines, end_of_file, broken, line, opened, Page, ok, err, clamp,
  max_log_page_limit, read_event, read_lines, read_jsonl_page,
}

unfoldable pub cons? : Option LogEvent → List LogEvent → List LogEvent
cons? none es = es
cons? (some e) es = e ∷ es

unfoldable pub error_of : Lines → Option ErrorKind
error_of end_of_file = none
error_of (broken e) = some e
error_of (line l ls) = error_of ls

unfoldable pub last_seq : ℕ → List LogEvent → ℕ
last_seq seq [] = seq
last_seq seq (e ∷ es) = last_seq e.seq es

unfoldable pub page_of : ℕ → List LogEvent → LogPageResp
page_of after_seq es = record { events = es; next_after_seq = last_seq after_seq es }

unfoldable pub ending_of : ℕ → List LogEvent → Option ErrorKind → Page
ending_of after_seq es none = ok (page_of after_seq es)
ending_of after_seq es (some e) = err e

-- The first `limit` events, or all of them if the file has fewer and no error.
unfoldable pub outcome : ℕ → ℕ → List LogEvent → Option ErrorKind → Page
outcome after_seq limit es error =
    if leb limit (length es)
    then ok (page_of after_seq (take limit es))
    else ending_of after_seq es error

last_seq-append : (d : ℕ) (es : List LogEvent) (e : LogEvent) → last_seq d (es ++ e ∷ []) ≡ e.seq
unfolding last_seq
last_seq-append d [] e = refl
last_seq-append d (x ∷ es) e = last_seq-append x.seq es e

outcome-cut :
    (after_seq limit : ℕ) (es rest : List LogEvent) (error : Option ErrorKind)
    → length es ≡ limit
    → outcome after_seq limit (es ++ rest) error ≡ ok (page_of after_seq es)
unfolding outcome
outcome-cut after_seq limit es rest error h =
    let enough : leb (length es) (length (es ++ rest)) ≡ true =
      le→leb _ _ (rw (length-append es rest) (omega arith)) in
    rw (sym h, enough, take-append_left es rest) refl

outcome-all :
    (after_seq limit : ℕ) (es : List LogEvent) (error : Option ErrorKind)
    → length es < limit
    → outcome after_seq limit es error ≡ ending_of after_seq es error
unfolding outcome
outcome-all after_seq limit es error h = ground arith

module _ (from_str : List ℕ → Option LogEvent) where
  -- The events of all the lines after a cursor.
  unfoldable pub events_after : ℕ → Lines → List LogEvent
  events_after after_seq end_of_file = []
  events_after after_seq (broken e) = []
  events_after after_seq (line l ls) =
      cons? (read_event from_str after_seq l) (events_after after_seq ls)

  read_lines-outcome :
      (after_seq limit : ℕ) (ls : Lines) (events : List LogEvent)
      → length events < limit
      → read_lines from_str after_seq limit ls events (last_seq after_seq events)
        ≡ outcome after_seq limit (events ++ events_after after_seq ls) (error_of ls)
  unfolding read_lines events_after error_of ending_of page_of cons?
  read_lines-outcome after_seq limit end_of_file events h =
      rw (append-nil events) (sym (outcome-all after_seq limit events none h))
  read_lines-outcome after_seq limit (broken e) events h =
      rw (append-nil events) (sym (outcome-all after_seq limit events (some e) h))
  read_lines-outcome after_seq limit (line l ls) events h =
      elim (Option-cases (read_event from_str after_seq l)) [
        | inl skipped ↦ rw (skipped, read_lines) (read_lines-outcome after_seq limit ls events h)
        | inr (evt, kept) ↦
            let more : length (events ++ evt ∷ []) ≡ length events + 1 =
              length-append events (evt ∷ []) in
            let split : (events ++ evt ∷ []) ++ events_after after_seq ls
                ≡ events ++ evt ∷ events_after after_seq ls =
              append_assoc events (evt ∷ []) (events_after after_seq ls) in
            let last = last_seq-append after_seq events evt in
            rw (kept, read_lines)
              (elim (Bool-cases (leb limit (length (events ++ evt ∷ [])))) [
                | inl full ↦
                    let exact : length (events ++ evt ∷ []) ≡ limit =
                      omega (arith, more, h, leb→le _ _ full) in
                    let cut =
                      outcome-cut after_seq limit (events ++ evt ∷ []) (events_after after_seq ls)
                        (error_of ls) exact in
                    rw (full, sym split, cut, last) refl
                | inr room ↦
                    let less : length (events ++ evt ∷ []) < limit = ground arith in
                    let rest = read_lines-outcome after_seq limit ls (events ++ evt ∷ []) less in
                    let moved = rw last at rest in rw (room, sym split) moved
              ])
      ]

  -- A page of a file that opens, at any cursor and limit: the first events after the cursor, as many
  -- as the limit between 1 and 1000, with the number of the last of them as the next cursor; or all
  -- of them if there are fewer, or the error if one stands in the file before that many are read.
  pub read_jsonl_page-opened :
      (ls : Lines) (after_seq limit : ℕ)
      → read_jsonl_page from_str (opened ls) after_seq limit
        ≡ outcome after_seq
            (clamp limit 1 max_log_page_limit)
            (events_after after_seq ls)
            (error_of ls)
  unfolding read_jsonl_page clamp last_seq
  read_jsonl_page-opened ls after_seq limit =
      read_lines-outcome after_seq (clamp limit 1 max_log_page_limit) ls [] (ground arith)
