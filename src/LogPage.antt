-- ===== src/LogPage.antt =====
-- modules/file_mgr/log_page.rs: pages of a JSONL log.
pub mod Pages
pub mod Cursor
mod Tests
use al.Prelude.{
  ℕ, min, max, Bool, true, false, Option, none, some, List, [], ◌∷◌, ◌++◌, leb, if◌then◌else◌,
  length,
}
use al.JobRegistry.Types.{JobProgress}

abbrev pub max_log_page_limit : ℕ
max_log_page_limit = 1000

-- `at` is a string in the source.
pub record LogEvent : Type 0 where
  pub seq : ℕ
  pub at : List ℕ
  pub state : Option (List ℕ)
  pub progress : Option JobProgress
  pub message : Option (List ℕ)

pub record LogPageResp : Type 0 where
  pub events : List LogEvent
  pub next_after_seq : ℕ

-- `std::io::ErrorKind`: an error that is not `NotFound` is a number.
pub data ErrorKind : Type 0 where
  not_found : ErrorKind
  other : ℕ → ErrorKind

-- What `reader.lines()` yields: lines, and then the end of the file or an error.
pub data Lines : Type 0 where
  end_of_file : Lines
  broken : ErrorKind → Lines
  line : List ℕ → Lines → Lines

-- What `File::open` and the file hold.
pub data File : Type 0 where
  refused : ErrorKind → File
  opened : Lines → File

pub data Page : Type 0 where
  ok : LogPageResp → Page
  err : ErrorKind → Page

-- `Ord::clamp`
unfoldable pub clamp : ℕ → ℕ → ℕ → ℕ
clamp n low high = min high (max low n)

unfoldable pub newer_than : ℕ → Option LogEvent → Option LogEvent
newer_than after_seq none = none
newer_than after_seq (some evt) = if leb evt.seq after_seq then none else some evt

-- `serde_json::from_str` is the parameter `from_str`.
module _ (from_str : List ℕ → Option LogEvent) where
  -- The event of a line that is not passed over.
  unfoldable pub read_event : ℕ → List ℕ → Option LogEvent
  read_event after_seq [] = none
  read_event after_seq (c ∷ cs) = newer_than after_seq (from_str (c ∷ cs))

  -- The loop over the lines.
  unfoldable pub read_lines : ℕ → ℕ → Lines → List LogEvent → ℕ → Page
  read_lines after_seq limit end_of_file events next_after_seq =
      ok (record { events = events; next_after_seq = next_after_seq })
  read_lines after_seq limit (broken e) events next_after_seq = err e
  read_lines after_seq limit (line l ls) events next_after_seq = elim (read_event after_seq l) [
    | none ↦ read_lines after_seq limit ls events next_after_seq
    | some evt ↦ elim (leb limit (length (events ++ evt ∷ []))) [
      | true ↦ ok (record { events = events ++ evt ∷ []; next_after_seq = evt.seq })
      | false ↦ read_lines after_seq limit ls (events ++ evt ∷ []) evt.seq
    ]
  ]

  unfoldable pub read_jsonl_page : File → ℕ → ℕ → Page
  read_jsonl_page (refused not_found) after_seq limit =
      ok (record { events = []; next_after_seq = after_seq })
  read_jsonl_page (refused (other n)) after_seq limit = err (other n)
  read_jsonl_page (opened ls) after_seq limit =
      read_lines after_seq (clamp limit 1 max_log_page_limit) ls [] after_seq
