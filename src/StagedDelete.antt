-- ===== src/StagedDelete.antt =====
-- modules/file_mgr/staging.rs: asynchronous deletes by a tombstone, a rename into the staging
-- directory, and a drain in batches.
pub mod Tombstones
pub mod Drain
pub mod Unfailed
pub mod Protocol
pub mod Atomic
pub mod Keeps
pub mod Life
pub mod Settles
pub mod Recovers
mod Tests
use al.Prelude.{ℕ, ◌+◌, leb, if◌then◌else◌, List}
use al.Effects.{Fate, succeeds, fails_before, fails_after, crashes, next_fate, later_fates}

abbrev pub default_delete_batch_entries : ℕ
default_delete_batch_entries = 256

-- The entries of a directory, as `read_dir` lists them: a file or a symlink and then the others, or
-- a directory with its entries and then the others. Names are numbers.
pub data Entries : Type 0 where
  nil : Entries
  leaf : (name : ℕ) → Entries → Entries
  dir : (name : ℕ) → Entries → Entries → Entries

-- `DrainResult`, an I/O error, or the death of the process.
pub data DrainResult : Type 0 where
  finished more error died : DrainResult

-- The result of a drain with what is left on the disk, the count of removed entries, and the fates
-- of the calls to come.
pub record Drained : Type 0 where
  pub result : DrainResult
  pub left : Entries
  pub removed : ℕ
  pub fates : List Fate

-- `remove_dir` is refused for a directory with entries.
unfoldable pub after_remove_dir :
    ℕ → Entries → Entries → ℕ → List Fate → (ℕ → List Fate → Drained) → Fate → Drained
after_remove_dir name nil es removed fates resume succeeds = resume (removed + 1) fates
after_remove_dir name nil es removed fates resume fails_before = record {
  result = error;
  left = dir name nil es;
  removed = removed;
  fates = fates;
}
after_remove_dir name nil es removed fates resume fails_after = record {
  result = error;
  left = es;
  removed = removed;
  fates = fates;
}
after_remove_dir name nil es removed fates resume crashes = record {
  result = died;
  left = dir name nil es;
  removed = removed;
  fates = fates;
}
after_remove_dir name (leaf m l) es removed fates resume f = record {
  result = error;
  left = dir name (leaf m l) es;
  removed = removed;
  fates = fates;
}
after_remove_dir name (dir m l l') es removed fates resume f = record {
  result = error;
  left = dir name (dir m l l') es;
  removed = removed;
  fates = fates;
}

-- What follows the drain of a directory; `resume` drains the entries after it.
unfoldable pub after_subdirectory :
    ℕ → ℕ → Entries → (ℕ → List Fate → Drained) → ℕ → List Fate → Entries → DrainResult → Drained
after_subdirectory budget name es resume removed fates left finished =
    if leb budget removed
    then record { result = more; left = dir name left es; removed = removed; fates = fates }
    else after_remove_dir name left es removed (later_fates fates) resume (next_fate fates)
after_subdirectory budget name es resume removed fates left more = record {
  result = more;
  left = dir name left es;
  removed = removed;
  fates = fates;
}
after_subdirectory budget name es resume removed fates left error = record {
  result = error;
  left = dir name left es;
  removed = removed;
  fates = fates;
}
after_subdirectory budget name es resume removed fates left died = record {
  result = died;
  left = dir name left es;
  removed = removed;
  fates = fates;
}

unfoldable pub after_remove_file :
    ℕ → Entries → ℕ → List Fate → (ℕ → List Fate → Drained) → Fate → Drained
after_remove_file name es removed fates resume succeeds = resume (removed + 1) fates
after_remove_file name es removed fates resume fails_before = record {
  result = error;
  left = leaf name es;
  removed = removed;
  fates = fates;
}
after_remove_file name es removed fates resume fails_after = record {
  result = error;
  left = es;
  removed = removed;
  fates = fates;
}
after_remove_file name es removed fates resume crashes = record {
  result = died;
  left = leaf name es;
  removed = removed;
  fates = fates;
}

-- A read (`read_dir`, an entry with its type, `symlink_metadata`) that fails or at which the process
-- dies leaves everything.
unfoldable pub after_read : Entries → ℕ → List Fate → (List Fate → Drained) → Fate → Drained
after_read es removed fates resume succeeds = resume fates
after_read es removed fates resume fails_before = record {
  result = error;
  left = es;
  removed = removed;
  fates = fates;
}
after_read es removed fates resume fails_after = record {
  result = error;
  left = es;
  removed = removed;
  fates = fates;
}
after_read es removed fates resume crashes = record {
  result = died;
  left = es;
  removed = removed;
  fates = fates;
}

-- The loop over the entries of a directory.
unfoldable pub drain_entries : ℕ → Entries → ℕ → List Fate → Drained
drain_entries budget nil removed fates = record {
  result = finished;
  left = nil;
  removed = removed;
  fates = fates;
}
drain_entries budget (leaf name es) removed fates =
    if leb budget removed
    then record { result = more; left = leaf name es; removed = removed; fates = fates }
    else after_read (leaf name es) removed (later_fates fates)
        (λ fates.
          after_remove_file name es removed (later_fates fates)
            (λ removed fates. drain_entries budget es removed fates) (next_fate fates))
        (next_fate fates)
drain_entries budget (dir name sub es) removed fates =
    if leb budget removed
    then record { result = more; left = dir name sub es; removed = removed; fates = fates }
    else after_read (dir name sub es) removed (later_fates fates)
        (λ fates.
          let r =
            after_read sub removed (later_fates fates)
              (λ fates. drain_entries budget sub removed fates) (next_fate fates) in
          after_subdirectory budget name es (λ removed fates. drain_entries budget es removed fates)
            r.removed r.fates r.left r.result)
        (next_fate fates)

-- `drain_dir`
unfoldable pub drain_dir : ℕ → Entries → ℕ → List Fate → Drained
drain_dir budget es removed fates =
    after_read es removed (later_fates fates) (λ fates. drain_entries budget es removed fates)
      (next_fate fates)
