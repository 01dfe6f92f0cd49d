-- ===== src/AudioBuffer/Concurrent.antt =====
-- audio_buffer.rs with calls that overlap: `push` and `peek_into` as sequences of loads and stores,
-- in any interleaving of the one writer and a reader. A reader only loads, so one stands for all.
-- The log of samples stored is a ghost: no step reads it.
use al.Prelude.{ℕ, ◌≤◌, ◌<◌, ◌≡◌, List, [], ◌∷◌, ◌++◌, none, some, length, get_or, set}
use al.AudioBuffer.{wrapping_add, ReadStatus, Inner, push_writes, peek_reads, precheck, recheck}

-- Where the writer is: outside a push, or with cell stores to do and then `head` to publish.
pub data WriterPc : Type 0 where
  idle : WriterPc
  storing : List (ℕ × ℕ) → ℕ → WriterPc

-- Where the reader is: outside a peek, with cell loads to do, or with a result. The numbers are
-- its tail and the length of `out`.
pub data ReaderPc : Type 0 where
  idle : ReaderPc
  loading : ℕ → ℕ → List ℕ → List ℕ → ReaderPc
  done : ℕ → ℕ → ReadStatus → List ℕ → ReaderPc

pub record System : Type 0 where
  pub ring : Inner
  pub writer : WriterPc
  pub reader : ReaderPc
  pub log : List ℕ

pub data Step (s : System) : System → Type 0 where
  -- the asserts of `push`; its load of `head` is the writer's own
  begin_push :
      (x : ℕ) (xs : List ℕ)
      → s.writer ≡ idle
      → length (x ∷ xs) ≤ s.ring.safety_margin
      → Step s (record s {
        writer = storing (push_writes s.ring (x ∷ xs)) (wrapping_add s.ring.head (length (x ∷ xs)));
      })
  store_cell :
      (i x : ℕ) (writes : List (ℕ × ℕ)) (new_head : ℕ)
      → s.writer ≡ storing ((i, x) ∷ writes) new_head
      → Step s (record s {
        ring = record s.ring { cells = set s.ring.cells i x };
        writer = storing writes new_head;
        log = s.log ++ x ∷ [];
      })
  publish_head :
      (new_head : ℕ)
      → s.writer ≡ storing [] new_head
      → Step s (record s { ring = record s.ring { head = new_head }; writer = idle })
  -- the asserts of `peek_into` and its first load of `head`
  begin_peek :
      (tail n : ℕ)
      → 0 < n
      → n ≤ s.ring.capacity_minus_margin
      → precheck s.ring tail n s.ring.head ≡ none
      → Step s (record s { reader = loading tail n (peek_reads s.ring tail n) [] })
  refuse_peek :
      (tail n : ℕ) (status : ReadStatus)
      → 0 < n
      → n ≤ s.ring.capacity_minus_margin
      → precheck s.ring tail n s.ring.head ≡ some status
      → Step s (record s { reader = done tail n status [] })
  load_cell :
      (tail n i : ℕ) (reads got : List ℕ)
      → s.reader ≡ loading tail n (i ∷ reads) got
      → Step s (record s { reader = loading tail n reads (got ++ get_or s.ring.cells i 0 ∷ []) })
  -- the second load of `head`
  recheck_head :
      (tail n : ℕ) (got : List ℕ)
      → s.reader ≡ loading tail n [] got
      → Step s (record s { reader = done tail n (recheck s.ring tail s.ring.head) got })

pub data Reach (s : System) : System → Type 0 where
  here : Reach s s
  next : {t u : System} → Reach s t → Step t u → Reach s u
