-- ===== src/AudioBuffer/Seqlock.antt =====
-- audio_buffer.rs: whatever the writer does while a peek runs, a peek that ends `Ready` has copied
-- a window of the log. The safety margin bounds how far the stores run ahead of `head`, and the
-- second load of `head` bounds how far the writer came meanwhile.
pub mod Safety
use al.Prelude.{
  ℕ, zero, suc, ◌+◌, ◌-◌, ◌/◌, ◌%◌, ◌^◌, ◌≤◌, ◌<◌, ◌≡◌, refl, sym, ap, ◌∙◌, List, [], ◌∷◌, ◌++◌,
  arith, length, length-append, get_or, set, none, some, subst,
}
use al.Prelude.Windows.{window, window-append, window-suc}
use al.AudioBuffer.{ReadStatus, ready, Inner, push_writes, peek_reads, precheck, recheck}
use al.AudioBuffer.Index.{ring_writes, ring_reads}
use al.AudioBuffer.Shape.{HasShape, push_writes-ring, peek_reads-ring}
use al.AudioBuffer.Content.{Content, Content-store}
use al.AudioBuffer.Sequential.{Represents}
use al.AudioBuffer.Concurrent.{
  WriterPc, storing, ReaderPc, loading, done, System, Step, begin_push, store_cell, publish_head,
  begin_peek, refuse_peek, load_cell, recheck_head, Reach, here, next,
}

-- Outside a push the log ends at `head`; inside, the stores to do are those of the samples `rest`.
abbrev pub WriterOk : Inner → List ℕ → WriterPc → Type 0
WriterOk b log WriterPc.idle = length log ≡ b.head
WriterOk b log (storing writes new_head) =
    (rest : List ℕ) × (writes ≡ ring_writes b.capacity (length log) rest)
    × (new_head ≡ (length log + length rest) % 2 ^ 64)
    × (length log + length rest ≤ b.head + b.safety_margin)

-- `j` samples are loaded and `m` are to load. They are the window of the log unless the writer has
-- come so far that the second load of `head` will tell.
abbrev pub ReaderOk : Inner → List ℕ → ReaderPc → Type 0
ReaderOk b log ReaderPc.idle = Unit
ReaderOk b log (loading tail n reads got) =
    (j : ℕ) × (m : ℕ) × (j + m ≡ n)
    × (tail + n ≤ b.head)
    × (reads ≡ ring_reads b.capacity (tail + j) m)
    × (b.head ≤ tail + b.capacity_minus_margin → got ≡ window log tail j)
ReaderOk b log (done tail n status out) =
    status ≡ ready → (tail + n ≤ length log) × (out ≡ window log tail n)

pub record Inv (s : System) : Type 0 where
  pub shape : HasShape s.ring
  pub content : Content s.ring.capacity s.ring.cells s.log
  pub stored : s.ring.head ≤ length s.log
  pub ahead : length s.log ≤ s.ring.head + s.ring.safety_margin
  pub writer_ok : WriterOk s.ring s.log s.writer
  pub reader_ok : ReaderOk s.ring s.log s.reader

module _ (b : Inner) (log : List ℕ) (x : ℕ) (cells : List ℕ) where
  -- A cell store keeps what the reader has, and what it may still take for granted.
  ReaderOk-store :
      (pc : ReaderPc)
      → b.head ≤ length log
      → ReaderOk b log pc
      → ReaderOk (record b { cells = cells }) (log ++ x ∷ []) pc
  ReaderOk-store ReaderPc.idle h ok = tt
  ReaderOk-store (loading tail n reads got) h (j, m, total, inside, same, got_ok) = (
    j,
    m,
    total,
    inside,
    same,
    λ near. got_ok near ∙ sym (window-append log (x ∷ []) tail j (omega arith)),
  )
  ReaderOk-store (done tail n status out) h ok = λ e.
      let (inside, same) = ok e in
      (
        omega (arith, length-append log (x ∷ [])),
        same ∙ sym (window-append log (x ∷ []) tail n inside),
      )

-- So does a new value of `head`.
ReaderOk-publish :
    (b : Inner) (log : List ℕ) (head : ℕ) (pc : ReaderPc)
    → b.head ≤ head
    → ReaderOk b log pc
    → ReaderOk (record b { head = head }) log pc
ReaderOk-publish b log head ReaderPc.idle h ok = tt
ReaderOk-publish b log head (loading tail n reads got) h (j, m, total, inside, same, got_ok) =
    (j, m, total, omega arith, same, λ near. got_ok (omega arith))
ReaderOk-publish b log head (done tail n status out) h ok = ok

abbrev pub after_store : System → ℕ → ℕ → List (ℕ × ℕ) → ℕ → System
after_store s i x writes new_head = record s {
  ring = record s.ring { cells = set s.ring.cells i x };
  writer = storing writes new_head;
  log = s.log ++ x ∷ [];
}

module _ {s : System} (inv : Inv s) where
  pub begin_push-WriterOk :
      (x : ℕ) (xs : List ℕ)
      → s.writer ≡ WriterPc.idle
      → length (x ∷ xs) ≤ s.ring.safety_margin
      → WriterOk s.ring s.log
          (storing (push_writes s.ring (x ∷ xs)) ((s.ring.head + length (x ∷ xs)) % 2 ^ 64))
  begin_push-WriterOk x xs e short =
      let at_head : length s.log ≡ s.ring.head = subst (WriterOk s.ring s.log) e inv.writer_ok in
      (
        x ∷ xs,
        push_writes-ring s.ring inv.shape (x ∷ xs) (omega (arith, inv.shape))
            ∙ ap (λ p. ring_writes s.ring.capacity p (x ∷ xs)) (sym at_head),
        ap (λ (p : ℕ). (p + length (x ∷ xs)) % 2 ^ 64) (sym at_head),
        omega (arith, at_head),
      )

  -- A store to the cell of the next position.
  store_next-Inv :
      (x : ℕ) (rest : List ℕ) (new_head : ℕ)
      → new_head ≡ (length s.log + suc (length rest)) % 2 ^ 64
      → length s.log + suc (length rest) ≤ s.ring.head + s.ring.safety_margin
      → Inv (
          after_store s
            (length s.log % s.ring.capacity)
            x
            (ring_writes s.ring.capacity (suc (length s.log)) rest)
            new_head)
  store_next-Inv x rest new_head count fits =
      let grown : length (s.log ++ x ∷ []) ≡ suc (length s.log) =
        omega (arith, length-append s.log (x ∷ [])) in
      let total : suc (length s.log) + length rest ≡ length s.log + suc (length rest) =
        omega arith in
      let content = Content-store (omega (arith, inv.shape)) x inv.content in
      record {
        shape = record {
          exponent = inv.shape.exponent;
          sized = inv.shape.sized;
          at_least_four = inv.shape.at_least_four;
          full = content.full;
          margin = inv.shape.margin;
          window = inv.shape.window;
        };
        content = content;
        stored = omega (arith, inv.stored, grown);
        ahead = omega (arith, grown);
        writer_ok = (rest, rw grown refl, rw (grown, total) count, rw (grown, total) fits);
        reader_ok =
            ReaderOk-store s.ring s.log x (set s.ring.cells (length s.log % s.ring.capacity) x)
              s.reader inv.stored inv.reader_ok;
      }

  pub store_due-Inv :
      (i x : ℕ) (writes : List (ℕ × ℕ)) (new_head : ℕ)
      → WriterOk s.ring s.log (storing ((i, x) ∷ writes) new_head)
      → Inv (after_store s i x writes new_head)
  store_due-Inv i x writes new_head ([], same, count, fits) = cc
  store_due-Inv i x writes new_head (y ∷ rest, same, count, fits) =
      let at : i ≡ length s.log % s.ring.capacity = cc in
      let value : x ≡ y = cc in
      let later : writes ≡ ring_writes s.ring.capacity (suc (length s.log)) rest = cc in
      rw (at, value, later) (store_next-Inv y rest new_head count fits)

  pub publish_due-Inv :
      (new_head : ℕ)
      → WriterOk s.ring s.log (storing [] new_head)
      → length s.log < 2 ^ 64
      → Inv (record s { ring = record s.ring { head = new_head }; writer = WriterPc.idle })
  publish_due-Inv new_head (y ∷ rest, same, count, fits) small = cc
  publish_due-Inv new_head ([], same, count, fits) small =
      let all : new_head ≡ length s.log = omega arith in
      record {
        shape = record {
          exponent = inv.shape.exponent;
          sized = inv.shape.sized;
          at_least_four = inv.shape.at_least_four;
          full = inv.shape.full;
          margin = inv.shape.margin;
          window = inv.shape.window;
        };
        content = inv.content;
        stored = omega arith;
        ahead = omega arith;
        writer_ok = sym all;
        reader_ok =
            ReaderOk-publish s.ring s.log new_head s.reader (omega (arith, inv.stored))
              inv.reader_ok;
      }

  pub load_due-ReaderOk :
      (tail n i : ℕ) (reads got : List ℕ)
      → ReaderOk s.ring s.log (loading tail n (i ∷ reads) got)
      → ReaderOk s.ring s.log (loading tail n reads (got ++ get_or s.ring.cells i 0 ∷ []))
  load_due-ReaderOk tail n i reads got (j, zero, total, inside, same, got_ok) = cc
  load_due-ReaderOk tail n i reads got (j, suc m, total, inside, same, got_ok) =
      let at : i ≡ (tail + j) % s.ring.capacity = cc in
      let later : reads ≡ ring_reads s.ring.capacity (suc (tail + j)) m = cc in
      let step : suc (tail + j) ≡ tail + suc j = omega arith in
      (
        suc j,
        m,
        omega arith,
        inside,
        later ∙ ap (λ p. ring_reads s.ring.capacity p m) step,
        λ near.
            rw (got_ok near, at, window-suc s.log tail j 0 (omega (arith, inv.stored)))
              (ap (λ x. window s.log tail j ++ x ∷ [])
                (inv.content.holds (tail + j) (omega (arith, inv.stored))
                  (omega (arith, inv.shape, inv.ahead)))),
      )

  pub recheck_due-ReaderOk :
      (tail n : ℕ) (got : List ℕ)
      → ReaderOk s.ring s.log (loading tail n [] got)
      → ReaderOk s.ring s.log (done tail n (recheck s.ring tail s.ring.head) got)
  unfolding recheck
  recheck_due-ReaderOk tail n got (j, suc m, total, inside, same, got_ok) e = cc
  recheck_due-ReaderOk tail n got (j, zero, total, inside, same, got_ok) e =
      let all : j ≡ n = omega arith in
      (omega (arith, inv.stored), got_ok (ground arith) ∙ ap (window s.log tail) all)
