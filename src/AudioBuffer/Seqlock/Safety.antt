-- ===== src/AudioBuffer/Seqlock/Safety.antt =====
-- audio_buffer.rs: the invariant of the interleavings, and what it gives a reader.
use al.Prelude.{
  ℕ, ◌+◌, ◌^◌, ◌≤◌, ◌<◌, ◌≡◌, refl, List, [], ◌∷◌, arith, length, length-append, subst, none, some,
}
use al.Prelude.Windows.{window}
use al.AudioBuffer.{ReadStatus, ready, Inner, precheck}
use al.AudioBuffer.Shape.{peek_reads-ring}
use al.AudioBuffer.Sequential.{Represents}
use al.AudioBuffer.Concurrent.{
  WriterPc, ReaderPc, done, System, Step, begin_push, store_cell, publish_head, begin_peek,
  refuse_peek, load_cell, recheck_head, Reach, here, next,
}
use al.AudioBuffer.Seqlock.{
  WriterOk, ReaderOk, Inv, begin_push-WriterOk, store_due-Inv, publish_due-Inv, load_due-ReaderOk,
  recheck_due-ReaderOk,
}

-- The bounds check lets a peek go on only with enough samples; it never says `ready` itself.
precheck_passed : (b : Inner) (tail n h : ℕ) → 0 < n → precheck b tail n h ≡ none → tail + n ≤ h
unfolding precheck
precheck_passed b tail n h pos e = ground arith

precheck_refused :
    (b : Inner) (tail n h : ℕ) {status : ReadStatus}
    → precheck b tail n h ≡ some status
    → status ≡ ready
    → ⊥
unfolding precheck
precheck_refused b tail n h e is_ready = ground arith

-- A step of the reader changes nothing else.
with_reader :
    {s : System} {pc : ReaderPc} → Inv s → ReaderOk s.ring s.log pc → Inv (record s { reader = pc })
with_reader inv ok = record {
  shape = inv.shape;
  content = inv.content;
  stored = inv.stored;
  ahead = inv.ahead;
  writer_ok = inv.writer_ok;
  reader_ok = ok;
}

Step-Inv : {s t : System} → Step s t → length t.log < 2 ^ 64 → Inv s → Inv t
Step-Inv (begin_push x xs e short) small inv = record {
  shape = inv.shape;
  content = inv.content;
  stored = inv.stored;
  ahead = inv.ahead;
  writer_ok = begin_push-WriterOk inv x xs e short;
  reader_ok = inv.reader_ok;
}
Step-Inv {s} (store_cell i x writes new_head e) small inv =
    store_due-Inv inv i x writes new_head (subst (WriterOk s.ring s.log) e inv.writer_ok)
Step-Inv {s} (publish_head new_head e) small inv =
    publish_due-Inv inv new_head (subst (WriterOk s.ring s.log) e inv.writer_ok) small
Step-Inv {s} (begin_peek tail n pos fits e) small inv =
    let start : tail + 0 ≡ tail = omega arith in
    with_reader inv (
      0,
      n,
      omega arith,
      precheck_passed s.ring tail n s.ring.head pos e,
      rw start (peek_reads-ring s.ring inv.shape tail n (omega (arith, inv.shape))),
      λ near. refl,
    )
Step-Inv {s} (refuse_peek tail n status pos fits e) small inv =
    with_reader inv (λ is_ready. absurd (precheck_refused s.ring tail n s.ring.head e is_ready))
Step-Inv {s} (load_cell tail n i reads got e) small inv =
    with_reader inv
      (load_due-ReaderOk inv tail n i reads got (subst (ReaderOk s.ring s.log) e inv.reader_ok))
Step-Inv {s} (recheck_head tail n got e) small inv =
    with_reader inv
      (recheck_due-ReaderOk inv tail n got (subst (ReaderOk s.ring s.log) e inv.reader_ok))

-- The log only grows.
length-Step : {s t : System} → Step s t → length s.log ≤ length t.log
length-Step {s} (store_cell i x writes new_head e) = omega (arith, length-append s.log (x ∷ []))
length-Step _ = omega arith

-- No call is running.
abbrev pub quiet : Inner → List ℕ → System
quiet b log = record { ring = b; writer = WriterPc.idle; reader = ReaderPc.idle; log = log }

quiet-Inv : (b : Inner) (log : List ℕ) → Represents b log → Inv (quiet b log)
quiet-Inv b log r = record {
  shape = r.shape;
  content = r.content;
  stored = omega (arith, r.head_count);
  ahead = omega (arith, r.head_count);
  writer_ok = omega (arith, r.head_count);
  reader_ok = tt;
}

Reach-Inv : {s t : System} → Inv s → Reach s t → length t.log < 2 ^ 64 → Inv t
Reach-Inv inv here small = inv
Reach-Inv inv (next r st) small =
    Step-Inv st small (Reach-Inv inv r (omega (arith, length-Step st)))

-- However the loads of a peek and the stores of any pushes interleave, from a quiet ring on: a
-- peek that ends `Ready` has copied exactly the window of the log that starts at its tail, all of
-- it pushed; no mixture of old and new samples passes. The log stays below 2^64 samples.
pub ready_window :
    (b : Inner) (log : List ℕ) {s : System} (tail n : ℕ) (out : List ℕ)
    → Represents b log
    → Reach (quiet b log) s
    → length s.log < 2 ^ 64
    → s.reader ≡ done tail n ready out
    → (tail + n ≤ length s.log) × (out ≡ window s.log tail n)
ready_window b log {s} tail n out r run small e =
    subst (ReaderOk s.ring s.log) e (Reach-Inv (quiet-Inv b log r) run small).reader_ok refl
