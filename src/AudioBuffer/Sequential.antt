-- ===== src/AudioBuffer/Sequential.antt =====
-- audio_buffer.rs with no overlap of calls: the ring implements an append-only log of samples, of
-- which a reader sees the window that it asks for as long as the writer is not too far ahead.
use al.Prelude.{
  ℕ, ◌+◌, ◌-◌, ◌^◌, ◌≤◌, ◌<◌, ◌≡◌, ◌≢◌, refl, sym, ap, ◌∙◌, ◌⊎◌, List, [], ◌∷◌, ◌++◌, arith, length,
  length-append, returns, panics, subst, inl, inr, dec_lt,
}
use al.Prelude.Windows.{window, window-append_next}
use al.AudioBuffer.{
  ready, wait, lagged, Inner, Reader, new, pushed, push, store_all, peek_reads, load_all, precheck,
  recheck, peek_into, advance, seek_latest,
}
use al.AudioBuffer.Shape.{HasShape, new-HasShape, push_writes-ring, peek_reads-ring}
use al.AudioBuffer.Index.{ring_writes}
use mathlib.Core.List.{append-nil}
use al.AudioBuffer.Content.{Content, Content-store_all, load_all-window}

-- The ring stands for the log of all samples pushed.
pub record Represents (b : Inner) (log : List ℕ) : Type 0 where
  pub shape : HasShape b
  pub head_count : b.head ≡ length log
  pub content : Content b.capacity b.cells log

module _ (b : Inner) (log samples : List ℕ) (r : Represents b log) where
  pushed-Content :
      length samples ≤ b.capacity → Content b.capacity (pushed b samples).cells (log ++ samples)
  pushed-Content h =
      subst (λ w. Content b.capacity (store_all b.cells w) (log ++ samples))
        (sym (
          push_writes-ring b r.shape samples h
          ∙ ap (λ p. ring_writes b.capacity p samples) r.head_count))
        (Content-store_all (omega (arith, r.shape)) log samples b.cells r.content)

  pushed-Represents :
      length log + length samples < 2 ^ 64
      → length samples ≤ b.safety_margin
      → Represents (pushed b samples) (log ++ samples)
  pushed-Represents fits short =
      let c = pushed-Content (omega (arith, r.shape)) in
      record {
        shape = record {
          exponent = r.shape.exponent;
          sized = r.shape.sized;
          at_least_four = r.shape.at_least_four;
          full = c.full;
          margin = r.shape.margin;
          window = r.shape.window;
        };
        head_count = omega (arith, r.head_count, length-append log samples);
        content = c;
      }

-- A push of at most a quarter of the capacity returns, and appends its samples to the log that the
-- ring stands for, wherever they wrap round; the log stays below 2^64 samples.
pub push-Represents :
    (b : Inner) (log samples : List ℕ)
    → Represents b log
    → length log + length samples < 2 ^ 64
    → length samples ≤ b.safety_margin
    → (b' : Inner) × (push b samples ≡ returns b') × Represents b' (log ++ samples)
unfolding push
push-Represents b log [] r fits short = (b, refl, rw append-nil r)
push-Represents b log (x ∷ xs) r fits short =
    (pushed b (x ∷ xs), ground arith, pushed-Represents b log (x ∷ xs) r fits short)

-- A longer push panics.
pub push_too_long :
    (b : Inner) (samples : List ℕ)
    → samples ≢ []
    → b.safety_margin < length samples
    → push b samples ≡ panics
unfolding push
push_too_long b [] h l = absurd (h refl)
push_too_long b (x ∷ xs) h l = ground arith

module _ (b : Inner) (log : List ℕ) (r : Represents b log) (t : Reader) (out : List ℕ) where
  loaded :
      length out ≤ b.capacity
      → t.tail + length out ≤ length log
      → length log ≤ t.tail + b.capacity
      → load_all b.cells (peek_reads b t.tail (length out)) ≡ window log t.tail (length out)
  loaded small inside near =
      rw (peek_reads-ring b r.shape t.tail (length out) small)
        (load_all-window (omega (arith, r.shape)) t.tail (length out) r.content inside near)

  -- What a peek returns, by the distance of the reader from the end of the log: it waits for
  -- samples not yet pushed and leaves `out` alone, lags more than three quarters of the capacity
  -- behind, or fills `out` with exactly its window of the log.
  pub peek_cases :
      0 < length out
      → length out ≤ b.capacity_minus_margin
      → ((length log < t.tail + length out) × (peek_into b t out ≡ returns (wait, out)))
        ⊎ ((t.tail + b.capacity_minus_margin < length log)
            × (peek_into b t out ≡ returns (lagged (length log - t.tail), out)))
        ⊎ ((t.tail + length out ≤ length log)
            × (length log ≤ t.tail + b.capacity_minus_margin)
            × (peek_into b t out ≡ returns (ready, window log t.tail (length out))))
  unfolding peek_into precheck recheck
  peek_cases pos fits = elim (dec_lt (length log) (t.tail + length out)) [
    | yes short ↦ inl (short, ground (arith, r.head_count))
    | no enough ↦ elim (dec_lt (t.tail + b.capacity_minus_margin) (length log)) [
      | yes far ↦ inr (inl (far, ground (arith, r.head_count)))
      | no near ↦ inr (
          inr (
            omega arith,
            omega arith,
            ground (
              arith,
              r.head_count,
              r.shape,
              loaded (omega (arith, r.shape)) (omega arith) (omega (arith, r.shape)),
            ),
          ))
    ]
  ]

-- A fresh ring stands for the empty log.
pub new-Represents : (capacity : ℕ) {b : Inner} → new capacity ≡ returns b → Represents b []
new-Represents capacity h =
    let (shape, sized, empty, free) = new-HasShape capacity h in
    record {
      shape = shape;
      head_count = empty;
      content = record { full = shape.full; holds = λ p lt near. absurd (omega arith) };
    }

-- After `seek_latest` for as many samples as it wants, a reader gets the freshest ones at once, if
-- so many were pushed: a resync ends every lag.
pub seek_latest-peek :
    (b : Inner) (log out : List ℕ)
    → Represents b log
    → 0 < length out
    → length out ≤ b.capacity_minus_margin
    → length out ≤ length log
    → peek_into b (seek_latest b (length out)) out
      ≡ returns (ready, window log (length log - length out) (length out))
unfolding seek_latest
seek_latest-peek b log out r pos fits enough =
    let e : b.head - length out ≡ length log - length out = omega (arith, r.head_count) in
    rw e (elim (peek_cases b log r (record { tail = length log - length out }) out pos fits) [
      | inl (short, p) ↦ absurd (omega arith)
      | inr (inl (far, p)) ↦ absurd (omega arith)
      | inr (inr (inside, near, p)) ↦ p
    ])

-- What was peeked can be consumed: `advance` by no more than the samples there are returns, and
-- the next window starts where the last one ended.
pub advance-continues :
    (b : Inner) (log : List ℕ) (t : Reader) (n m : ℕ)
    → Represents b log
    → length log < 2 ^ 64
    → t.tail + (n + m) ≤ length log
    → (t' : Reader) × (advance b t n ≡ returns t')
      × (window log t.tail n ++ window log t'.tail m ≡ window log t.tail (n + m))
unfolding advance
advance-continues b log t n m r small h =
    (record { tail = t.tail + n }, ground (arith, r.head_count), window-append_next log t.tail n m)
