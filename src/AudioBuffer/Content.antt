-- ===== src/AudioBuffer/Content.antt =====
-- audio_buffer.rs: the cells hold the last `capacity` samples of the log of all samples stored.
use native.Mathlib.Nat.{mod-lt}
use mathlib.Core.List.{append-nil, append_assoc}
use al.Prelude.{
  ℕ, zero, suc, ◌+◌, ◌%◌, ◌≤◌, ◌<◌, ◌≡◌, refl, sym, ap₂, ◌∙◌, List, [], ◌∷◌, ◌++◌, arith, length,
  length-append, length-set, get_or, get_or-set_self, get_or-set_ne, set, dec_lt,
}
use al.Prelude.Windows.{window, get_or-append_left, get_or-snoc, window-cons}
use al.AudioBuffer.Index.{cells_differ, ring_writes, ring_reads}
use al.AudioBuffer.{store_all, load_all}

-- Each of the last `size` positions of the log has its sample in its cell.
pub record Content (size : ℕ) (cells log : List ℕ) : Type 0 where
  pub full : length cells ≡ size
  pub holds :
      (p : ℕ) → p < length log → length log ≤ p + size → get_or cells (p % size) 0 ≡ get_or log p 0

module _ {size : ℕ} (pos : 0 < size) where
  -- Storing a sample in the cell of the next position extends the log by it.
  pub Content-store :
      {cells log : List ℕ} (x : ℕ)
      → Content size cells log
      → Content size (set cells (length log % size) x) (log ++ x ∷ [])
  Content-store {cells} {log} x c = record {
    full = length-set cells (length log % size) x ∙ c.full;
    holds = λ p lt near. elim (dec_lt p (length log)) [
      | yes old ↦
          get_or-set_ne cells (length log % size) (p % size) x 0
            (cells_differ size p (length log) pos old (omega (arith, length-append log (x ∷ []))))
          ∙ (c.holds p old (omega (arith, length-append log (x ∷ [])))
              ∙ sym (get_or-append_left log (x ∷ []) p 0 old))
      | no new ↦
          let e : p ≡ length log = omega (arith, length-append log (x ∷ [])) in
          rw e (
            get_or-set_self cells (length log % size) x 0 (rw c.full (mod-lt (length log) pos))
            ∙ sym (get_or-snoc log x 0))
    ];
  }

  pub Content-store_all :
      (log xs cells : List ℕ)
      → Content size cells log
      → Content size (store_all cells (ring_writes size (length log) xs)) (log ++ xs)
  unfolding store_all
  Content-store_all log [] cells c = rw append-nil c
  Content-store_all log (x ∷ xs) cells c =
      let e : length (log ++ x ∷ []) ≡ suc (length log) =
        omega (arith, length-append log (x ∷ [])) in
      rw (e, append_assoc) at
        (Content-store_all (log ++ x ∷ []) xs (set cells (length log % size) x) (Content-store x c))

  -- A load at a position that is still held gives its sample of the log.
  pub load_all-window :
      {cells log : List ℕ} (t n : ℕ)
      → Content size cells log
      → t + n ≤ length log
      → length log ≤ t + size
      → load_all cells (ring_reads size t n) ≡ window log t n
  unfolding load_all
  load_all-window t zero c h near = refl
  load_all-window {log} t (suc n) c h near = rw (window-cons log t n 0 (omega arith)) (
      ap₂ ◌∷◌ (c.holds t (omega arith) near)
        (load_all-window (suc t) n c (omega arith) (omega arith)))
