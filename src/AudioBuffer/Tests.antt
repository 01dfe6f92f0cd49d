-- ===== src/AudioBuffer/Tests.antt =====
-- audio_buffer.rs on a ring of eight samples that wraps.
use native.Mathlib.Omega.{arith}
use al.Prelude.{
  ℕ, ◌+◌, ◌≤◌, ◌<◌, ◌≡◌, ◌⊎◌, refl, false, List, [], ◌∷◌, length, returns, returns-injective, sym,
  subst, ◌∙◌, panics,
}
use al.Prelude.Windows.{window}
use al.AudioBuffer.{
  ready, wait, lagged, Inner, new, push, peek_into, seek_latest, store_all, push_writes, number,
  span, peek_reads, load_all, precheck, recheck, is_power_of_two,
}
use al.AudioBuffer.Sequential.{
  Represents, push-Represents, peek_cases, new-Represents, seek_latest-peek,
}
use al.AudioBuffer.Concurrent.{
  storing, done, System, begin_push, store_cell, begin_peek, load_cell, recheck_head, Reach, here,
  next,
}
use al.AudioBuffer.Seqlock.Safety.{quiet, ready_window}

abbrev fresh : Inner
fresh = record {
  cells = 0 ∷ 0 ∷ 0 ∷ 0 ∷ 0 ∷ 0 ∷ 0 ∷ 0 ∷ [];
  capacity = 8;
  capacity_minus_margin = 6;
  safety_margin = 2;
  writer_taken = false;
  head = 0;
}

new-fresh : new 8 ≡ returns fresh
unfolding new is_power_of_two
new-fresh = refl

new_refuses : (new 0 ≡ panics) × (new 2 ≡ panics) × (new 12 ≡ panics)
unfolding new is_power_of_two
new_refuses = (refl, refl, refl)

-- Nine samples are pushed: the ninth is in the first cell.
abbrev nine : List ℕ
nine = 1 ∷ 2 ∷ 3 ∷ 4 ∷ 5 ∷ 6 ∷ 7 ∷ 8 ∷ 9 ∷ []

abbrev wrapped : Inner
wrapped = record fresh { cells = 9 ∷ 2 ∷ 3 ∷ 4 ∷ 5 ∷ 6 ∷ 7 ∷ 8 ∷ []; head = 9 }

push_wraps :
    push (record fresh { cells = 1 ∷ 2 ∷ 3 ∷ 4 ∷ 5 ∷ 6 ∷ 7 ∷ 0 ∷ []; head = 7 }) (8 ∷ 9 ∷ [])
    ≡ returns wrapped
unfolding push push_writes number store_all
push_wraps = refl

peek_wraps :
    peek_into wrapped (record { tail = 6 }) (0 ∷ 0 ∷ 0 ∷ []) ≡ returns (ready, 7 ∷ 8 ∷ 9 ∷ [])
unfolding peek_into precheck recheck peek_reads span load_all
peek_wraps = refl

fresh-Represents : Represents fresh []
fresh-Represents = new-Represents 8 new-fresh

push-Represents_example :
    (b : Inner) × (push fresh (1 ∷ 2 ∷ []) ≡ returns b) × Represents b (1 ∷ 2 ∷ [])
push-Represents_example =
    push-Represents fresh [] (1 ∷ 2 ∷ []) fresh-Represents (omega arith) (omega arith)

-- The ring after a push of two samples.
abbrev two : Inner
two = record fresh { cells = 1 ∷ 2 ∷ 0 ∷ 0 ∷ 0 ∷ 0 ∷ 0 ∷ 0 ∷ []; head = 2 }

push-two : push fresh (1 ∷ 2 ∷ []) ≡ returns two
unfolding push push_writes number store_all
push-two = refl

two-Represents : Represents two (1 ∷ 2 ∷ [])
two-Represents =
    let (b, e, r) =
      push-Represents fresh [] (1 ∷ 2 ∷ []) fresh-Represents (omega arith) (omega arith) in
    subst (λ c. Represents c (1 ∷ 2 ∷ [])) (returns-injective (sym e ∙ push-two)) r

peek_cases_example :
    ((2 < 0 + 1) × (peek_into two (record { tail = 0 }) (0 ∷ []) ≡ returns (wait, 0 ∷ [])))
    ⊎ ((0 + 6 < 2) × (peek_into two (record { tail = 0 }) (0 ∷ []) ≡ returns (lagged 2, 0 ∷ [])))
    ⊎ ((0 + 1 ≤ 2)
        × (2 ≤ 0 + 6)
        × (peek_into two (record { tail = 0 }) (0 ∷ []) ≡ returns (ready, 1 ∷ [])))
peek_cases_example =
    peek_cases two (1 ∷ 2 ∷ []) two-Represents (record { tail = 0 }) (0 ∷ []) (omega arith)
      (omega arith)

seek_latest-peek_example : peek_into two (seek_latest two 1) (0 ∷ []) ≡ returns (ready, 2 ∷ [])
seek_latest-peek_example =
    seek_latest-peek two (1 ∷ 2 ∷ []) (0 ∷ []) two-Represents (omega arith) (omega arith)
      (omega arith)

-- A peek of two samples whose loads alternate with the store of a third sample.
abbrev overlapped : System
overlapped = record {
  ring = record fresh { cells = 1 ∷ 2 ∷ 3 ∷ 0 ∷ 0 ∷ 0 ∷ 0 ∷ 0 ∷ []; head = 2 };
  writer = storing [] 3;
  reader = done 0 2 ready (1 ∷ 2 ∷ []);
  log = 1 ∷ 2 ∷ 3 ∷ [];
}

overlap : Reach (quiet two (1 ∷ 2 ∷ [])) overlapped
unfolding push_writes number peek_reads span precheck recheck
overlap =
    next
      (next
        (next
          (next
            (next (next here (begin_peek 0 2 (omega arith) (omega arith) refl))
              (load_cell 0 2 0 (1 ∷ []) [] refl))
            (begin_push 3 [] refl (omega arith)))
          (load_cell 0 2 1 [] (1 ∷ []) refl))
        (store_cell 2 3 [] 3 refl))
      (recheck_head 0 2 (1 ∷ 2 ∷ []) refl)

ready_window_example : (0 + 2 ≤ length overlapped.log) × (1 ∷ 2 ∷ [] ≡ window overlapped.log 0 2)
ready_window_example =
    ready_window two (1 ∷ 2 ∷ []) 0 2 (1 ∷ 2 ∷ []) two-Represents overlap (omega arith) refl
