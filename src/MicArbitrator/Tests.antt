-- ===== src/MicArbitrator/Tests.antt =====
-- modules/audio_io/mic_arbitrator.rs: concrete runs, with natural numbers for the levels.
use al.Prelude.{
  ℕ, ◌*◌, ◌≡◌, refl, arith, inr, Bool, Option, some, List, [], ◌∷◌, ltb, if◌then◌else◌, returns,
  get_elem?,
}
use al.MicArbitrator.{
  MicCandidate, first_available, ids, resolve_desired_idx, Ordering, less, equal, greater,
  SlotState,
}
use al.MicArbitrator.Switches.{switch_times, Spaced, switch_times-Spaced}
use al.MicArbitrator.Sticky.{resolve_desired_idx-listed}

abbrev compare : ℕ → ℕ → Option Ordering
compare a b = some (if ltb a b then less else if ltb b a then greater else equal)

abbrev louder : ℕ → ℕ → Bool
louder a b = ltb b a

abbrev quiet : List (SlotState ℕ)
quiet = record { rms = 3 } ∷ record { rms = 1 } ∷ []

abbrev loud : List (SlotState ℕ)
loud = record { rms = 3 } ∷ record { rms = 9 } ∷ []

switch_times-Spaced_example :
    (times : List ℕ) × (switch_times ℕ compare louder
        (λ a b. a * b)
        (0 ∷ 2 ∷ [])
        2
        50
        (record { active_slot = some 0; last_switch_at = some 100 })
        ((120, loud) ∷ (160, loud) ∷ (170, quiet) ∷ [])
      ≡ returns times)
    × Spaced 50 100 times
switch_times-Spaced_example =
    switch_times-Spaced ℕ compare louder (λ a b. a * b) (0 ∷ 2 ∷ []) 2 2 50 0 100
      ((120, loud) ∷ (160, loud) ∷ (170, quiet) ∷ []) (omega arith) (refl, (refl, (refl, tt)))

abbrev candidates : List MicCandidate
candidates = record { id = 4 } ∷ record { id = 7 } ∷ []

seven-listed : get_elem? (ids candidates) 1 ≡ some 7
unfolding ids
seven-listed = refl

resolve_desired_idx-listed_example :
    (i : ℕ) × (resolve_desired_idx first_available candidates (some 7) ≡ some i)
    × (get_elem? (ids candidates) i ≡ some 7)
resolve_desired_idx-listed_example =
    resolve_desired_idx-listed first_available candidates (some 7) 7 1 seven-listed
      (inr (refl, refl))
