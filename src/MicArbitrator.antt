-- ===== src/MicArbitrator.antt =====
-- modules/audio_io/mic_arbitrator.rs: the choice of a microphone and of the slot that is heard.
pub mod Switches
pub mod Sticky
mod Tests
use al.Prelude.{
  ℕ, ◌-◌, zero, suc, Bool, true, false, ◌&&◌, Option, none, some, List, [], ◌∷◌, leb, ◌==◌,
  if◌then◌else◌, get_elem?, Outcome, returns, panics,
}

abbrev pub MicId : Type 0
MicId = ℕ

pub data MicSelection : Type 0 where
  first_available : MicSelection
  fixed : MicId → MicSelection

-- A candidate is its id here.
pub record MicCandidate : Type 0 where
  pub id : MicId

pub data ChannelSelection : Type 0 where
  auto : ChannelSelection
  fixed_channel : ℕ → ChannelSelection

-- `std::cmp::Ordering`
pub data Ordering : Type 0 where
  less equal greater : Ordering

-- `Iterator::position` of an equal number.
unfoldable pub position : ℕ → List ℕ → Option ℕ
position x [] = none
position x (y ∷ ys) =
    let rest = position x ys in
    if y == x then some 0 else elim rest [ none ↦ none | some i ↦ some (suc i) ]

unfoldable pub ids : List MicCandidate → List MicId
ids [] = []
ids (c ∷ cs) = c.id ∷ ids cs

unfoldable pub first_of : List MicCandidate → Option ℕ
first_of [] = none
first_of (c ∷ cs) = some 0

unfoldable pub or_first : Option ℕ → List MicCandidate → Option ℕ
or_first none candidates = first_of candidates
or_first (some idx) candidates = some idx

unfoldable pub resolve_desired_idx : MicSelection → List MicCandidate → Option MicId → Option ℕ
resolve_desired_idx (fixed id) candidates current_active = position id (ids candidates)
resolve_desired_idx first_available candidates none = first_of candidates
resolve_desired_idx first_available candidates (some active) =
    or_first (position active (ids candidates)) candidates

pub record SlotState (F : Type 0) : Type 0 where
  pub rms : F

-- Whether `max_by` keeps the first of two: a pair that does not compare counts as equal.
unfoldable pub keeps : Option Ordering → Bool
keeps (some greater) = true
keeps (some equal) = false
keeps (some less) = false
keeps none = false

unfoldable pub dwell_satisfied : Option ℕ → ℕ → ℕ → Bool
dwell_satisfied none now dwell = true
dwell_satisfied (some t) now dwell = leb dwell (now - t)

unfoldable pub fixed_slot : ChannelSelection → List ℕ → Option ℕ
fixed_slot auto whitelist = none
fixed_slot (fixed_channel channel) whitelist = position channel whitelist

-- `state.active_slot` and `state.last_switch_at`
pub record SlotChoice : Type 0 where
  pub active_slot : Option ℕ
  pub last_switch_at : Option ℕ

unfoldable pub same_slot : Option ℕ → Option ℕ → Bool
same_slot none none = true
same_slot none (some j) = false
same_slot (some i) none = false
same_slot (some i) (some j) = i == j

unfoldable pub choose : SlotChoice → ℕ → Outcome (Option ℕ) → Outcome SlotChoice
choose st now panics = panics
choose st now (returns new_slot) =
    if same_slot new_slot st.active_slot
    then returns (record st { active_slot = new_slot })
    else returns (record { active_slot = new_slot; last_switch_at = some now })

-- The floats of the source: their type, `partial_cmp`, `>` and `*`.
module _ (F : Type 0) (partial_cmp : F → F → Option Ordering) (gt : F → F → Bool)
    (mul : F → F → F) where
  -- `max_by` over the slots from `i` on, with the best one before them.
  unfoldable pub loudest : ℕ → ℕ → F → List (SlotState F) → ℕ × F
  loudest i best rms [] = (best, rms)
  loudest i best rms (s ∷ ss) = elim (keeps (partial_cmp rms s.rms)) [
    | true ↦ loudest (suc i) best rms ss
    | false ↦ loudest (suc i) i s.rms ss
  ]

  -- The slot that is heard stays, unless another one is louder by the hysteresis for long enough.
  unfoldable pub held : List (SlotState F) → ℕ × F → ℕ → Option ℕ → ℕ → F → ℕ → Outcome (Option ℕ)
  held per_slot best active_idx last_switched_at now hysteresis_linear dwell =
      if active_idx == best.0
      then returns (some active_idx)
      else elim (get_elem? per_slot active_idx) [
        | none ↦ panics
        | some s ↦
            if gt best.1 (mul s.rms hysteresis_linear) && dwell_satisfied last_switched_at now dwell
            then returns (some best.0)
            else returns (some active_idx)
      ]

  unfoldable pub pick_loudest :
      List (SlotState F) → Option ℕ → Option ℕ → ℕ → F → ℕ → Outcome (Option ℕ)
  pick_loudest [] current_slot last_switched_at now hysteresis_linear dwell = returns none
  pick_loudest (s ∷ ss) none last_switched_at now hysteresis_linear dwell =
      returns (some (loudest 1 0 s.rms ss).0)
  pick_loudest (s ∷ ss) (some active_idx) last_switched_at now hysteresis_linear dwell =
      held (s ∷ ss) (loudest 1 0 s.rms ss) active_idx last_switched_at now hysteresis_linear dwell

  unfoldable pub pick_slot :
      ChannelSelection
      → List (SlotState F)
      → List ℕ
      → Option ℕ
      → Option ℕ
      → ℕ
      → F
      → ℕ
      → Outcome (Option ℕ)
  pick_slot policy [] whitelist current_slot last_switched_at now hysteresis_linear dwell =
      returns none
  pick_slot policy (s ∷ ss) whitelist current_slot last_switched_at now hysteresis_linear dwell =
      elim (fixed_slot policy whitelist) [
        | some idx ↦ returns (some idx)
        | none ↦ pick_loudest (s ∷ ss) current_slot last_switched_at now hysteresis_linear dwell
      ]

  -- What a period does to the choice.
  unfoldable pub choose_slot :
      ChannelSelection → List ℕ → F → ℕ → SlotChoice → ℕ → List (SlotState F) → Outcome SlotChoice
  choose_slot policy whitelist hysteresis_linear dwell st now per_slot = choose st now (
      pick_slot policy per_slot whitelist st.active_slot st.last_switch_at now hysteresis_linear
        dwell)
