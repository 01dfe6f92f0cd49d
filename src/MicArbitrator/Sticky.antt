-- ===== src/MicArbitrator/Sticky.antt =====
-- modules/audio_io/mic_arbitrator.rs: a microphone that is wanted or works is not given up.
use al.Prelude.{
  ℕ, ◌≡◌, ◌⊎◌, zero, suc, refl, ap, false, Option, some, List, [], ◌∷◌, ◌==◌, ==_iff, ==_refl,
  get_elem?, inl, inr, Bool-cases,
}
use al.MicArbitrator.{
  MicId, MicSelection, first_available, fixed, MicCandidate, position, ids, or_first,
  resolve_desired_idx,
}

position_later :
    (x y : ℕ) (ys : List ℕ) (k : ℕ)
    → (y == x) ≡ false
    → get_elem? (y ∷ ys) k ≡ some x
    → ((m : ℕ)
        → get_elem? ys m ≡ some x
        → (i : ℕ) × (position x ys ≡ some i) × (get_elem? ys i ≡ some x))
    → (i : ℕ) × (position x (y ∷ ys) ≡ some i) × (get_elem? (y ∷ ys) i ≡ some x)
unfolding position
position_later x y ys zero other h found =
    let same : y ≡ x = cc in let clash = rw (same, ==_refl x) at other in cc
position_later x y ys (suc m) other h found =
    let (i, first, there) = found m h in (suc i, rw (other, first) refl, there)

position-found :
    (x : ℕ) (ys : List ℕ) (k : ℕ)
    → get_elem? ys k ≡ some x
    → (i : ℕ) × (position x ys ≡ some i) × (get_elem? ys i ≡ some x)
unfolding position
position-found x [] k h = cc
position-found x (y ∷ ys) k h = elim (Bool-cases (y == x)) [
  | inl same ↦ (0, rw same refl, ap some ((==_iff y x).0 same))
  | inr other ↦ position_later x y ys k other h (position-found x ys)
]

-- The microphone with an id is among the candidates, at whatever place: the policy that fixes it, and
-- the policy that takes the first available one while it is active, resolve to a candidate with that
-- id.
pub resolve_desired_idx-listed :
    (policy : MicSelection) (candidates : List MicCandidate) (current : Option MicId) (id : MicId)
    (k : ℕ)
    → get_elem? (ids candidates) k ≡ some id
    → (policy ≡ fixed id) ⊎ ((policy ≡ first_available) × (current ≡ some id))
    → (i : ℕ) × (resolve_desired_idx policy candidates current ≡ some i)
      × (get_elem? (ids candidates) i ≡ some id)
unfolding resolve_desired_idx or_first
resolve_desired_idx-listed policy candidates current id k listed wanted =
    let (i, found, there) = position-found id (ids candidates) k listed in
    elim wanted [
      | inl policy_fixed ↦ (i, rw policy_fixed found, there)
      | inr (policy_first, active) ↦ (i, rw (policy_first, active, found) refl, there)
    ]
