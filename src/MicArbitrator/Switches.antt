-- ===== src/MicArbitrator/Switches.antt =====
-- modules/audio_io/mic_arbitrator.rs: how often the slot that is heard changes.
use al.Prelude.{
  ℕ, ◌≤◌, ◌<◌, ◌≡◌, ◌≢◌, ◌+◌, ◌-◌, zero, suc, refl, sym, Bool, Option, some, List, [], ◌∷◌, leb,
  leb→le, ◌==◌, ==_refl, ==_false, if◌then◌else◌, length, get_elem?, ◌⊎◌, All, arith, inl, inr,
  Bool-cases, Outcome, returns, panics,
}
use al.MicArbitrator.{
  auto, Ordering, SlotState, keeps, dwell_satisfied, fixed_slot, SlotChoice, same_slot, choose,
  loudest, held, pick_loudest, pick_slot, choose_slot,
}

get_elem?-below :
    {A : Type 0} (xs : List A) (i : ℕ) → i < length xs → (x : A) × (get_elem? xs i ≡ some x)
get_elem?-below [] i h = ground arith
get_elem?-below (x ∷ xs) zero h = (x, refl)
get_elem?-below (x ∷ xs) (suc i) h = get_elem?-below xs i (omega (arith, h))

-- Of instants, each at least the dwell after the one before.
unfoldable pub Spaced : ℕ → ℕ → List ℕ → Type 0
Spaced dwell t [] = Unit
Spaced dwell t (u ∷ us) = (dwell ≤ u - t) × Spaced dwell u us

-- What a period of `n` slots may do, with slot `i` heard since `t`.
pub data Next (n dwell i t now : ℕ) : Outcome SlotChoice → Type 0 where
  stays : Next n dwell i t now (returns (record { active_slot = some i; last_switch_at = some t }))
  switches :
      (j : ℕ)
      → j < n
      → i ≢ j
      → dwell ≤ now - t
      → Next n dwell i t now (returns (record { active_slot = some j; last_switch_at = some now }))

Next-cases :
    {n dwell i t now : ℕ} (o : Outcome SlotChoice)
    → Next n dwell i t now o
    → (o ≡ returns (record { active_slot = some i; last_switch_at = some t }))
      ⊎ ((j : ℕ) × (j < n)
          × (i ≢ j)
          × (dwell ≤ now - t)
          × (o ≡ returns (record { active_slot = some j; last_switch_at = some now })))
Next-cases _ stays = inl refl
Next-cases _ (switches j lt other long) = inr (j, lt, other, long, refl)

unfoldable pub noted : Bool → ℕ → Outcome (List ℕ) → Outcome (List ℕ)
noted same now panics = panics
noted same now (returns times) = returns (if same then times else now ∷ times)

choose_stays :
    (n dwell i t now : ℕ)
    → Next n dwell i t now
        (choose (record { active_slot = some i; last_switch_at = some t }) now (returns (some i)))
unfolding choose same_slot
choose_stays n dwell i t now = rw (==_refl i) stays

choose_switches :
    (n dwell i j t now : ℕ)
    → j < n
    → i ≢ j
    → dwell ≤ now - t
    → Next n dwell i t now
        (choose (record { active_slot = some i; last_switch_at = some t }) now (returns (some j)))
unfolding choose same_slot
choose_switches n dwell i j t now lt other long =
    rw (==_false j i (λ e. other (sym e))) (switches j lt other long)

module _ (F : Type 0) (partial_cmp : F → F → Option Ordering) (gt : F → F → Bool)
    (mul : F → F → F) where
  loudest_below :
      (i best : ℕ) (rms : F) (ss : List (SlotState F))
      → best < i
      → (loudest F partial_cmp gt mul i best rms ss).0 < i + length ss
  unfolding loudest
  loudest_below i best rms [] h = omega (arith, h)
  loudest_below i best rms (s ∷ ss) h = elim (Bool-cases (keeps (partial_cmp rms s.rms))) [
    | inl kept ↦
        rw (kept, loudest) (omega (arith, loudest_below (suc i) best rms ss (omega (arith, h))))
    | inr beaten ↦
        rw (beaten, loudest) (omega (arith, loudest_below (suc i) i s.rms ss (omega arith)))
  ]

  held_choice :
      (per_slot : List (SlotState F)) (best : ℕ × F) (i t now : ℕ) (h : F) (dwell : ℕ)
      → i < length per_slot
      → (j : ℕ) × (held F partial_cmp gt mul per_slot best i (some t) now h dwell
          ≡ returns (some j))
        × ((j ≡ i) ⊎ ((j ≡ best.0) × (i ≢ best.0) × (dwell ≤ now - t)))
  unfolding held dwell_satisfied
  held_choice per_slot best i t now h dwell lt = elim (Bool-cases (i == best.0)) [
    | inl same ↦ (i, rw same refl, inl refl)
    | inr other ↦
        let (s, found) = get_elem?-below per_slot i lt in
        let apart : i ≢ best.0 = ground arith in
        elim (Bool-cases (leb dwell (now - t))) [
          | inl long ↦ elim (Bool-cases (gt best.1 (mul s.rms h))) [
            | inl loud ↦
                (best.0, rw (other, found, loud, long) refl, inr (refl, apart, leb→le _ _ long))
            | inr soft ↦ (i, rw (other, found, soft) refl, inl refl)
          ]
          | inr brief ↦ elim (Bool-cases (gt best.1 (mul s.rms h))) [
            | inl loud ↦ (i, rw (other, found, loud, brief) refl, inl refl)
            | inr soft ↦ (i, rw (other, found, soft) refl, inl refl)
          ]
        ]
  ]

  -- In a period with slot `i` heard since `t`, the choice stays, or it goes to another slot that is
  -- there, no sooner than the dwell after `t`, and the time of the switch is noted. The policy is
  -- automatic, and `i` is one of the slots.
  pub choose_slot-Next :
      (whitelist : List ℕ) (h : F) (dwell i t now : ℕ) (per_slot : List (SlotState F))
      → i < length per_slot
      → Next (length per_slot) dwell i t now (
          choose_slot F partial_cmp gt mul auto whitelist h dwell
            (record { active_slot = some i; last_switch_at = some t })
            now
            per_slot)
  unfolding choose_slot pick_slot pick_loudest fixed_slot
  choose_slot-Next whitelist h dwell i t now [] lt = ground arith
  choose_slot-Next whitelist h dwell i t now (s ∷ ss) lt =
      let best = loudest F partial_cmp gt mul 1 0 s.rms ss in
      let below : best.0 < length (s ∷ ss) =
        omega (arith, loudest_below 1 0 s.rms ss (omega arith)) in
      let (j, picked, why) = held_choice (s ∷ ss) best i t now h dwell lt in
      rw picked (elim why [
        | inl same ↦ rw same (choose_stays _ dwell i t now)
        | inr (same, other, long) ↦
            rw same (choose_switches _ dwell i best.0 t now below other long)
      ])

  -- The instants at which the slot changes in a run over periods.
  unfoldable pub switch_times :
      List ℕ → F → ℕ → SlotChoice → List (ℕ × List (SlotState F)) → Outcome (List ℕ)
  switch_times whitelist h dwell st [] = returns []
  switch_times whitelist h dwell st (p ∷ ps) =
      elim (choose_slot F partial_cmp gt mul auto whitelist h dwell st p.0 p.1) [
        | panics ↦ panics
        | returns next ↦
            noted (same_slot st.active_slot next.active_slot) p.0
              (switch_times whitelist h dwell next ps)
      ]

  -- In any run over periods of `n` slots, with slot `i` of them heard since `t`: nothing panics, and
  -- between two switches, whatever the levels and the clock do, at least the dwell passes. The policy
  -- is automatic.
  pub switch_times-Spaced :
      (whitelist : List ℕ) (h : F) (n dwell i t : ℕ) (ps : List (ℕ × List (SlotState F)))
      → i < n
      → All (λ p. length p.1 ≡ n) ps
      → (times : List ℕ) × (switch_times whitelist h dwell
            (record { active_slot = some i; last_switch_at = some t })
            ps
          ≡ returns times)
        × Spaced dwell t times
  unfolding switch_times Spaced noted same_slot
  switch_times-Spaced whitelist h n dwell i t [] lt same = ([], refl, tt)
  switch_times-Spaced whitelist h n dwell i t (p ∷ ps) lt same =
      let st : SlotChoice = record { active_slot = some i; last_switch_at = some t } in
      let now = p.0 in
      let there : i < length p.1 = rw same.0 lt in
      let step = choose_slot-Next whitelist h dwell i t now p.1 there in
      elim (Next-cases _ step) [
        | inl stayed ↦
            let (times, runs, spaced) = switch_times-Spaced whitelist h n dwell i t ps lt same.1 in
            (times, rw (stayed, switch_times, runs, ==_refl i) refl, spaced)
        | inr (j, below, other, long, switched) ↦
            let (times, runs, spaced) =
              switch_times-Spaced whitelist h n dwell j now ps (rw same.0 at below) same.1 in
            (
              now ∷ times,
              rw (switched, switch_times, runs, ==_false i j other) refl,
              (long, spaced),
            )
      ]
