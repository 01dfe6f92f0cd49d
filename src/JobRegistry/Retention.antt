-- ===== src/JobRegistry/Retention.antt =====
-- job_registry.rs: what `prune_recent` keeps.
pub mod Ids
pub mod Bound
use al.Prelude.{
  ℕ, zero, suc, ◌+◌, ◌≤◌, ◌<◌, ◌≡◌, ◌⊎◌, refl, sym, ◌∙◌, ap, Bool, true, false, not, ◌||◌, Option,
  none, some, List, [], ◌∷◌, ◌++◌, arith, Bool-cases, Option-cases, inl, inr, leb, ◌==◌,
  if◌then◌else◌, any, All, subst, length, get_elem?, take, drop, ==_false, ℕ_discrete, leb→le, ◌≢◌,
}
use al.JobRegistry.Types.{JobId, is_active, JobEntry}
use al.JobRegistry.State.{
  JobsState, find_entry, remove_entry, is_terminal_entry, remove_at, prune_at, prune_from,
  prune_recent,
}
use al.JobRegistry.Entries.{find_entry-remove}

-- The id of every entry is in the order.
pub Covered : JobsState → Type 0
Covered s =
    (j : JobId) (e : JobEntry) → find_entry j s.entries ≡ some e → any (λ x. x == j) s.order ≡ true

-- No entry that an id from the index `i` on stands for has ended.
pub Scanned : ℕ → JobsState → Type 0
Scanned i s = All (λ id. is_terminal_entry (find_entry id s.entries) ≡ false) (drop i s.order)

any-append {ℓ} :
    {A : Type ℓ} (p : A → Bool) (xs ys : List A) → any p (xs ++ ys) ≡ (any p xs || any p ys)
any-append p [] ys = refl
any-append p (x ∷ xs) ys = ground (arith, any-append p xs ys)

any-remove_at :
    (p : JobId → Bool) (i : ℕ) (xs : List JobId) (x : JobId)
    → get_elem? xs i ≡ some x
    → p x ≡ false
    → any p xs ≡ true
    → any p (remove_at i xs) ≡ true
any-remove_at p i [] x h n a = cc
any-remove_at p zero (y ∷ ys) x h n a = ground arith
any-remove_at p (suc i) (y ∷ ys) x h n a = ground (arith, any-remove_at p i ys x)

drop-get {ℓ} :
    {A : Type ℓ} (i : ℕ) (xs : List A) (x : A)
    → get_elem? xs i ≡ some x
    → drop i xs ≡ x ∷ drop (suc i) xs
drop-get i [] x h = cc
drop-get zero (y ∷ ys) x h = cc
drop-get (suc i) (y ∷ ys) x h = drop-get i ys x h

drop-remove_at {ℓ} :
    {A : Type ℓ} (i : ℕ) (xs : List A) (x : A)
    → get_elem? xs i ≡ some x
    → drop i (remove_at i xs) ≡ drop (suc i) xs
drop-remove_at i [] x h = cc
drop-remove_at zero (y ∷ ys) x h = refl
drop-remove_at (suc i) (y ∷ ys) x h = drop-remove_at i ys x h

drop-none {ℓ} : {A : Type ℓ} (i : ℕ) (xs : List A) → get_elem? xs i ≡ none → drop i xs ≡ []
drop-none zero [] h = refl
drop-none (suc i) [] h = refl
drop-none zero (y ∷ ys) h = cc
drop-none (suc i) (y ∷ ys) h = drop-none i ys h

is_terminal_entry-remove :
    (id j : JobId) (es : List JobEntry)
    → is_terminal_entry (find_entry j es) ≡ false
    → is_terminal_entry (find_entry j (remove_entry id es)) ≡ false
unfolding is_terminal_entry
is_terminal_entry-remove id j es h = ground (arith, find_entry-remove id j es)

All-weaken {ℓ κ κ'} :
    {A : Type ℓ} (P : A → Type κ) (Q : A → Type κ') (xs : List A)
    → ((x : A) → P x → Q x)
    → All P xs
    → All Q xs
All-weaken P Q [] f h = tt
All-weaken P Q (x ∷ xs) f h = (f x h.0, All-weaken P Q xs f h.1)

find_entry-remove_some :
    (id j : JobId) (es : List JobEntry) (e : JobEntry)
    → find_entry j (remove_entry id es) ≡ some e
    → (id ≢ j) × (find_entry j es ≡ some e)
find_entry-remove_some id j es e f = elim (ℕ_discrete id j) [
  | yes here ↦ absurd (ground (arith, find_entry-remove id j es))
  | no other ↦ (other, ground (arith, find_entry-remove id j es))
]

Covered-prune_at :
    (i : ℕ) (s : JobsState) → Covered s → Covered (prune_at i (get_elem? s.order i) s)
unfolding Covered prune_at
Covered-prune_at i s c = elim (Option-cases (get_elem? s.order i)) [
  | inl h ↦ rw (h, prune_at) c
  | inr (id, h) ↦ elim (Bool-cases (is_terminal_entry (find_entry id s.entries))) [
    | inl t ↦
        rw (h, prune_at, t)
          (λ j e f.
            let (other, there) = find_entry-remove_some id j s.entries e f in
            any-remove_at (λ x. x == j) i s.order id h (==_false id j other) (c j e there))
    | inr t ↦ rw (h, prune_at, t) c
  ]
]

Scanned-prune_at :
    (i : ℕ) (s : JobsState) → Scanned (suc i) s → Scanned i (prune_at i (get_elem? s.order i) s)
unfolding Scanned prune_at
Scanned-prune_at i s c = elim (Option-cases (get_elem? s.order i)) [
  | inl h ↦ rw (h, prune_at, drop-none i s.order h) tt
  | inr (id, h) ↦ elim (Bool-cases (is_terminal_entry (find_entry id s.entries))) [
    | inl t ↦
        rw (h, prune_at, t, drop-remove_at i s.order id h)
          (All-weaken _ _ (drop (suc i) s.order) (λ j. is_terminal_entry-remove id j s.entries) c)
    | inr t ↦ rw (h, prune_at, t, drop-get i s.order id h) (t, c)
  ]
]

-- Once the loop has ended, the retained entries are few enough or none of them has ended.
pub Pruned : ℕ → JobsState → Type 0
Pruned m s =
    (length s.entries ≤ m)
    ⊎ ((id : JobId) (e : JobEntry) → find_entry id s.entries ≡ some e → is_active e.state ≡ true)

All-any :
    (P : JobId → Type 0) (j : JobId) (xs : List JobId)
    → All P xs
    → any (λ x. x == j) xs ≡ true
    → P j
All-any P j [] h a = cc
All-any P j (x ∷ xs) h a = elim (ℕ_discrete x j) [
  | yes here ↦ subst P here h.0
  | no other ↦ All-any P j xs h.1 (ground arith)
]

prune_from-Pruned :
    (m i : ℕ) (s : JobsState)
    → Covered s
    → Scanned i s
    → Covered (prune_from m i s) × Pruned m (prune_from m i s)
unfolding prune_from Scanned Covered Pruned is_terminal_entry
prune_from-Pruned m zero s c scanned =
    (c, inr (λ id e f. let t = rw f at (All-any _ id s.order scanned (c id e f)) in ground arith))
prune_from-Pruned m (suc i) s c scanned = elim (Bool-cases (leb (length s.entries) m)) [
  | inl e ↦ rw e (c, inl (leb→le (length s.entries) m e))
  | inr e ↦ rw e (
      prune_from-Pruned m i (prune_at i (get_elem? s.order i) s) (Covered-prune_at i s c)
        (Scanned-prune_at i s scanned))
]

drop-length {ℓ} : {A : Type ℓ} (xs : List A) → drop (length xs) xs ≡ []
drop-length [] = refl
drop-length (x ∷ xs) = drop-length xs

-- `prune_recent` leaves at most `max_recent` entries, or only entries that are active.
pub prune_recent-Pruned :
    (s : JobsState) (m : ℕ) → Covered s → Covered (prune_recent s m) × Pruned m (prune_recent s m)
unfolding prune_recent Pruned Scanned
prune_recent-Pruned s m c = elim (Bool-cases (leb (length s.entries) m)) [
  | inl e ↦ rw e (c, inl (leb→le (length s.entries) m e))
  | inr e ↦ rw e (prune_from-Pruned m (length s.order) s c (rw (drop-length s.order) tt))
]
