-- ===== src/JobRegistry/Everywhere.antt =====
-- job_registry.rs: what holds of every entry.
use al.Prelude.{
  ℕ, zero, suc, ◌≡◌, Option, none, some, List, [], ◌∷◌, Bool-cases, inl, inr, leb, ◌==◌, All, subst,
  length, get_elem?, Outcome, returns, panics,
}
use al.JobRegistry.Types.{JobId, JobEntry}
use al.JobRegistry.Events.{with_line}
use al.JobRegistry.State.{
  Registry, JobsState, find_entry, set_entry, remove_entry, is_terminal_entry, prune_at, prune_from,
  prune_recent,
}

pub All-find :
    (P : JobEntry → Type 0) (id : JobId) (es : List JobEntry) (e : JobEntry)
    → All P es
    → find_entry id es ≡ some e
    → P e
unfolding find_entry
All-find P id [] e h f = cc
All-find P id (x ∷ xs) e h f = elim (Bool-cases (x.job_id == id)) [
  | inl t ↦ let new : some x ≡ some e = rw t at f in let same : x ≡ e = cc in subst P same h.0
  | inr t ↦ let rest = rw t at f in All-find P id xs e h.1 rest
]

pub All-set :
    (P : JobEntry → Type 0) (id : JobId) (es : List JobEntry) (e : JobEntry)
    → All P es
    → P e
    → All P (set_entry id e es)
unfolding set_entry
All-set P id [] e h p = tt
All-set P id (x ∷ xs) e h p = elim (Bool-cases (x.job_id == id)) [
  | inl t ↦ rw t (p, h.1)
  | inr t ↦ rw t (h.0, All-set P id xs e h.1 p)
]

pub All-remove :
    (P : JobEntry → Type 0) (id : JobId) (es : List JobEntry)
    → All P es
    → All P (remove_entry id es)
unfolding remove_entry
All-remove P id [] h = tt
All-remove P id (x ∷ xs) h = elim (Bool-cases (x.job_id == id)) [
  | inl t ↦ rw t (All-remove P id xs h.1)
  | inr t ↦ rw t (h.0, All-remove P id xs h.1)
]

-- What a removal keeps, `prune_recent` keeps.
module _ (Q : List JobEntry → Type 0)
    (keep : (id : JobId) (es : List JobEntry) → Q es → Q (remove_entry id es)) where
  prune_at-keeps :
      (i : ℕ) (id : Option JobId) (s : JobsState) → Q s.entries → Q (prune_at i id s).entries
  unfolding prune_at
  prune_at-keeps i none s h = h
  prune_at-keeps i (some id) s h = elim (Bool-cases (is_terminal_entry (find_entry id s.entries))) [
    | inl e ↦ rw e (keep id s.entries h)
    | inr e ↦ rw e h
  ]

  prune_from-keeps : (m i : ℕ) (s : JobsState) → Q s.entries → Q (prune_from m i s).entries
  unfolding prune_from
  prune_from-keeps m zero s h = h
  prune_from-keeps m (suc i) s h = elim (Bool-cases (leb (length s.entries) m)) [
    | inl e ↦ rw e h
    | inr e ↦ rw e (
        prune_from-keeps m i (prune_at i (get_elem? s.order i) s)
          (prune_at-keeps i (get_elem? s.order i) s h))
  ]

  pub prune_recent-keeps : (s : JobsState) (m : ℕ) → Q s.entries → Q (prune_recent s m).entries
  unfolding prune_recent
  prune_recent-keeps s m h = elim (Bool-cases (leb (length s.entries) m)) [
    | inl e ↦ rw e h
    | inr e ↦ rw e (prune_from-keeps m (length s.order) s h)
  ]

pub All-prune_recent :
    (P : JobEntry → Type 0) (s : JobsState) (m : ℕ)
    → All P s.entries
    → All P (prune_recent s m).entries
All-prune_recent P = prune_recent-keeps (All P) (All-remove P)

-- What holds with every line, and without one.
pub with_line-keeps :
    (P : Registry → Type 0) (line : Outcome (List ℕ)) (r : Registry) (body : List ℕ → Registry)
    → P r
    → ((s : List ℕ) → P (body s))
    → P (with_line line r body)
unfolding with_line
with_line-keeps P (returns s) r body h k = k s
with_line-keeps P panics r body h k = h
