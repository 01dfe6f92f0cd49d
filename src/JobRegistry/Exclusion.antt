-- ===== src/JobRegistry/Exclusion.antt =====
-- job_registry.rs: what the conflict tests of an admission keep apart.
use al.Prelude.{
  ℕ, ◌≡◌, ◌≢◌, ◌⊎◌, refl, sym, ◌∙◌, ap, subst, Bool, true, false, Option, none, some, List, [], ◌∷◌,
  arith, Bool-cases, inl, inr, ◌==◌, ==_iff, ==_false, ◌||◌, All, ℕ_discrete,
}
use al.JobRegistry.Types.{
  JobId, WorkspaceId, JobType, JobReference, workspace_id, is_active, JobEntry, is_workspace_delete,
}
use al.JobRegistry.State.{JobsState, find_entry}
use al.JobRegistry.Admission.{
  refers_to, job_conflicts_with_existing_job, job_conflicts_with_existing_lease,
  lease_conflicts_with_existing_job, find_conflict, lease_conflict, or_else, reference_conflict,
  references_conflict, insert_entry, lease_references_conflict, remove_lease,
}
use al.JobRegistry.Entries.{find_entry-remove}
use al.JobRegistry.Shrinks.{Shrinks}

-- The active `WorkspaceDelete` of a workspace is the one active job that refers to it, and no lease
-- does.
pub record Exclusive (es : List JobEntry) (leases : List (ℕ × List JobReference)) : Type 0 where
  pub apart :
      (id j : JobId) (e d : JobEntry)
      → find_entry id es ≡ some e
      → find_entry j es ≡ some d
      → id ≢ j
      → is_active e.state ≡ true
      → is_active d.state ≡ true
      → (ws : WorkspaceId) → refers_to ws e.references ≡ true
      → refers_to ws d.references ≡ true
      → is_workspace_delete e.job_type ≡ false
  pub unleased :
      (id : JobId) (e : JobEntry)
      → find_entry id es ≡ some e
      → is_active e.state ≡ true
      → is_workspace_delete e.job_type ≡ true
      → (ws : WorkspaceId) → refers_to ws e.references ≡ true
      → All (λ l. refers_to ws l.1 ≡ false) leases

pub Exclusive-Shrinks :
    (es es' : List JobEntry) (leases : List (ℕ × List JobReference))
    → Shrinks es es'
    → Exclusive es leases
    → Exclusive es' leases
Exclusive-Shrinks es es' leases s x = record {
  apart = λ id j e' d' he hd ne ae ad ws re rd.
      let (e, fe, we) = s.found id e' he in
      let (d, fd, wd) = s.found j d' hd in
      ap is_workspace_delete we.job_type
      ∙ x.apart id j e d fe fd ne (we.active ae) (wd.active ad) ws (we.references ws re)
          (wd.references ws rd);
  unleased = λ id e' he ae del ws re.
      let (e, fe, we) = s.found id e' he in
      x.unleased id e fe (we.active ae) (sym (ap is_workspace_delete we.job_type) ∙ del) ws
        (we.references ws re);
}

find_conflict-none :
    (conflicts : JobType → List JobReference → Bool) (es : List JobEntry) (j : JobId) (d : JobEntry)
    → find_conflict conflicts es ≡ none
    → find_entry j es ≡ some d
    → is_active d.state ≡ true
    → conflicts d.job_type d.references ≡ false
unfolding find_conflict find_entry
find_conflict-none conflicts [] j d h f a = cc
find_conflict-none conflicts (e ∷ es) j d h f a =
    ground (arith, find_conflict-none conflicts es j d)

or_else-none {ℓ} : {A : Type ℓ} (a b : Option A) → or_else a b ≡ none → (a ≡ none) × (b ≡ none)
unfolding or_else
or_else-none none b h = (refl, h)
or_else-none (some a) b h = cc

reference_conflict-none :
    (del : Bool) (refs : List JobReference) (fresh : JobId) (s : JobsState) (ws : WorkspaceId)
    → references_conflict del refs fresh s ≡ none
    → refers_to ws refs ≡ true
    → reference_conflict del ws fresh s ≡ none
unfolding references_conflict refers_to
reference_conflict-none del [] fresh s ws h r = cc
reference_conflict-none del (x ∷ xs) fresh s ws h r =
    let both = or_else-none _ _ h in
    elim (ℕ_discrete (workspace_id x) ws) [
      | yes e ↦ subst (λ w. reference_conflict del w fresh s ≡ none) e both.0
      | no ne ↦ reference_conflict-none del xs fresh s ws both.1 (ground arith)
    ]

lease_conflict-none :
    (ws : WorkspaceId) (fresh : JobId) (leases : List (ℕ × List JobReference))
    → lease_conflict true ws fresh leases ≡ none
    → All (λ l. refers_to ws l.1 ≡ false) leases
unfolding lease_conflict job_conflicts_with_existing_lease
lease_conflict-none ws fresh [] h = tt
lease_conflict-none ws fresh ((id, refs) ∷ leases) h = elim (Bool-cases (refers_to ws refs)) [
  | inl t ↦ let bad = rw t at h in cc
  | inr t ↦ let rest = rw t at h in (t, lease_conflict-none ws fresh leases rest)
]

-- What an insertion makes findable is the new entry or was there.
pub find_entry-insert :
    (e : JobEntry) (s : JobsState) (i : JobId) (a : JobEntry)
    → find_entry i (insert_entry e s).entries ≡ some a
    → ((i ≡ e.job_id) × (a ≡ e)) ⊎ (find_entry i s.entries ≡ some a)
unfolding insert_entry find_entry
find_entry-insert e s i a f = elim (ℕ_discrete e.job_id i) [
  | yes here ↦
      let new : some e ≡ some a = rw ((==_iff e.job_id i).1 here) at f in inl (sym here, cc)
  | no other ↦
      let rest = rw (==_false e.job_id i other) at f in
      inr (ground (arith, find_entry-remove e.job_id i s.entries))
]

pub Exclusive-insert :
    (e : JobEntry) (fresh : JobId) (s : JobsState)
    → references_conflict (is_workspace_delete e.job_type) e.references fresh s ≡ none
    → Exclusive s.entries s.leases
    → Exclusive (insert_entry e s).entries s.leases
unfolding reference_conflict job_conflicts_with_existing_job
Exclusive-insert e fresh s h x =
    let clear : (ws : WorkspaceId)
        → refers_to ws e.references ≡ true
        → (find_conflict (job_conflicts_with_existing_job (is_workspace_delete e.job_type) ws)
              s.entries
            ≡ none)
          × (lease_conflict (is_workspace_delete e.job_type) ws fresh s.leases ≡ none) =
      λ ws r.
        or_else-none _ _
          (reference_conflict-none (is_workspace_delete e.job_type) e.references fresh s ws h r) in
    let old : (j : JobId) (d : JobEntry) (ws : WorkspaceId)
        → find_entry j s.entries ≡ some d
        → is_active d.state ≡ true
        → refers_to ws e.references ≡ true
        → refers_to ws d.references ≡ true
        → (is_workspace_delete e.job_type || is_workspace_delete d.job_type) ≡ false =
      λ j d ws f a re rd.
        let c = find_conflict-none _ s.entries j d (clear ws re).0 f a in rw rd at c in
    record {
      apart = λ i j a b fa fb ne aa ab ws ra rb. elim (find_entry-insert e s i a fa) [
        | inl new ↦ elim (find_entry-insert e s j b fb) [
          | inl other ↦ absurd (ne (new.0 ∙ sym other.0))
          | inr there ↦
              let o =
                old j b ws there ab (subst (λ y. refers_to ws y.references ≡ true) new.1 ra) rb in
              ap (λ y. is_workspace_delete y.job_type) new.1 ∙ ground arith
        ]
        | inr here ↦ elim (find_entry-insert e s j b fb) [
          | inl new ↦
              let o =
                old i a ws here aa (subst (λ y. refers_to ws y.references ≡ true) new.1 rb) ra in
              ground arith
          | inr there ↦ x.apart i j a b here there ne aa ab ws ra rb
        ]
      ];
      unleased = λ i a fa aa del ws ra. elim (find_entry-insert e s i a fa) [
        | inl (_, new) ↦
            let deletes : is_workspace_delete e.job_type ≡ true =
              subst (λ y. is_workspace_delete y.job_type ≡ true) new del in
            lease_conflict-none ws fresh s.leases (
              subst (λ d. lease_conflict d ws fresh s.leases ≡ none) deletes
                (clear ws (subst (λ y. refers_to ws y.references ≡ true) new ra)).1)
        | inr there ↦ x.unleased i a there aa del ws ra
      ];
    }

lease_references_conflict-none :
    (refs : List JobReference) (es : List JobEntry) (ws : WorkspaceId) (j : JobId) (e : JobEntry)
    → lease_references_conflict refs es ≡ none
    → refers_to ws refs ≡ true
    → find_entry j es ≡ some e
    → is_active e.state ≡ true
    → lease_conflicts_with_existing_job ws e.job_type e.references ≡ false
unfolding lease_references_conflict refers_to
lease_references_conflict-none [] es ws j e h r f a = cc
lease_references_conflict-none (x ∷ xs) es ws j e h r f a =
    let both = or_else-none _ _ h in
    elim (ℕ_discrete (workspace_id x) ws) [
      | yes at ↦
          find_conflict-none (lease_conflicts_with_existing_job ws) es j e
            (subst (λ w. find_conflict (lease_conflicts_with_existing_job w) es ≡ none) at both.0) f
            a
      | no ne ↦ lease_references_conflict-none xs es ws j e both.1 (ground arith) f a
    ]

pub Exclusive-lease :
    (es : List JobEntry) (leases : List (ℕ × List JobReference)) (id : ℕ) (refs : List JobReference)
    → lease_references_conflict refs es ≡ none
    → Exclusive es leases
    → Exclusive es ((id, refs) ∷ leases)
unfolding lease_conflicts_with_existing_job
Exclusive-lease es leases id refs h x = record {
  apart = x.apart;
  unleased = λ j e f a del ws r. (
    elim (Bool-cases (refers_to ws refs)) [
      | inl t ↦ let c = lease_references_conflict-none refs es ws j e h t f a in ground arith
      | inr t ↦ t
    ],
    x.unleased j e f a del ws r,
  );
}

All-remove_lease :
    (P : ℕ × List JobReference → Type 0) (id : ℕ) (leases : List (ℕ × List JobReference))
    → All P leases
    → All P (remove_lease id leases)
unfolding remove_lease
All-remove_lease P id [] h = tt
All-remove_lease P id ((j, refs) ∷ leases) h = elim (Bool-cases (j == id)) [
  | inl t ↦ rw t (All-remove_lease P id leases h.1)
  | inr t ↦ rw t (h.0, All-remove_lease P id leases h.1)
]

pub Exclusive-remove_lease :
    (es : List JobEntry) (leases : List (ℕ × List JobReference)) (id : ℕ)
    → Exclusive es leases
    → Exclusive es (remove_lease id leases)
Exclusive-remove_lease es leases id x = record {
  apart = x.apart;
  unleased = λ j e f a del ws r. All-remove_lease _ id leases (x.unleased j e f a del ws r);
}
