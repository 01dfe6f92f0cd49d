-- ===== src/StagedDelete/Atomic.antt =====
-- modules/file_mgr/staging.rs, recovery.rs: a target is in place and whole, or it is in the staging
-- directory or gone.
use al.Prelude.{◌≡◌, ◌⊎◌, refl, sym, ◌∙◌, subst, Bool, true, false, inl, inr}
use al.StagedDelete.{Entries}
use al.StagedDelete.Drain.{Pruned, Pruned-refl, Pruned-trans}
use al.StagedDelete.Protocol.{
  Payload, missing, single, tree, Staging, is_missing, put_tombstone, put_stage_dir, put_payload,
  rename_target,
}

-- What a drain may leave of a payload.
pub data Remains : Payload → Payload → Type 0 where
  gone : {p : Payload} → Remains missing p
  whole : Remains single single
  part : {l es : Entries} → Pruned l es → Remains (tree l) (tree es)

pub Remains-refl : (p : Payload) → Remains p p
Remains-refl missing = gone
Remains-refl single = whole
Remains-refl (tree es) = part (Pruned-refl es)

Remains-Pruned :
    {es l : Entries} {p : Payload} → Pruned l es → Remains (tree es) p → Remains (tree l) p
Remains-Pruned h (part k) = part (Pruned-trans h k)

-- The target is in place and whole, and nothing of it is staged; or it is not in place, and what is
-- staged are remains of it, in a stage directory.
pub record Atomic (p : Payload) (s : Staging) : Type 0 where
  pub place :
      ((s.target ≡ p) × (s.payload ≡ missing)) ⊎ ((s.target ≡ missing) × Remains s.payload p)
  pub housed : s.stage_dir ≡ false → s.payload ≡ missing

module _ (p : Payload) where
  pub Atomic-put_tombstone : (b : Bool) (s : Staging) → Atomic p s → Atomic p (put_tombstone b s)
  unfolding put_tombstone
  Atomic-put_tombstone b s a = record { place = a.place; housed = a.housed }

  pub Atomic-put_stage_dir : (s : Staging) → Atomic p s → Atomic p (put_stage_dir true s)
  unfolding put_stage_dir
  Atomic-put_stage_dir s a = record { place = a.place; housed = λ e. cc }

  pub Atomic-put_payload : (s : Staging) → Atomic p s → Atomic p (put_payload missing s)
  unfolding put_payload
  Atomic-put_payload s a = record {
    place = elim a.place [ inl (here, none) ↦ inl (here, refl) | inr (away, r) ↦ inr (away, gone) ];
    housed = λ _. refl;
  }

  pub Atomic-remove_stage_dir :
      (s : Staging) → Atomic p s → s.payload ≡ missing → Atomic p (put_stage_dir false s)
  unfolding put_stage_dir
  Atomic-remove_stage_dir s a e = record { place = a.place; housed = λ _. e }

  pub Atomic-rename_target :
      (s : Staging)
      → Atomic p s
      → s.stage_dir ≡ true
      → is_missing s.target ≡ false
      → Atomic p (rename_target s)
  unfolding rename_target is_missing
  Atomic-rename_target s a h t = record {
    place = elim a.place [
      | inl (here, none) ↦ inr (refl, subst (λ q. Remains q p) (sym here) (Remains-refl p))
      | inr (away, r) ↦ let clash = rw away at t in cc
    ];
    housed = λ e. let clash : false ≡ true = sym e ∙ h in cc;
  }

  pub Atomic-drained :
      (s : Staging) (es left : Entries)
      → Atomic p s
      → s.payload ≡ tree es
      → Pruned left es
      → Atomic p (put_payload (tree left) s)
  unfolding put_payload
  Atomic-drained s es left a e h = record {
    place = elim a.place [
      | inl (here, none) ↦ let clash : tree es ≡ missing = sym e ∙ none in cc
      | inr (away, r) ↦ inr (away, Remains-Pruned h (subst (λ q. Remains q p) e r))
    ];
    housed = λ d. let clash : tree es ≡ missing = sym e ∙ a.housed d in cc;
  }
