-- ===== src/StagedDelete/Keeps.antt =====
-- modules/file_mgr/staging.rs, recovery.rs: no step of a delete breaks the target.
use al.Prelude.{ℕ, zero, suc, ◌≡◌, refl, Bool, true, false, not, arith, if◌then◌else◌}
use al.Effects.{World, Run, done, failed, bind, rescue, attempt, no_effect}
use al.Effects.Triples.{Holds, Holds-bind, Holds-rescue, Holds-attempt, Holds-best_effort}
use al.StagedDelete.{
  default_delete_batch_entries, Entries, nil, leaf, dir, DrainResult, finished, more, error, died,
  Drained, drain_dir,
}
use al.StagedDelete.Drain.{Pruned, drain_dir-Batch}
use al.StagedDelete.Protocol.{
  Payload, missing, single, tree, Staging, FileError, io, is_missing, put_tombstone, put_stage_dir,
  put_payload, rename_target, write_tombstone, stage_payload, start_delete, drained, drain_payload,
  drain_staged_payload, drain_loop, remove_payload, remove_stage_dir, remove_tombstone,
  finalize_staged_delete, drain_to_completion, max_iters, complete, sweep_orphan, walk_staging,
}
use al.StagedDelete.Atomic.{
  Atomic, Atomic-put_tombstone, Atomic-put_stage_dir, Atomic-put_payload, Atomic-remove_stage_dir,
  Atomic-rename_target, Atomic-drained,
}

is_missing-true : (q : Payload) → is_missing q ≡ true → q ≡ missing
unfolding is_missing
is_missing-true missing e = refl
is_missing-true single e = cc
is_missing-true (tree es) e = cc

module _ (p : Payload) where
  -- `r` keeps the claim wherever it ends.
  abbrev Keeps : {A : Type 0} → Run Staging FileError A → Type 0
  Keeps r = Holds (λ _. Atomic p) (Atomic p) r

  Keeps-attempt :
      (effect : Staging → Staging) (w : World Staging)
      → Atomic p w.state
      → Atomic p (effect w.state)
      → Keeps (attempt io effect w)
  Keeps-attempt effect w a b = Holds-attempt (Atomic p) (Atomic p) io effect w a b b

  Keeps-read : (w : World Staging) → Atomic p w.state → Keeps (attempt io no_effect w)
  unfolding no_effect
  Keeps-read w a = Keeps-attempt (λ s. s) w a a

  Keeps-bind :
      {A B : Type 0} (r : Run Staging FileError A)
      (next : A → World Staging → Run Staging FileError B)
      → Keeps r
      → ((a : A) (w : World Staging) → Atomic p w.state → Keeps (next a w))
      → Keeps (bind r next)
  Keeps-bind r next = Holds-bind (Atomic p) (λ _. Atomic p) (λ _. Atomic p) r next

  Keeps-rescue :
      {A : Type 0} (r : Run Staging FileError A)
      (handler : FileError → World Staging → Run Staging FileError A)
      → Keeps r
      → ((e : FileError) (w : World Staging) → Atomic p w.state → Keeps (handler e w))
      → Keeps (rescue r handler)
  Keeps-rescue r handler = Holds-rescue (Atomic p) (λ _. Atomic p) r handler

  Keeps-if :
      {A : Type 0} (b : Bool) (x y : Run Staging FileError A)
      → (b ≡ true → Keeps x)
      → (b ≡ false → Keeps y)
      → Keeps (if b then x else y)
  Keeps-if true x y hx hy = hx refl
  Keeps-if false x y hx hy = hy refl

  Keeps-write_tombstone : (w : World Staging) → Atomic p w.state → Keeps (write_tombstone w)
  unfolding write_tombstone
  Keeps-write_tombstone w a =
      Keeps-bind _ _ (Keeps-read w a)
        (λ _ w a. Keeps-attempt (put_tombstone true) w a (Atomic-put_tombstone p true w.state a))

  -- Up to the rename the stage directory must be known to be there.
  abbrev InStage : Staging → Type 0
  InStage s = Atomic p s × (s.stage_dir ≡ true)

  Keeps-rename :
      (w : World Staging)
      → InStage w.state
      → Keeps (
          if is_missing w.state.target
          then failed io w
          else bind
              (attempt io rename_target w)
              (λ _ w. bind (attempt io no_effect w) (λ _ w. attempt io no_effect w)))
  unfolding Holds
  Keeps-rename w (a, staged) =
      Keeps-if (is_missing w.state.target) _ _ (λ _. a)
        (λ there.
          Keeps-bind _ _
            (Keeps-attempt rename_target w a (Atomic-rename_target p w.state a staged there))
            (λ _ w a. Keeps-bind _ _ (Keeps-read w a) (λ _ w a. Keeps-read w a)))

  Keeps-stage_payload : (w : World Staging) → Atomic p w.state → Keeps (stage_payload w)
  unfolding stage_payload no_effect put_stage_dir
  Keeps-stage_payload w a =
      Holds-bind (Atomic p) (λ _. InStage) (λ _. Atomic p) _ _
        (Holds-attempt (Atomic p) InStage io (put_stage_dir true) w a
          (Atomic-put_stage_dir p w.state a) (Atomic-put_stage_dir p w.state a, refl))
        (λ _ w s.
          Holds-bind (Atomic p) (λ _. InStage) (λ _. Atomic p) _ _
            (Holds-attempt (Atomic p) InStage io (λ s. s) w s.0 s.0 s) (λ _ w s. Keeps-rename w s))

  pub Keeps-start_delete :
      (exists : Bool) (w : World Staging) → Atomic p w.state → Keeps (start_delete exists w)
  unfolding start_delete Holds
  Keeps-start_delete false w a = a
  Keeps-start_delete true w a =
      Keeps-bind _ _ (Keeps-write_tombstone w a) (λ _ w a. Keeps-stage_payload w a)

  Keeps-drained :
      (s : Staging) (es : Entries) (r : Drained) (result : DrainResult)
      → Atomic p s
      → s.payload ≡ tree es
      → Pruned r.left es
      → Keeps (drained s r result)
  unfolding drained Holds
  Keeps-drained s es r finished a e h = Atomic-drained p s es r.left a e h
  Keeps-drained s es r more a e h = Atomic-drained p s es r.left a e h
  Keeps-drained s es r error a e h = Atomic-drained p s es r.left a e h
  Keeps-drained s es r died a e h = Atomic-drained p s es r.left a e h

  Keeps-drain_payload :
      (budget : ℕ) (q : Payload) (w : World Staging)
      → w.state.payload ≡ q
      → Atomic p w.state
      → Keeps (drain_payload budget q w)
  unfolding drain_payload Holds
  Keeps-drain_payload budget missing w e a = a
  Keeps-drain_payload budget single w e a =
      Keeps-bind _ _ (Keeps-attempt (put_payload missing) w a (Atomic-put_payload p w.state a))
        (λ _ w a. a)
  Keeps-drain_payload budget (tree es) w e a =
      Keeps-drained w.state es (drain_dir budget es 0 w.fates) _ a e
        (drain_dir-Batch budget es 0 w.fates (omega arith)).pruned

  Keeps-next :
      (iters : ℕ)
      → ((w : World Staging) → Atomic p w.state → Keeps (drain_loop iters w))
      → (drain_done : Bool) (w : World Staging) → Atomic p w.state
      → Keeps (elim drain_done [ true ↦ done true w | false ↦ drain_loop iters w ])
  unfolding Holds
  Keeps-next iters rest true w a = a
  Keeps-next iters rest false w a = rest w a

  Keeps-drain_loop : (iters : ℕ) (w : World Staging) → Atomic p w.state → Keeps (drain_loop iters w)
  unfolding drain_loop drain_staged_payload Holds
  Keeps-drain_loop zero w a = a
  Keeps-drain_loop (suc iters) w a =
      Keeps-bind _ _
        (Keeps-bind _ _ (Keeps-read w a)
          (λ _ w a. Keeps-drain_payload default_delete_batch_entries _ w refl a))
        (Keeps-next iters (λ w a. Keeps-drain_loop iters w a))

  Keeps-remove_payload :
      (q : Payload) (w : World Staging) → Atomic p w.state → Keeps (remove_payload q w)
  unfolding remove_payload Holds
  Keeps-remove_payload missing w a = a
  Keeps-remove_payload single w a =
      Keeps-attempt (put_payload missing) w a (Atomic-put_payload p w.state a)
  Keeps-remove_payload (tree nil) w a =
      Keeps-attempt (put_payload missing) w a (Atomic-put_payload p w.state a)
  Keeps-remove_payload (tree (leaf name es)) w a = a
  Keeps-remove_payload (tree (dir name sub es)) w a = a

  Keeps-remove_stage_dir : (w : World Staging) → Atomic p w.state → Keeps (remove_stage_dir w)
  unfolding remove_stage_dir Holds
  Keeps-remove_stage_dir w a =
      Keeps-if (not w.state.stage_dir) _ _ (λ _. a)
        (λ _.
          Keeps-if (is_missing w.state.payload) _ _
            (λ e.
              Keeps-attempt (put_stage_dir false) w a
                (Atomic-remove_stage_dir p w.state a (is_missing-true w.state.payload e)))
            (λ _. a))

  Keeps-remove_tombstone : (w : World Staging) → Atomic p w.state → Keeps (remove_tombstone w)
  unfolding remove_tombstone Holds
  Keeps-remove_tombstone w a =
      Keeps-if w.state.tombstone _ _
        (λ _. Keeps-attempt (put_tombstone false) w a (Atomic-put_tombstone p false w.state a))
        (λ _. a)

  Keeps-finalize : (w : World Staging) → Atomic p w.state → Keeps (finalize_staged_delete w)
  unfolding finalize_staged_delete
  Keeps-finalize w a = Keeps-bind _ _ (Keeps-read w a) (λ _ w a.
      Keeps-bind _ _ (Keeps-remove_payload w.state.payload w a) (λ _ w a.
        Keeps-bind _ _ (Keeps-remove_stage_dir w a)
          (λ _ w a. Keeps-bind _ _ (Keeps-remove_tombstone w a) (λ _ w a. Keeps-read w a))))

  pub Keeps-drain_to_completion :
      (iters : ℕ) (w : World Staging) → Atomic p w.state → Keeps (drain_to_completion iters w)
  unfolding drain_to_completion
  Keeps-drain_to_completion iters w a =
      Keeps-bind _ _ (Keeps-drain_loop iters w a) (λ _ w a. Keeps-finalize w a)

  Keeps-complete : (w : World Staging) → Atomic p w.state → Keeps (complete w)
  unfolding complete Holds
  Keeps-complete w a =
      Keeps-rescue _ _
        (Keeps-bind _ _ (Keeps-drain_loop max_iters w a) (λ drain_ok w a.
          Keeps-if drain_ok _ _ (λ _. Keeps-bind _ _ (Keeps-finalize w a) (λ _ w a. a)) (λ _. a)))
        (λ _ w a. a)

  Keeps-sweep_orphan : (w : World Staging) → Atomic p w.state → Keeps (sweep_orphan w)
  unfolding sweep_orphan Holds put_payload put_stage_dir
  Keeps-sweep_orphan w a =
      Keeps-if w.state.stage_dir _ _
        (λ _.
          Keeps-rescue _ _
            (Keeps-bind _ _
              (Keeps-attempt _ w a
                (record { place = (Atomic-put_payload p w.state a).place; housed = λ _. refl }))
              (λ _ w a. a))
            (λ _ w a. a))
        (λ _. a)

  pub Keeps-walk_staging : (w : World Staging) → Atomic p w.state → Keeps (walk_staging w)
  unfolding walk_staging Holds no_effect
  Keeps-walk_staging w a = Keeps-bind _ _ (Keeps-read w a) (λ _ w a.
      Keeps-bind _ _
        (Keeps-if w.state.tombstone _ _
          (λ _.
            Keeps-bind _ _
              (Keeps-rescue _ _ (Keeps-bind _ _ (Keeps-read w a) (λ _ w a. a)) (λ _ w a. a))
              (λ readable w a.
                Keeps-if readable _ _ (λ _. Keeps-complete w a)
                  (λ _.
                    Keeps-bind _ _
                      (Holds-best_effort (Atomic p) io (put_tombstone false) w a
                        (Atomic-put_tombstone p false w.state a))
                      (λ _ w a. Keeps-sweep_orphan w a))))
          (λ _. Keeps-sweep_orphan w a))
        (λ changed w a.
          Keeps-if changed _ _
            (λ _. Keeps-bind _ _ (Holds-best_effort (Atomic p) io (λ s. s) w a a) (λ _ w a. a))
            (λ _. a)))
