-- ===== src/StagedDelete/Recovers.antt =====
-- modules/file_mgr/staging.rs, recovery.rs, registry.rs: recovery and deletes that no call disturbs.
use al.Prelude.{ℕ, suc, ◌*◌, ◌≤◌, ◌≡◌, refl, sym, ◌∙◌, subst, true, false, []}
use al.Effects.{World, no_effect}
use al.Effects.Clean.{Clean, Clean-bind, Clean-rescue, Clean-attempt, Clean-best_effort}
use al.StagedDelete.Protocol.{
  Payload, missing, Staging, io, is_missing, put_tombstone, put_stage_dir, put_payload,
  rename_target, write_tombstone, stage_payload, start_delete, drain_loop, drain_to_completion,
  delete_workspace, max_iters, complete, sweep_orphan, walk_staging,
}
use al.StagedDelete.Atomic.{Atomic}
use al.StagedDelete.Settles.{
  payload_size, Emptying, drain_loop_lem, Clean-if, Settled, finalize_lem,
}

max_iters_lem : suc 999_999 ≡ max_iters
unfolding max_iters
max_iters_lem = refl

-- Before a recovery.
record Ready (t : Payload) (s : Staging) : Type 0 where
  target : s.target ≡ t
  housed : s.stage_dir ≡ false → s.payload ≡ missing
  enough : payload_size s.payload ≤ 256_000_000

complete_lem :
    (t : Payload) (w : World Staging)
    → w.fates ≡ []
    → Ready t w.state
    → Clean (λ _. Settled t) (complete w)
unfolding complete Clean
complete_lem t w f r =
    Clean-rescue (λ _. Settled t) _ _
      (Clean-bind (Emptying w.state) (λ _. Settled t) _ _
        (subst (λ n. Clean (Emptying w.state) (drain_loop n w)) max_iters_lem
          (drain_loop_lem 999_999 w f r.enough))
        (λ drain_ok w f q.
          Clean-if (λ _. Settled t) drain_ok _ _
            (λ _.
              Clean-bind (λ _. Settled t) (λ _. Settled t) _ _
                (finalize_lem t w f (q.target ∙ r.target) q.emptied)
                (λ _ w f h. (true, w, refl, f, h)))
            (λ e. let clash : true ≡ false = sym q.is_done ∙ e in cc)))

-- Before the sweep: no tombstone, and a payload only in a stage directory.
record Orphan (t : Payload) (s : Staging) : Type 0 where
  target : s.target ≡ t
  tombstone : s.tombstone ≡ false
  housed : s.stage_dir ≡ false → s.payload ≡ missing

sweep_orphan_lem :
    (t : Payload) (w : World Staging)
    → w.fates ≡ []
    → Orphan t w.state
    → Clean (λ _. Settled t) (sweep_orphan w)
unfolding sweep_orphan put_payload put_stage_dir Clean
sweep_orphan_lem t w f o =
    Clean-if (λ _. Settled t) w.state.stage_dir _ _
      (λ _.
        Clean-rescue (λ _. Settled t) _ _
          (Clean-bind (λ _. Settled t) (λ _. Settled t) _ _
            (Clean-attempt (Settled t) io _ w f (record {
              target = o.target;
              tombstone = o.tombstone;
              stage_dir = refl;
              payload = refl;
            }))
            (λ _ w f h. (true, w, refl, f, h))))
      (λ e. (
        false,
        w,
        refl,
        f,
        record { target = o.target; tombstone = o.tombstone; stage_dir = e; payload = o.housed e },
      ))

-- A recovery in which no call fails, of a payload of at most 256000000 entries: the target is as
-- before, and nothing is staged any more, neither a payload nor its directory nor a tombstone. The
-- state must be one that a history of deletes leads to.
pub walk_staging-Settled :
    (p : Payload) (w : World Staging)
    → w.fates ≡ []
    → Atomic p w.state
    → payload_size w.state.payload ≤ 256_000_000
    → Clean (λ _. Settled w.state.target) (walk_staging w)
unfolding walk_staging no_effect Clean
walk_staging-Settled p w f a enough =
    let t = w.state.target in
    Clean-bind (λ _. Ready t) (λ _. Settled t) _ _
      (Clean-attempt (Ready t) io (λ s. s) w f
        (record { target = refl; housed = a.housed; enough = enough }))
      (λ _ w f r.
        Clean-bind (λ _. Settled t) (λ _. Settled t) _ _
          (Clean-if (λ _. Settled t) w.state.tombstone _ _
            (λ _.
              Clean-bind (λ readable s. (readable ≡ true) × Ready t s) (λ _. Settled t) _ _
                (Clean-rescue (λ readable s. (readable ≡ true) × Ready t s) _ _
                  (Clean-bind (λ _. Ready t) (λ readable s. (readable ≡ true) × Ready t s) _ _
                    (Clean-attempt (Ready t) io (λ s. s) w f r)
                    (λ _ w f r. (true, w, refl, f, (refl, r)))))
                (λ readable w f h.
                  Clean-if (λ _. Settled t) readable _ _ (λ _. complete_lem t w f h.1)
                    (λ e. let clash : true ≡ false = sym h.0 ∙ e in cc)))
            (λ e.
              sweep_orphan_lem t w f
                (record { target = r.target; tombstone = e; housed = r.housed })))
          (λ changed w f h.
            Clean-if (λ _. Settled t) changed _ _
              (λ _.
                Clean-bind (λ _. Settled t) (λ _. Settled t) _ _
                  (Clean-best_effort (Settled t) io (λ s. s) w f h)
                  (λ _ w f h. (true, w, refl, f, h)))
              (λ _. (false, w, refl, f, h))))

-- The target is in the staging directory.
record Staged (p : Payload) (s : Staging) : Type 0 where
  target : s.target ≡ missing
  payload : s.payload ≡ p

start_delete_lem :
    (p : Payload) (w : World Staging)
    → w.fates ≡ []
    → w.state.target ≡ p
    → is_missing p ≡ false
    → Clean (λ _. Staged p) (start_delete true w)
unfolding start_delete write_tombstone stage_payload no_effect put_tombstone put_stage_dir
    rename_target
start_delete_lem p w f here there =
    let Here : Staging → Type 0 = λ s. s.target ≡ p in
    Clean-bind (λ _. Here) (λ _. Staged p) _ _
      (Clean-bind (λ _. Here) (λ _. Here) _ _ (Clean-attempt Here io (λ s. s) w f here)
        (λ _ w f h. Clean-attempt Here io _ w f h))
      (λ _ w f h.
        Clean-bind (λ _. Here) (λ _. Staged p) _ _ (Clean-attempt Here io _ w f h)
          (λ _ w f h.
            Clean-bind (λ _. Here) (λ _. Staged p) _ _ (Clean-attempt Here io (λ s. s) w f h)
              (λ _ w f h.
                Clean-if (λ _. Staged p) (is_missing w.state.target) _ _
                  (λ e.
                    let clash : is_missing p ≡ true = subst (λ q. is_missing q ≡ true) h e in cc)
                  (λ _.
                    Clean-bind (λ _. Staged p) (λ _. Staged p) _ _
                      (Clean-attempt (Staged p) io _ w f (record { target = refl; payload = h }))
                      (λ _ w f s.
                        Clean-bind (λ _. Staged p) (λ _. Staged p) _ _
                          (Clean-attempt (Staged p) io (λ s. s) w f s)
                          (λ _ w f s. Clean-attempt (Staged p) io (λ s. s) w f s))))))

-- A delete in which no call fails, of a workspace of at most 256 entries for each batch that the
-- caller allows: the target is gone, and nothing is staged any more.
pub delete_workspace-Settled :
    (p : Payload) (iters : ℕ) (w : World Staging)
    → w.fates ≡ []
    → w.state.target ≡ p
    → is_missing p ≡ false
    → payload_size p ≤ 256 * suc iters
    → Clean (λ _. Settled missing) (delete_workspace (suc iters) true w)
unfolding delete_workspace drain_to_completion
delete_workspace-Settled p iters w f here there enough =
    Clean-bind (λ _. Staged p) (λ _. Settled missing) _ _ (start_delete_lem p w f here there)
      (λ _ w f s.
        Clean-bind (Emptying w.state) (λ _. Settled missing) _ _
          (drain_loop_lem iters w f
            (subst (λ q. payload_size q ≤ 256 * suc iters) (sym s.payload) enough))
          (λ _ w f q. finalize_lem missing w f (q.target ∙ s.target) q.emptied))
