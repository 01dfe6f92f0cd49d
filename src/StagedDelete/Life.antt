-- ===== src/StagedDelete/Life.antt =====
-- modules/file_mgr/staging.rs, recovery.rs: any history of a delete, with failures and restarts.
use al.Prelude.{ℕ, Bool, List}
use al.Effects.{Fate, World, final}
use al.Effects.Triples.{Holds-final}
use al.StagedDelete.Protocol.{Payload, Staging, start_delete, drain_to_completion, walk_staging}
use al.StagedDelete.Atomic.{Atomic}
use al.StagedDelete.Keeps.{Keeps-start_delete, Keeps-drain_to_completion, Keeps-walk_staging}

-- `luck` is what becomes of the calls to come; `start` a caller that begins the delete, `work` its
-- worker, and `boot` the recovery of a process that starts.
pub data Life (w : World Staging) : World Staging → Type 0 where
  begin : Life w w
  luck : {v : World Staging} → Life w v → (fates : List Fate) → Life w (record v { fates = fates })
  start : {v : World Staging} → Life w v → (exists : Bool) → Life w (final (start_delete exists v))
  work : {v : World Staging} → Life w v → (iters : ℕ) → Life w (final (drain_to_completion iters v))
  boot : {v : World Staging} → Life w v → Life w (final (walk_staging v))

-- In any history of a delete, whatever calls fail and wherever the process dies: the target is in
-- place and whole, with nothing of it staged, or it is not in place, and what is staged are remains
-- of it. It must be so at the start.
pub Life-Atomic :
    (p : Payload) (w v : World Staging) → Life w v → Atomic p w.state → Atomic p v.state
Life-Atomic p w v begin a = a
Life-Atomic p w v (luck {v = u} l fates) a = Life-Atomic p w u l a
Life-Atomic p w v (start {v = u} l exists) a =
    Holds-final (Atomic p) (λ _. Atomic p) (start_delete exists u)
      (Keeps-start_delete p exists u (Life-Atomic p w u l a)) (λ _ s h. h)
Life-Atomic p w v (work {v = u} l iters) a =
    Holds-final (Atomic p) (λ _. Atomic p) (drain_to_completion iters u)
      (Keeps-drain_to_completion p iters u (Life-Atomic p w u l a)) (λ _ s h. h)
Life-Atomic p w v (boot {v = u} l) a =
    Holds-final (Atomic p) (λ _. Atomic p) (walk_staging u)
      (Keeps-walk_staging p u (Life-Atomic p w u l a)) (λ _ s h. h)
