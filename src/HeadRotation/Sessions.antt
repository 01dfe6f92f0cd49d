-- ===== src/HeadRotation/Sessions.antt =====
-- modules/file_mgr/head_rotation.rs: any sequence of publications, deletions and restarts.
use al.Prelude.{ℕ, refl, Bool, some, List}
use al.HeadRotation.{HeadId, Disk, World, Fate, PendingHead, publish_trained_head, delete_head}
use al.HeadRotation.Triples.{final, Holds-final}
use al.HeadRotation.Sound.{Absent, Sound, Published-Safe, Good-same}
use al.HeadRotation.Publish.{publish_trained_head-Safe}
use al.HeadRotation.Delete.{delete_head-Safe}

-- `stage` is a caller that stages an artifact, `restart` a process that loads the cache from the disk
-- after a crash, and `luck` what becomes of the calls to come.
pub data Session (w : World) : World → Type 0 where
  begin : Session w w
  stage :
      {v : World}
      → Session w v
      → (blob : ℕ) → Session w (record v { disk = record v.disk { staged = some blob } })
  restart :
      {v : World}
      → Session w v
      → Session w
          (record v { cache = record { heads = v.disk.index; head_count = v.disk.head_count } })
  luck : {v : World} → Session w v → (fates : List Fate) → Session w (record v { fates = fates })
  publish :
      {v : World}
      → Session w v
      → (pending : PendingHead) → Absent pending.head_id v.cache.heads
      → Session w (final (publish_trained_head pending v))
  delete :
      {v : World}
      → Session w v
      → (exists admitted : Bool) (id : HeadId)
      → Session w (final (delete_head exists admitted id v))

-- Whatever fails and wherever the process dies and restarts, in any sequence of publications with
-- new ids and deletions from a sound index and cache: the index on the disk and the cache name at
-- most two heads, of different ids, and each of them has both of its files.
pub Session-Sound : (w v : World) → Session w v → Sound w.disk w.cache → Sound v.disk v.cache
Session-Sound w v begin h = h
Session-Sound w v (stage {v = u} s blob) h =
    let sound = Session-Sound w u s h in
    let d : Disk = record u.disk { staged = some blob } in
    record {
      index = Good-same u.disk d refl refl u.disk.index sound.index;
      cached = Good-same u.disk d refl refl u.cache.heads sound.cached;
    }
Session-Sound w v (restart {v = u} s) h =
    let sound = Session-Sound w u s h in record { index = sound.index; cached = sound.index }
Session-Sound w v (luck {v = u} s fates) h =
    let sound = Session-Sound w u s h in record { index = sound.index; cached = sound.cached }
Session-Sound w v (publish {v = u} s pending absent) h =
    let sound = Session-Sound w u s h in
    (Holds-final _ _ (publish_trained_head pending u)
      (publish_trained_head-Safe pending u sound absent)
      (λ a d c p. Published-Safe _ _ d c p.0)).sound
Session-Sound w v (delete {v = u} s exists admitted id) h =
    let sound = Session-Sound w u s h in
    (Holds-final _ _ (delete_head exists admitted id u)
      (delete_head-Safe exists admitted id u sound) (λ a d c p. Published-Safe _ _ d c p)).sound
