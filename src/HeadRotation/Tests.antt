-- ===== src/HeadRotation/Tests.antt =====
-- modules/file_mgr/head_rotation.rs: a workspace with two heads, and a third.
use al.Prelude.{◌≡◌, refl, true, Option, none, some, List, [], ◌∷◌, arith}
use al.HeadRotation.{
  HeadId, HeadRecord, HeadManifest, Disk, World, done, succeeds, fails_after, put, is_some,
  new_record, PendingHead, publish_trained_head, without, delete_head,
}
use al.HeadRotation.Triples.{Holds, final}
use al.HeadRotation.Sound.{HasFiles, Absent, Distinct, Good, Sound, Safe, Published}
use al.HeadRotation.Publish.{next, Done, publish_trained_head-Safe}
use al.HeadRotation.Delete.{delete_head-Safe}
use al.HeadRotation.Succeeds.{publish_trained_head-succeeds}
use al.HeadRotation.Sessions.{Session, begin, publish, delete, Session-Sound}

abbrev manifest : HeadId → HeadManifest
manifest id = record {
  head_id = id;
  workspace_id = 7;
  workspace_revision = 1;
  sha256 = [];
  n_classes = 0;
  size_bytes = 100;
  created_at = 5;
  labels = [];
}

abbrev heads : List HeadRecord
heads = new_record (manifest 2) ∷ new_record (manifest 1) ∷ []

abbrev disk : Disk
disk = record {
  mpks = put (put (λ j. none) 1 (some 10)) 2 (some 20);
  manifests = put (put (λ j. none) 1 (some (manifest 1))) 2 (some (manifest 2));
  staged = some 30;
  index = heads;
  head_count = 2;
}

-- The write of the index fails after its effect.
abbrev world : World
world = record {
  disk = disk;
  cache = record { heads = heads; head_count = 2 };
  fates = succeeds ∷ succeeds ∷ succeeds ∷ succeeds ∷ fails_after ∷ [];
}

heads-Good : Good disk heads
unfolding HasFiles Absent Distinct put is_some new_record
heads-Good = record {
  files = ((refl, refl), ((refl, refl), tt));
  distinct = (((λ e. ground arith), tt), (tt, tt));
  few = omega arith;
}

world-Sound : Sound world.disk world.cache
world-Sound = record { index = heads-Good; cached = heads-Good }

abbrev third : PendingHead
third = record { head_id = 3; manifest = manifest 3 }

third-Absent : Absent 3 heads
unfolding Absent new_record
third-Absent = ((λ e. ground arith), ((λ e. ground arith), tt))

abbrev lucky_world : World
lucky_world = record world { fates = [] }

third-staged : is_some lucky_world.disk.staged ≡ true
unfolding is_some
third-staged = refl

publish_trained_head-Safe_example :
    Holds
      (Done third heads heads)
      (Safe heads (next third heads heads))
      (publish_trained_head third world)
publish_trained_head-Safe_example = publish_trained_head-Safe third world world-Sound third-Absent

delete_head-Safe_example :
    Holds
      (λ _. Published (without 2 heads))
      (Safe heads (without 2 heads))
      (delete_head true true 2 world)
delete_head-Safe_example = delete_head-Safe true true 2 world world-Sound

session : Session world (final (delete_head true true 1 (final (publish_trained_head third world))))
session = delete (publish begin third third-Absent) true true 1

Session-Sound_example :
    Sound
      (final (delete_head true true 1 (final (publish_trained_head third world)))).disk
      (final (delete_head true true 1 (final (publish_trained_head third world)))).cache
Session-Sound_example = Session-Sound world _ session world-Sound

publish_trained_head-succeeds_example :
    (displaced : Option HeadId) × (v : World) × (publish_trained_head third lucky_world
      ≡ done displaced v)
    × Done third heads heads displaced v.disk v.cache
publish_trained_head-succeeds_example =
    publish_trained_head-succeeds third lucky_world refl world-Sound third-Absent refl third-staged
