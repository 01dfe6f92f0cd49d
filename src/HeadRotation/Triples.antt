-- ===== src/HeadRotation/Triples.antt =====
-- modules/file_mgr/head_rotation.rs: what holds wherever a run of steps ends.
use al.Prelude.{List, [], ◌∷◌}
use al.HeadRotation.{
  Disk, Cache, World, FileError, Run, done, failed, crashed, bind, Fate, succeeds, fails_before,
  fails_after, crashes, attempt_with, attempt, best_effort_with, best_effort,
}

-- `Q` holds of a result and `E` wherever the run stops early; neither sees the fates to come.
pub Holds : {A : Type 0} → (A → Disk → Cache → Type 0) → (Disk → Cache → Type 0) → Run A → Type 0
Holds Q E (done a w) = Q a w.disk w.cache
Holds Q E (failed e w) = E w.disk w.cache
Holds Q E (crashed w) = E w.disk w.cache

pub done-Holds :
    {A : Type 0} (Q : A → Disk → Cache → Type 0) (E : Disk → Cache → Type 0) (a : A) (w : World)
    → Holds Q E (done a w)
    → Q a w.disk w.cache
unfolding Holds
done-Holds Q E a w h = h

-- The world in which a run ends.
pub final : {A : Type 0} → Run A → World
final (done a w) = w
final (failed e w) = w
final (crashed w) = w

module _ {A : Type 0} (Q : A → Disk → Cache → Type 0) (E : Disk → Cache → Type 0) where
  pub Holds-final :
      (r : Run A)
      → Holds Q E r
      → ((a : A) (d : Disk) (c : Cache) → Q a d c → E d c)
      → E (final r).disk (final r).cache
  unfolding Holds final
  Holds-final (done a w) h q = q a w.disk w.cache h
  Holds-final (failed e w) h q = h
  Holds-final (crashed w) h q = h

  pub Holds-done : (a : A) (w : World) → Q a w.disk w.cache → Holds Q E (done a w)
  unfolding Holds
  Holds-done a w q = q

  pub Holds-failed : (e : FileError) (w : World) → E w.disk w.cache → Holds Q E (failed e w)
  unfolding Holds
  Holds-failed e w h = h

  pub Holds-bind :
      {B : Type 0} (P : B → Disk → Cache → Type 0) (r : Run B) (next : B → World → Run A)
      → Holds P E r
      → ((b : B) (w : World) → P b w.disk w.cache → Holds Q E (next b w))
      → Holds Q E (bind r next)
  unfolding Holds bind
  Holds-bind P (done b w) next h k = k b w h
  Holds-bind P (failed e w) next h k = h
  Holds-bind P (crashed w) next h k = h

module _ (Q : Disk → Cache → Type 0) (E : Disk → Cache → Type 0) where
  attempt_with-Holds :
      (effect : Disk → Disk) (w : World) (fates : List Fate)
      → E w.disk w.cache
      → E (effect w.disk) w.cache
      → Q (effect w.disk) w.cache
      → Holds (λ _. Q) E (attempt_with effect w fates)
  unfolding Holds attempt_with
  attempt_with-Holds effect w [] before after q = q
  attempt_with-Holds effect w (succeeds ∷ fates) before after q = q
  attempt_with-Holds effect w (fails_before ∷ fates) before after q = before
  attempt_with-Holds effect w (fails_after ∷ fates) before after q = after
  attempt_with-Holds effect w (crashes ∷ fates) before after q = before

  pub attempt-Holds :
      (effect : Disk → Disk) (w : World)
      → E w.disk w.cache
      → E (effect w.disk) w.cache
      → Q (effect w.disk) w.cache
      → Holds (λ _. Q) E (attempt effect w)
  unfolding attempt
  attempt-Holds effect w = attempt_with-Holds effect w w.fates

  best_effort_with-Holds :
      (effect : Disk → Disk) (w : World) (fates : List Fate)
      → E w.disk w.cache
      → Q w.disk w.cache
      → Q (effect w.disk) w.cache
      → Holds (λ _. Q) E (best_effort_with effect w fates)
  unfolding Holds best_effort_with
  best_effort_with-Holds effect w [] before q after = after
  best_effort_with-Holds effect w (succeeds ∷ fates) before q after = after
  best_effort_with-Holds effect w (fails_before ∷ fates) before q after = q
  best_effort_with-Holds effect w (fails_after ∷ fates) before q after = after
  best_effort_with-Holds effect w (crashes ∷ fates) before q after = before

  pub best_effort-Holds :
      (effect : Disk → Disk) (w : World)
      → E w.disk w.cache
      → Q w.disk w.cache
      → Q (effect w.disk) w.cache
      → Holds (λ _. Q) E (best_effort effect w)
  unfolding best_effort
  best_effort-Holds effect w = best_effort_with-Holds effect w w.fates
