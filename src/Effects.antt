-- ===== src/Effects.antt =====
-- Calls of the file system that may fail, and at which the process may die.
pub mod Triples
pub mod Clean
use al.Prelude.{Bool, true, false, Option, none, some, List, [], ◌∷◌}

-- What becomes of a call.
pub data Fate : Type 0 where
  succeeds fails_before fails_after crashes : Fate

-- `fates` are those of the calls to come; beyond them all succeed.
pub record World (S : Type 0) : Type 0 where
  pub state : S
  pub fates : List Fate

unfoldable pub next_fate : List Fate → Fate
next_fate [] = succeeds
next_fate (f ∷ fs) = f

unfoldable pub later_fates : List Fate → List Fate
later_fates [] = []
later_fates (f ∷ fs) = fs

pub data Run (S E A : Type 0) : Type 0 where
  done : A → World S → Run S E A
  failed : E → World S → Run S E A
  crashed : World S → Run S E A

module _ {S E : Type 0} where
  unfoldable pub bind : {A B : Type 0} → Run S E A → (A → World S → Run S E B) → Run S E B
  bind (done a w) next = next a w
  bind (failed e w) next = failed e w
  bind (crashed w) next = crashed w

  -- The handler of an error.
  unfoldable pub rescue : {A : Type 0} → Run S E A → (E → World S → Run S E A) → Run S E A
  rescue (done a w) handler = done a w
  rescue (failed e w) handler = handler e w
  rescue (crashed w) handler = crashed w

  unfoldable pub call : Fate → E → (S → S) → World S → Run S E Unit
  call succeeds e effect w = done tt (record w { state = effect w.state })
  call fails_before e effect w = failed e w
  call fails_after e effect w = failed e (record w { state = effect w.state })
  call crashes e effect w = crashed w

  -- A call whose failure is returned.
  unfoldable pub attempt : E → (S → S) → World S → Run S E Unit
  attempt e effect w = call (next_fate w.fates) e effect (record w { fates = later_fates w.fates })

  -- A call whose failure is only logged.
  unfoldable pub best_effort : E → (S → S) → World S → Run S E Unit
  best_effort e effect w = rescue (attempt e effect w) (λ _ w. done tt w)

  -- `ok_or(e)?`
  unfoldable pub ok_or : {A : Type 0} → E → Option A → World S → Run S E A
  ok_or e none w = failed e w
  ok_or e (some a) w = done a w

  -- A validation's `?`, with the conversion of its error.
  unfoldable pub check : {B : Type 0} → (B → E) → Option B → World S → Run S E Unit
  check into none w = done tt w
  check into (some b) w = failed (into b) w

  unfoldable pub ensure : Bool → E → World S → Run S E Unit
  ensure true e w = done tt w
  ensure false e w = failed e w

  -- `ok()`, where the error is only logged.
  unfoldable pub to_option : {A : Type 0} → Run S E A → Run S E (Option A)
  to_option (done a w) = done (some a) w
  to_option (failed e w) = done none w
  to_option (crashed w) = crashed w

-- A call that changes nothing: a read, or a directory's fsync.
unfoldable pub no_effect : {S : Type 0} → S → S
no_effect s = s

-- The world in which a run ends.
unfoldable pub final : {S E A : Type 0} → Run S E A → World S
final (done a w) = w
final (failed e w) = w
final (crashed w) = w
