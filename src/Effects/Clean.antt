-- ===== src/Effects/Clean.antt =====
-- Runs in which no call fails.
use al.Prelude.{◌≡◌, refl, []}
use al.Effects.{World, next_fate, later_fates, Run, done, bind, rescue, call, attempt, best_effort}

-- The run is done, with a result and a state of which `Q` holds, and no failure is left to come.
unfoldable pub Clean : {S E A : Type 0} → (A → S → Type 0) → Run S E A → Type 0
Clean {S} {E} {A} Q r = (a : A) × (w : World S) × (r ≡ done a w) × (w.fates ≡ []) × Q a w.state

module _ {S E : Type 0} where
  pub Clean-bind :
      {A B : Type 0} (P : A → S → Type 0) (Q : B → S → Type 0) (r : Run S E A)
      (next : A → World S → Run S E B)
      → Clean P r
      → ((a : A) (w : World S) → w.fates ≡ [] → P a w.state → Clean Q (next a w))
      → Clean Q (bind r next)
  unfolding Clean bind
  Clean-bind P Q r next (a, w, ends, none_left, p) k =
      let (b, v, ends', left, q) = k a w none_left p in (b, v, rw (ends, bind) ends', left, q)

  pub Clean-rescue :
      {A : Type 0} (Q : A → S → Type 0) (r : Run S E A) (handler : E → World S → Run S E A)
      → Clean Q r
      → Clean Q (rescue r handler)
  unfolding Clean rescue
  Clean-rescue Q r handler (a, w, ends, left, q) = (a, w, rw (ends, rescue) refl, left, q)

  pub Clean-attempt :
      (Q : S → Type 0) (e : E) (effect : S → S) (w : World S)
      → w.fates ≡ []
      → Q (effect w.state)
      → Clean (λ _. Q) (attempt e effect w)
  unfolding Clean attempt next_fate later_fates call
  Clean-attempt Q e effect w h q = rw (h, call) (tt, _, refl, refl, q)

  pub Clean-best_effort :
      (Q : S → Type 0) (e : E) (effect : S → S) (w : World S)
      → w.fates ≡ []
      → Q (effect w.state)
      → Clean (λ _. Q) (best_effort e effect w)
  unfolding best_effort
  Clean-best_effort Q e effect w h q =
      Clean-rescue (λ _. Q) (attempt e effect w) _ (Clean-attempt Q e effect w h q)
