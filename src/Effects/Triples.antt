-- ===== src/Effects/Triples.antt =====
-- Claims about every end of a run.
use al.Prelude.{◌≡◌, refl, sym, subst, List, Bool, true, false, Option, none, some, if◌then◌else◌}
use al.Effects.{
  Fate, succeeds, fails_before, fails_after, crashes, World, next_fate, later_fates, Run, done,
  failed, crashed, bind, rescue, call, attempt, best_effort, ok_or, check, ensure, to_option,
  no_effect, final,
}

-- `Q` of the result and the state where a run is done, `X` of the state where it fails or dies.
unfoldable pub Holds : {S E A : Type 0} → (A → S → Type 0) → (S → Type 0) → Run S E A → Type 0
Holds Q X (done a w) = Q a w.state
Holds Q X (failed e w) = X w.state
Holds Q X (crashed w) = X w.state

-- `Q` of the result if there is one, and `X` otherwise.
unfoldable pub Maybe : {S A : Type 0} → (A → S → Type 0) → (S → Type 0) → Option A → S → Type 0
Maybe Q X none s = X s
Maybe Q X (some a) s = Q a s

pub Holds-mono :
    {S E A : Type 0} (P Q : A → S → Type 0) (X Y : S → Type 0) (r : Run S E A)
    → ((a : A) (s : S) → P a s → Q a s)
    → ((s : S) → X s → Y s)
    → Holds P X r
    → Holds Q Y r
unfolding Holds
Holds-mono P Q X Y (done a w) k l h = k a w.state h
Holds-mono P Q X Y (failed e w) k l h = l w.state h
Holds-mono P Q X Y (crashed w) k l h = l w.state h

module _ {S E : Type 0} (X : S → Type 0) where
  pub Holds-bind :
      {A B : Type 0} (P : A → S → Type 0) (Q : B → S → Type 0) (r : Run S E A)
      (next : A → World S → Run S E B)
      → Holds P X r
      → ((a : A) (w : World S) → P a w.state → Holds Q X (next a w))
      → Holds Q X (bind r next)
  unfolding Holds bind
  Holds-bind P Q (done a w) next h k = k a w h
  Holds-bind P Q (failed e w) next h k = h
  Holds-bind P Q (crashed w) next h k = h

  pub Holds-rescue :
      {A : Type 0} (Q : A → S → Type 0) (r : Run S E A) (handler : E → World S → Run S E A)
      → Holds Q X r
      → ((e : E) (w : World S) → X w.state → Holds Q X (handler e w))
      → Holds Q X (rescue r handler)
  unfolding Holds rescue
  Holds-rescue Q (done a w) handler h k = h
  Holds-rescue Q (failed e w) handler h k = k e w h
  Holds-rescue Q (crashed w) handler h k = h

  call-Holds :
      (Q : S → Type 0) (f : Fate) (e : E) (effect : S → S) (w : World S)
      → X w.state
      → X (effect w.state)
      → Q (effect w.state)
      → Holds (λ _. Q) X (call f e effect w)
  unfolding Holds call
  call-Holds Q succeeds e effect w before after q = q
  call-Holds Q fails_before e effect w before after q = before
  call-Holds Q fails_after e effect w before after q = after
  call-Holds Q crashes e effect w before after q = before

  pub Holds-attempt :
      (Q : S → Type 0) (e : E) (effect : S → S) (w : World S)
      → X w.state
      → X (effect w.state)
      → Q (effect w.state)
      → Holds (λ _. Q) X (attempt e effect w)
  unfolding attempt
  Holds-attempt Q e effect w before after q =
      call-Holds Q (next_fate w.fates) e effect (record w { fates = later_fates w.fates }) before
        after q

  -- A call that keeps one and the same claim.
  pub Holds-best_effort :
      (e : E) (effect : S → S) (w : World S)
      → X w.state
      → X (effect w.state)
      → Holds (λ _. X) X (best_effort e effect w)
  unfolding best_effort Holds
  Holds-best_effort e effect w before after =
      Holds-rescue (λ _. X) (attempt e effect w) (λ _ w. done tt w)
        (Holds-attempt X e effect w before after after) (λ _ w h. h)

  pub Holds-ok_or :
      {A : Type 0} (e : E) (o : Option A) (w : World S)
      → X w.state
      → Holds (λ a s. (o ≡ some a) × (s ≡ w.state)) X (ok_or e o w)
  unfolding Holds ok_or
  Holds-ok_or e none w x = x
  Holds-ok_or e (some a) w x = (refl, refl)

  pub Holds-check :
      {B : Type 0} (into : B → E) (o : Option B) (w : World S)
      → X w.state
      → Holds (λ _ s. (o ≡ none) × (s ≡ w.state)) X (check into o w)
  unfolding Holds check
  Holds-check into none w x = (refl, refl)
  Holds-check into (some b) w x = x

  pub Holds-ensure :
      (b : Bool) (e : E) (w : World S)
      → X w.state
      → Holds (λ _ s. (b ≡ true) × (s ≡ w.state)) X (ensure b e w)
  unfolding Holds ensure
  Holds-ensure true e w x = (refl, refl)
  Holds-ensure false e w x = x

  pub Holds-to_option :
      {A : Type 0} (Q : A → S → Type 0) (r : Run S E A)
      → Holds Q X r
      → Holds (Maybe Q X) X (to_option r)
  unfolding Holds to_option Maybe
  Holds-to_option Q (done a w) h = h
  Holds-to_option Q (failed e w) h = h
  Holds-to_option Q (crashed w) h = h

  pub Holds-if :
      {A : Type 0} (Q : A → S → Type 0) (b : Bool) (x y : Run S E A)
      → (b ≡ true → Holds Q X x)
      → (b ≡ false → Holds Q X y)
      → Holds Q X (if b then x else y)
  Holds-if Q true x y hx hy = hx refl
  Holds-if Q false x y hx hy = hy refl

  -- A part that leaves the state.
  pub Holds-bind_same :
      {A B : Type 0} (s : S) (P : A → Type 0) (Q : B → S → Type 0) (r : Run S E A)
      (next : A → World S → Run S E B)
      → Holds (λ a t. P a × (t ≡ s)) X r
      → ((a : A) (fates : List Fate)
          → P a
          → Holds Q X (next a (record { state = s; fates = fates })))
      → Holds Q X (bind r next)
  unfolding Holds bind
  Holds-bind_same s P Q (done a v) next (p, same) k =
      subst (λ s. Holds Q X (next a (record { state = s; fates = v.fates }))) (sym same)
        (k a v.fates p)
  Holds-bind_same s P Q (failed e v) next h k = h
  Holds-bind_same s P Q (crashed v) next h k = h

  pub Holds-read :
      (e : E) (w : World S)
      → X w.state
      → Holds (λ _ s. Unit × (s ≡ w.state)) X (attempt e no_effect w)
  unfolding no_effect
  Holds-read e w x = Holds-attempt (λ s. Unit × (s ≡ w.state)) e (λ s. s) w x x (tt, refl)

  -- One and the same claim.
  pub Holds-same :
      {A : Type 0} (s : S) (P : A → Type 0) (r : Run S E A)
      → X s
      → Holds (λ a t. P a × (t ≡ s)) X r
      → Holds (λ _. X) X r
  unfolding Holds
  Holds-same s P (done a w) x (p, same) = subst X (sym same) x
  Holds-same s P (failed e w) x h = h
  Holds-same s P (crashed w) x h = h

  pub Holds-to_option_same :
      {A : Type 0} (r : Run S E A) → Holds (λ _. X) X r → Holds (λ _. X) X (to_option r)
  unfolding Holds to_option
  Holds-to_option_same (done a w) h = h
  Holds-to_option_same (failed e w) h = h
  Holds-to_option_same (crashed w) h = h

  -- What holds at every end holds in the last state.
  pub Holds-final :
      {A : Type 0} (Q : A → S → Type 0) (r : Run S E A)
      → Holds Q X r
      → ((a : A) (s : S) → Q a s → X s)
      → X (final r).state
  unfolding Holds final
  Holds-final Q (done a w) h q = q a w.state h
  Holds-final Q (failed e w) h q = h
  Holds-final Q (crashed w) h q = h
