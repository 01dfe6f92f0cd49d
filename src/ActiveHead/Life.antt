-- ===== src/ActiveHead/Life.antt =====
-- modules/api/routes/active.rs, modules/file_mgr/recovery.rs: any history of activations and restarts.
use al.Prelude.{
  ℕ, ◌≡◌, ◌≢◌, refl, sym, ◌∙◌, subst, Bool, true, false, not, Option, none, some, List, [], ◌∷◌,
  leb, any,
}
use al.Effects.{Fate, World, no_effect, final}
use al.Effects.Triples.{
  Holds, Holds-bind, Holds-bind_same, Holds-read, Holds-attempt, Holds-best_effort, Holds-check,
  Holds-rescue, Holds-if, Holds-mono, Holds-final,
}
use al.ActiveHead.{
  Bytes, ActiveHeadManifest, validate_activation_id, Pointer, absent, corrupt, points, Active, io,
  install, remove_files, remove_generation,
}
use al.ActiveHead.Stage.{
  DefaultHeadSource, ActivationOriginInput, prune_entries, prune_old_generations, previous_id,
  post_active,
}
use al.ActiveHead.Recovery.{recover_active_head}
use al.ActiveHead.Steps.{Verified, Serves, Step, installs, clears, removes, elsewhere, Serves-Step}
use al.ActiveHead.Activates.{stage_and_validate_activation-Holds, publish_active_generation-Holds}
use al.ActiveHead.Recovers.{recover_active_head-Holds}
use al.Prelude.Texts.{same_text, same_text_refl}

module _ (digest : Bytes → Bytes) (loads : Option Bytes → Option Bytes → ℕ → Bool) where
  -- The activation is served, and the pointer names its generation, whose manifest is the given one.
  pub record Activated (id : Bytes) (m : ActiveHeadManifest) (s : Active) : Type 0 where
    pub pointer : s.current ≡ points id
    pub runtime : s.runtime ≡ some id
    pub verified : Verified digest s id m

  -- An activation and what was served before it.
  Kept : Bytes → ActiveHeadManifest → Active → Type 0
  Kept id m s = Serves digest s × Activated id m s

  other_pointer :
      (s : Active) (id name : Bytes) → s.current ≡ points id → id ≢ name → s.current ≢ points name
  other_pointer s id name here ne e =
      let same : points id ≡ points name = sym here ∙ e in let same' : id ≡ name = cc in ne same'

  Kept-clears :
      (id name : Bytes) (m : ActiveHeadManifest) (s : Active)
      → id ≢ name
      → Kept id m s
      → Kept id m (remove_files name s)
  unfolding Kept remove_files
  Kept-clears id name m s ne (serves, a) = (
    Serves-Step digest s _ (clears name (other_pointer s id name a.pointer ne)) serves,
    record {
      pointer = a.pointer;
      runtime = a.runtime;
      verified =
          elsewhere digest s (remove_files name s) name id _ m refl (λ e. ne (sym e)) a.verified;
    },
  )

  Kept-removes :
      (id name : Bytes) (m : ActiveHeadManifest) (s : Active)
      → id ≢ name
      → Kept id m s
      → Kept id m (remove_generation name s)
  unfolding Kept remove_generation
  Kept-removes id name m s ne (serves, a) = (
    Serves-Step digest s _ (removes name (other_pointer s id name a.pointer ne)) serves,
    record {
      pointer = a.pointer;
      runtime = a.runtime;
      verified =
          elsewhere digest s (remove_generation name s) name id _ m refl (λ e. ne (sym e))
            a.verified;
    },
  )

  not_kept :
      (id name : Bytes) (previous : List Bytes)
      → any (λ k. same_text k name) (id ∷ previous) ≡ false
      → id ≢ name
  not_kept id name previous e same =
      let self = same_text_refl id in
      let there : same_text id name ≡ true = subst (λ n. same_text id n ≡ true) same self in
      let clash = rw there at e in cc

  prune_entries-Holds :
      (id : Bytes) (m : ActiveHeadManifest) (previous listing : List Bytes) (w : World Active)
      → Kept id m w.state
      → Holds (λ _. Kept id m) (Kept id m) (prune_entries digest loads (id ∷ previous) listing w)
  unfolding prune_entries Holds
  prune_entries-Holds id m previous [] w k = k
  prune_entries-Holds id m previous (name ∷ names) w k =
      let K : Active → Type 0 = Kept id m in
      Holds-bind K (λ _. K) (λ _. K) _ _
        (Holds-if K (λ _. K) (any (λ k. same_text k name) (id ∷ previous)) _ _ (λ _. k)
          (λ out.
            let ne : id ≢ name = not_kept id name previous out in
            Holds-bind_same K w.state _ (λ _. K) _ _ (Holds-read K io w k)
              (λ _ fates _.
                let k' = Kept-clears id name m w.state ne k in
                Holds-bind K (λ _. K) (λ _. K) _ _ (Holds-attempt K K io _ _ k k' k')
                  (λ _ w k.
                    let k' = Kept-removes id name m w.state ne k in
                    Holds-bind K (λ _. K) (λ _. K) _ _ (Holds-attempt K K io _ w k k' k')
                      (λ _ w k. k)))))
        (λ n w k.
          Holds-bind K (λ _. K) (λ _. K) _ _ (prune_entries-Holds id m previous names w k)
            (λ removed w k. k))

  prune_old_generations-Holds :
      (id : Bytes) (m : ActiveHeadManifest) (previous listing : List Bytes) (w : World Active)
      → Kept id m w.state
      → Holds
          (λ _. Kept id m)
          (Kept id m)
          (prune_old_generations digest loads listing (id ∷ previous) w)
  unfolding prune_old_generations no_effect Holds
  prune_old_generations-Holds id m previous listing w k =
      let K : Active → Type 0 = Kept id m in
      Holds-if K (λ _. K) (not w.state.generations_dir) _ _ (λ _. k)
        (λ _.
          Holds-bind_same K w.state _ (λ _. K) _ _ (Holds-read K io w k)
            (λ _ fates _.
              Holds-bind K (λ _. K) (λ _. K) _ _ (prune_entries-Holds id m previous listing _ k)
                (λ removed w k.
                  Holds-if K (λ _. K) (leb 1 removed) _ _
                    (λ _.
                      Holds-bind K (λ _. K) (λ _. K) _ _ (Holds-best_effort K io (λ s. s) w k k)
                        (λ _ w k. k))
                    (λ _. k))))

  previous_id-Holds :
      (X : Active → Type 0) (p : Pointer) (w : World Active)
      → X w.state
      → Holds (λ _. X) X (previous_id digest loads p w)
  unfolding previous_id Holds
  previous_id-Holds X absent w x = x
  previous_id-Holds X corrupt w x = x
  previous_id-Holds X (points id) w x =
      Holds-bind_same X w.state _ (λ _. X) _ _ (Holds-check X _ _ w x) (λ _ fates _. x)

  -- An activation from a state in which the pointer, if there is one, names a generation with a valid
  -- manifest and a head of its hash; calls may fail and the process may die. It ends in such a state;
  -- and if it succeeds, the pointer names the new generation, which has the returned manifest and a
  -- head of its hash, and it is the one that is served. The new id must be one that may name a
  -- directory.
  pub post_active-Activated :
      (listing : List Bytes) (input : ActivationOriginInput) (id now : Bytes) (mtime : ℕ)
      (w : World Active)
      → validate_activation_id id ≡ none
      → Serves digest w.state
      → Holds
          (λ m s. Serves digest s × Activated id m s)
          (Serves digest)
          (post_active digest loads listing input id now mtime w)
  unfolding post_active Holds install Kept
  post_active-Activated listing input id now mtime w named serves =
      let X : Active → Type 0 = Serves digest in
      let X-Step : (s t : Active) → Step digest s t → X s → X t = Serves-Step digest in
      Holds-bind_same X w.state _ _ _ _ (Holds-read X io w serves) (λ _ fates _.
        Holds-bind X (λ _. X) _ _ _ (previous_id-Holds X _ _ serves)
          (λ previous w x.
            Holds-bind X _ _ _ _
              (stage_and_validate_activation-Holds digest loads X X-Step input id now mtime w x)
              (λ m w (x, ready).
                Holds-bind X _ _ _ _
                  (publish_active_generation-Holds digest loads X X-Step id m w x named ready)
                  (λ _ w (x, here, served).
                    let k : Kept id m (install id w.state) = (
                      X-Step w.state _ (installs id) x,
                      record {
                        pointer = here;
                        runtime = refl;
                        verified = record { whole = served.verified.whole; named = named };
                      },
                    ) in
                    let K : Active → Type 0 = Kept id m in
                    Holds-bind X (λ _. K) _ _ _
                      (Holds-mono (λ _. K) (λ _. K) K X _ (λ _ s k. k) (λ s k. k.0)
                        (Holds-rescue K (λ _. K) _ _
                          (Holds-bind K (λ _. K) (λ _. K) _ _
                            (prune_old_generations-Holds id m previous listing _ k) (λ _ w k. k))
                          (λ _ w k. k)))
                      (λ _ w k. k)))))

  -- `luck` is what becomes of the calls to come, `activate` a request, and `boot` the recovery of a
  -- process that starts, each with what `read_dir` lists.
  pub data Life (w : World Active) : World Active → Type 0 where
    begin : Life w w
    luck : {v : World Active} → Life w v → (fates : List Fate) → Life w (record v { fates = fates })
    activate :
        {v : World Active}
        → Life w v
        → (listing : List Bytes) (input : ActivationOriginInput) (id now : Bytes) (mtime : ℕ)
        → validate_activation_id id ≡ none
        → Life w (final (post_active digest loads listing input id now mtime v))
    boot :
        {v : World Active}
        → Life w v
        → (listing : List Bytes) (default_head : Option DefaultHeadSource) (id now : Bytes)
          (mtime : ℕ)
        → validate_activation_id id ≡ none
        → Life w (final (recover_active_head digest loads listing default_head id now mtime v))

  -- In any history of activations and restarts, whatever calls fail and wherever the process dies:
  -- the pointer, if there is one, names a generation with a valid manifest and a head of its hash. It
  -- must be so at the start.
  pub Life-Serves : (w v : World Active) → Life w v → Serves digest w.state → Serves digest v.state
  Life-Serves w v begin s = s
  Life-Serves w v (luck {v = u} l fates) s = Life-Serves w u l s
  Life-Serves w v (activate {v = u} l listing input id now mtime named) s =
      Holds-final (Serves digest) _ (post_active digest loads listing input id now mtime u)
        (post_active-Activated listing input id now mtime u named (Life-Serves w u l s))
        (λ m s h. h.0)
  Life-Serves w v (boot {v = u} l listing default_head id now mtime named) s =
      Holds-final (Serves digest) _
        (recover_active_head digest loads listing default_head id now mtime u)
        (recover_active_head-Holds digest loads (Serves digest) (Serves-Step digest) listing
          default_head id now mtime named u (Life-Serves w u l s))
        (λ r s h. h.0)
