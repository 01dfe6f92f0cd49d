-- ===== src/ActiveHead/Recovers.antt =====
-- modules/file_mgr/recovery.rs: what a recovery of the active head returns.
use al.Prelude.{ℕ, ◌≡◌, refl, Bool, not, Option, none, some, List, [], ◌∷◌}
use al.Effects.{World, done, bind, attempt, best_effort, no_effect, to_option}
use al.Effects.Triples.{
  Holds, Holds-bind, Holds-bind_same, Holds-read, Holds-attempt, Holds-best_effort, Holds-ok_or,
  Holds-check, Holds-rescue, Holds-to_option, Holds-to_option_same, Holds-same, Holds-if,
  Holds-mono, Maybe,
}
use al.ActiveHead.{
  Bytes, ActiveHeadManifest, validate_activation_id, Generation, Pointer, absent, corrupt, points,
  Active, io, put_labels, write_current,
}
use al.ActiveHead.Stage.{DefaultHeadSource, default_input}
use al.ActiveHead.Recovery.{
  RecoveryActiveResult, current, promoted_previous, defaulted_from_bundle, unhealthy, Candidate,
  sort, is_current, candidate, activate_bundled_default, collect, try_candidates,
  promote_or_default, recover_pointed, recover_active_head, read_pointer, is_present,
}
use al.ActiveHead.Steps.{Step, points_at, labels}
use al.ActiveHead.Checks.{Served, read_active_manifest-Holds, verify_generation-Holds}
use al.ActiveHead.Activates.{stage_and_validate_activation-Holds, publish_active_generation-Holds}

module _ (digest : Bytes → Bytes) (loads : Option Bytes → Option Bytes → ℕ → Bool) where
  -- The pointer names the generation, and it is there with the manifest.
  pub record Installed (s : Active) (id : Bytes) (m : ActiveHeadManifest) : Type 0 where
    pub pointer : s.current ≡ points id
    pub served : Served digest loads s id m

  unfoldable pub Recovered : RecoveryActiveResult → Active → Type 0
  Recovered (current id m) s = Installed s id m
  Recovered (promoted_previous id m) s = Installed s id m
  Recovered (defaulted_from_bundle id m) s = Installed s id m
  Recovered unhealthy s = Unit

  unfoldable pub Found : Option (Bytes × ActiveHeadManifest) → Active → Type 0
  Found none s = Unit
  Found (some (id, m)) s = Installed s id m

  write_current-Served :
      (s : Active) (id : Bytes) (m : ActiveHeadManifest)
      → Served digest loads s id m
      → Installed (write_current id s) id m
  unfolding write_current
  write_current-Served s id m v = record {
    pointer = refl;
    served = record {
      verified = record { whole = v.verified.whole; named = v.verified.named };
      labelled = v.labelled;
    };
  }

  module _ (X : Active → Type 0) (X-Step : (s t : Active) → Step digest s t → X s → X t) where
    X-put_labels : (s : Active) (id text : Bytes) → X s → X (put_labels id text s)
    X-put_labels s id text x = X-Step s _ (labels id text) x

    activate_bundled_default-Holds :
        (default_head : Option DefaultHeadSource) (id now : Bytes) (mtime : ℕ) (w : World Active)
        → X w.state
        → validate_activation_id id ≡ none
        → Holds
            (λ r s. X s × Recovered r s)
            X
            (activate_bundled_default digest loads default_head id now mtime w)
    unfolding activate_bundled_default Recovered Holds
    activate_bundled_default-Holds none id now mtime w x named = (x, tt)
    activate_bundled_default-Holds (some source) id now mtime w x named =
        Holds-rescue X _ _ _
          (Holds-bind X _ _ _ _
            (stage_and_validate_activation-Holds digest loads X X-Step (default_input source) id now
              mtime w x)
            (λ m w (x, ready).
              Holds-bind X _ _ _ _
                (publish_active_generation-Holds digest loads X X-Step id m w x named ready)
                (λ _ w (x, here, served). (x, record { pointer = here; served = served }))))
          (λ e w x. (x, tt))

    candidate-Holds :
        (name : Bytes) (o : Option Generation) (w : World Active)
        → X w.state
        → Holds (λ _ s. X s) X (candidate name o w)
    unfolding candidate Holds
    candidate-Holds name none w x = x
    candidate-Holds name (some g) w x =
        Holds-bind X (λ _ s. X s) _ _ _
          (Holds-to_option_same X _
            (Holds-same X w.state _ _ x (read_active_manifest-Holds digest loads X name w x)))
          (λ _ w x. x)

    collect-Holds :
        (current_id : Option Bytes) (listing : List Bytes) (w : World Active)
        → X w.state
        → Holds (λ _ s. X s) X (collect digest loads current_id listing w)
    unfolding collect Holds
    collect-Holds current_id [] w x = x
    collect-Holds current_id (name ∷ names) w x =
        Holds-bind X (λ _ s. X s) _ _ _
          (Holds-if X (λ _ s. X s) (is_current current_id name) _ _ (λ _. x)
            (λ _.
              Holds-bind X (λ _ s. X s) _ _ _
                (Holds-to_option_same X _ (
                  Holds-bind_same X w.state _ (λ _. X) _ _ (Holds-read X io w x)
                    (λ _ fates _. Holds-same X w.state _ _ x (Holds-ok_or X io _ _ x))))
                (λ metadata w x. candidate-Holds name metadata w x)))
          (λ c w x.
            Holds-bind X (λ _ s. X s) _ _ _ (collect-Holds current_id names w x) (λ cs w x. x))

    promoted :
        (id : Bytes) (m : ActiveHeadManifest) (w : World Active)
        → X w.state
        → Served digest loads w.state id m
        → Holds
            (λ o s. X s × Found o s)
            X
            (bind
              (attempt io (write_current id) w)
              (λ _ w. bind (best_effort io no_effect w) (λ _ w. done (some (id, m)) w)))
    unfolding Holds Found no_effect
    promoted id m w x v =
        let Q : Active → Type 0 = λ s. X s × Installed s id m in
        let x' = X-Step w.state _ (points_at id m v.verified) x in
        Holds-bind X (λ _. Q) _ _ _
          (Holds-attempt X Q io _ w x x' (x', write_current-Served w.state id m v))
          (λ _ w q.
            Holds-bind X (λ _. Q) _ _ _
              (Holds-mono (λ _. Q) (λ _. Q) Q X _ (λ _ s q. q) (λ s q. q.0)
                (Holds-best_effort Q io (λ s. s) w q q))
              (λ _ w q. q))

    tried :
        (outcome : Option ActiveHeadManifest) (id : Bytes) (cs : List Candidate) (w : World Active)
        → Maybe (λ m s. X s × Served digest loads s id m) X outcome w.state
        → ((w : World Active)
            → X w.state
            → Holds (λ o s. X s × Found o s) X (try_candidates digest loads cs w))
        → Holds
            (λ o s. X s × Found o s)
            X
            (elim outcome [
              | some m ↦
                  bind
                    (attempt io (write_current id) w)
                    (λ _ w. bind (best_effort io no_effect w) (λ _ w. done (some (id, m)) w))
              | none ↦ try_candidates digest loads cs w
            ])
    unfolding Maybe
    tried none id cs w x rest = rest w x
    tried (some m) id cs w (x, v) rest = promoted id m w x v

    try_candidates-Holds :
        (cs : List Candidate) (w : World Active)
        → X w.state
        → Holds (λ o s. X s × Found o s) X (try_candidates digest loads cs w)
    unfolding try_candidates Holds Found
    try_candidates-Holds [] w x = (x, tt)
    try_candidates-Holds (c ∷ cs) w x =
        Holds-bind X _ (λ o s. X s × Found o s) _ _
          (verify_generation-Holds digest loads X X-put_labels c.name w x)
          (λ outcome w h. tried outcome c.name cs w h (λ w x. try_candidates-Holds cs w x))

    or_default :
        (found : Option (Bytes × ActiveHeadManifest)) (default_head : Option DefaultHeadSource)
        (id now : Bytes) (mtime : ℕ) (w : World Active)
        → X w.state
        → Found found w.state
        → validate_activation_id id ≡ none
        → Holds
            (λ r s. X s × Recovered r s)
            X
            (elim found [
              | some (name, manifest) ↦ done (promoted_previous name manifest) w
              | none ↦ activate_bundled_default digest loads default_head id now mtime w
            ])
    unfolding Found Holds Recovered
    or_default none default_head id now mtime w x f named =
        activate_bundled_default-Holds default_head id now mtime w x named
    or_default (some (name, m)) default_head id now mtime w x f named = (x, f)

    promote_or_default-Holds :
        (listing : List Bytes) (current_id : Option Bytes) (default_head : Option DefaultHeadSource)
        (id now : Bytes) (mtime : ℕ) (w : World Active)
        → X w.state
        → validate_activation_id id ≡ none
        → Holds
            (λ r s. X s × Recovered r s)
            X
            (promote_or_default digest loads listing current_id default_head id now mtime w)
    unfolding promote_or_default
    promote_or_default-Holds listing current_id default_head id now mtime w x named =
        Holds-if X (λ r s. X s × Recovered r s) (not w.state.generations_dir) _ _
          (λ _. activate_bundled_default-Holds default_head id now mtime w x named)
          (λ _.
            Holds-bind_same X w.state _ (λ r s. X s × Recovered r s) _ _ (Holds-read X io w x)
              (λ _ fates _.
                Holds-bind X (λ _ s. X s) _ _ _ (collect-Holds current_id listing _ x)
                  (λ candidates w x.
                    Holds-bind X _ (λ r s. X s × Recovered r s) _ _
                      (try_candidates-Holds (sort candidates) w x)
                      (λ found w (x, f). or_default found default_head id now mtime w x f named))))

    -- The parameters of a recovery, but for the pointer.
    module _ (listing : List Bytes) (default_head : Option DefaultHeadSource) (id now : Bytes)
        (mtime : ℕ) (named : validate_activation_id id ≡ none) where
      current_or :
          (activation_id : Bytes) (outcome : Option ActiveHeadManifest) (w : World Active)
          → Maybe
              (λ m s.
                (X s × (s.current ≡ points activation_id)) × Served digest loads s activation_id m)
              (λ s. X s × (s.current ≡ points activation_id))
              outcome
              w.state
          → Holds
              (λ r s. X s × Recovered r s)
              X
              (elim outcome [
                | some manifest ↦ done (current activation_id manifest) w
                | none ↦
                    promote_or_default digest loads listing
                      (some activation_id)
                      default_head
                      id
                      now
                      mtime
                      w
              ])
      unfolding Maybe Holds Recovered
      current_or activation_id none w (x, here) =
          promote_or_default-Holds listing (some activation_id) default_head id now mtime w x named
      current_or activation_id (some m) w ((x, here), served) =
          (x, record { pointer = here; served = served })

      recover_pointed-Holds :
          (activation_id : Bytes) (w : World Active)
          → X w.state
          → w.state.current ≡ points activation_id
          → Holds
              (λ r s. X s × Recovered r s)
              X
              (recover_pointed digest loads listing default_head id now mtime activation_id w)
      unfolding recover_pointed put_labels
      recover_pointed-Holds activation_id w x here =
          let Y : Active → Type 0 = λ s. X s × (s.current ≡ points activation_id) in
          Holds-bind X (Maybe (λ m s. Y s × Served digest loads s activation_id m) Y)
            (λ r s. X s × Recovered r s) _ _
            (Holds-mono _ _ Y X _ (λ m s h. h) (λ s y. y.0)
              (verify_generation-Holds digest loads Y
                (λ s id text y. (X-put_labels s id text y.0, y.1)) activation_id w (x, here)))
            (λ outcome w h. current_or activation_id outcome w h)

      read_pointer-Holds :
          (p : Pointer) (w : World Active)
          → X w.state
          → w.state.current ≡ p
          → Holds (λ i s. X s × (s.current ≡ points i)) X (read_pointer p w)
      unfolding Holds read_pointer
      read_pointer-Holds absent w x e = x
      read_pointer-Holds corrupt w x e = x
      read_pointer-Holds (points i) w x e =
          Holds-bind_same X w.state _ _ _ _ (Holds-check X _ _ w x) (λ _ fates _. (x, e))

      pointed_or :
          (pointer : Option Bytes) (w : World Active)
          → Maybe (λ i s. X s × (s.current ≡ points i)) X pointer w.state
          → Holds
              (λ r s. X s × Recovered r s)
              X
              (elim pointer [
                | some activation_id ↦
                    recover_pointed digest loads listing default_head id now mtime activation_id w
                | none ↦ promote_or_default digest loads listing none default_head id now mtime w
              ])
      unfolding Maybe
      pointed_or none w x =
          promote_or_default-Holds listing none default_head id now mtime w x named
      pointed_or (some i) w (x, here) = recover_pointed-Holds i w x here

      read_or :
          (w : World Active)
          → X w.state
          → Holds
              (λ r s. X s × Recovered r s)
              X
              (bind
                (to_option (bind (attempt io no_effect w) (λ _ w. read_pointer w.state.current w)))
                (λ pointer w. elim pointer [
                  | some activation_id ↦
                      recover_pointed digest loads listing default_head id now mtime activation_id w
                  | none ↦ promote_or_default digest loads listing none default_head id now mtime w
                ]))
      read_or w x =
          Holds-bind X (Maybe (λ i s. X s × (s.current ≡ points i)) X) (λ r s. X s × Recovered r s)
            _ _
            (Holds-to_option X _ _ (
              Holds-bind_same X w.state _ _ _ _ (Holds-read X io w x)
                (λ _ fates _. read_pointer-Holds _ _ x refl)))
            (λ pointer w h. pointed_or pointer w h)

      pub recover_active_head-Holds :
          (w : World Active)
          → X w.state
          → Holds
              (λ r s. X s × Recovered r s)
              X
              (recover_active_head digest loads listing default_head id now mtime w)
      unfolding recover_active_head
      recover_active_head-Holds w x =
          Holds-if X (λ r s. X s × Recovered r s) (not (is_present w.state.current)) _ _
            (λ _. activate_bundled_default-Holds default_head id now mtime w x named)
            (λ _. read_or w x)

  -- Whatever is on the disk, and whatever calls fail: a recovery that returns an activation has the
  -- pointer name it, and its generation is there with a valid manifest, a head of the manifest's
  -- hash, and labels of the manifest's hash or made from its list. The id for a new activation must
  -- be one that may name a directory.
  pub recover_active_head-Recovered :
      (listing : List Bytes) (default_head : Option DefaultHeadSource) (id now : Bytes) (mtime : ℕ)
      (w : World Active)
      → validate_activation_id id ≡ none
      → Holds Recovered
          (λ _. Unit)
          (recover_active_head digest loads listing default_head id now mtime w)
  recover_active_head-Recovered listing default_head id now mtime w named =
      Holds-mono _ _ (λ _. Unit) (λ _. Unit) _ (λ r s h. h.1) (λ s _. tt)
        (recover_active_head-Holds (λ _. Unit) (λ s t _ _. tt) listing default_head id now mtime
          named w tt)
