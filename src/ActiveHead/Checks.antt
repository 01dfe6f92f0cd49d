-- ===== src/ActiveHead/Checks.antt =====
-- modules/file_mgr/recovery.rs: what a verification finds out.
use al.Prelude.{
  ℕ, ◌≡◌, ◌⊎◌, inl, inr, refl, sym, ◌∙◌, ap, subst, Bool, true, false, not, Option, none, some,
}
use al.Common.Hex.{hex_lowercase}
use al.Effects.{World, to_option}
use al.Effects.Triples.{
  Holds, Holds-bind, Holds-bind_same, Holds-read, Holds-attempt, Holds-ok_or, Holds-check,
  Holds-ensure, Holds-to_option, Holds-if, Holds-mono, Maybe,
}
use al.ActiveHead.{
  Bytes, ActiveHeadManifest, validate, validate_activation_id, Generation, Active, io, invalid_name,
  validation, put_labels, change, labels_to_text,
}
use al.ActiveHead.Texts.{put_self}
use al.ActiveHead.Stage.{sha256_hex_of}
use al.ActiveHead.Recovery.{
  manifest_of, head_of, labels_of, read_active_manifest, sha256_stream, checked_manifest,
  labels_match, regenerate_labels_from_manifest, verify_labels, verify_generation,
}
use al.ActiveHead.Steps.{Whole, Verified, Verified-put_labels}
use al.Prelude.Texts.{same_text, same_text-true}

not-false : (b : Bool) → not b ≡ false → b ≡ true
not-false true e = refl
not-false false e = cc

module _ (digest : Bytes → Bytes) (loads : Option Bytes → Option Bytes → ℕ → Bool) where
  -- The labels file has the hash of the manifest, or it is what the manifest's labels make.
  pub record Labelled (o : Option Generation) (m : ActiveHeadManifest) : Type 0 where
    pub generation : Generation
    pub there : o ≡ some generation
    pub text : Bytes
    pub file : generation.labels_txt ≡ some text
    pub content : (hex_lowercase (digest text) ≡ m.labels_sha256) ⊎ (text ≡ labels_to_text m.labels)

  module _ (X : Active → Type 0) where
    pub read_active_manifest-Holds :
        (id : Bytes) (w : World Active)
        → X w.state
        → Holds
            (λ m s.
              ((validate_activation_id id ≡ none) × (manifest_of (w.state.generations id) ≡ some m))
              × (s ≡ w.state))
            X
            (read_active_manifest id w)
    unfolding read_active_manifest
    read_active_manifest-Holds id w x =
        Holds-bind_same X w.state (λ _. validate_activation_id id ≡ none) _ _ _
          (Holds-check X invalid_name _ w x)
          (λ _ fates named.
            Holds-bind_same X w.state (λ _. Unit) _ _ _ (Holds-read X io _ x)
              (λ _ fates _.
                Holds-mono _ _ X X _ (λ m s (e, same). ((named, e), same)) (λ s x. x)
                  (Holds-ok_or X io _ _ x)))

    sha256_stream-Holds :
        (file : Option Bytes) (w : World Active)
        → X w.state
        → Holds
            (λ h s.
              ((bytes : Bytes) × (file ≡ some bytes) × (hex_lowercase (digest bytes) ≡ h))
              × (s ≡ w.state))
            X
            (sha256_stream digest loads file w)
    unfolding sha256_stream sha256_hex_of Holds
    sha256_stream-Holds file w x =
        Holds-bind_same X w.state (λ _. Unit) _ _ _ (Holds-read X io w x)
          (λ _ fates _.
            Holds-bind_same X w.state (λ b. file ≡ some b) _ _ _ (Holds-ok_or X io file _ x)
              (λ b fates e. ((b, e, refl), refl)))

    Whole-checked :
        (o : Option Generation) (m : ActiveHeadManifest) (bytes h : Bytes)
        → manifest_of o ≡ some m
        → validate m ≡ none
        → head_of o ≡ some bytes
        → hex_lowercase (digest bytes) ≡ h
        → same_text h m.sha256 ≡ true
        → Whole digest o m
    unfolding manifest_of head_of
    Whole-checked none m bytes h em valid eh hash same = cc
    Whole-checked (some g) m bytes h em valid eh hash same = record {
      generation = g;
      there = refl;
      manifest = em;
      valid = valid;
      bytes = bytes;
      head = eh;
      hash = hash ∙ same_text-true _ _ same;
    }

    checked_manifest-Holds :
        (id : Bytes) (w : World Active)
        → X w.state
        → Holds
            (λ m s. Verified digest w.state id m × (s ≡ w.state))
            X
            (checked_manifest digest loads id w)
    unfolding checked_manifest Holds
    checked_manifest-Holds id w x =
        Holds-bind_same X w.state _ _ _ _ (read_active_manifest-Holds id w x)
          (λ m fates (named, em).
            Holds-bind_same X w.state (λ _. validate m ≡ none) _ _ _
              (Holds-check X validation _ _ x)
              (λ _ fates valid.
                Holds-bind_same X w.state _ _ _ _
                  (sha256_stream-Holds (head_of (w.state.generations id))
                    (record w { fates = fates }) x)
                  (λ h fates (bytes, eh, hash).
                    Holds-bind_same X w.state (λ _. same_text h m.sha256 ≡ true) _ _ _
                      (Holds-ensure X _ _ _ x)
                      (λ _ fates same. (
                        record {
                          whole = Whole-checked _ m bytes h em valid eh hash same;
                          named = named;
                        },
                        refl,
                      )))))

  Labelled-match :
      (o : Option Generation) (m : ActiveHeadManifest) (bytes h : Bytes)
      → labels_of o ≡ some bytes
      → hex_lowercase (digest bytes) ≡ h
      → same_text h m.labels_sha256 ≡ true
      → Labelled o m
  unfolding labels_of
  Labelled-match none m bytes h e hash same = cc
  Labelled-match (some g) m bytes h e hash same = record {
    generation = g;
    there = refl;
    text = bytes;
    file = e;
    content = inl (hash ∙ same_text-true _ _ same);
  }

  Labelled-put_labels :
      (s : Active) (id : Bytes) (m : ActiveHeadManifest)
      → Verified digest s id m
      → Labelled ((put_labels id (labels_to_text m.labels) s).generations id) m
  unfolding put_labels change
  Labelled-put_labels s id m v = record {
    generation = record v.whole.generation { labels_txt = some (labels_to_text m.labels) };
    there =
        put_self s.generations id _
        ∙ ap (change (λ g. record g { labels_txt = some (labels_to_text m.labels) })) v.whole.there;
    text = labels_to_text m.labels;
    file = refl;
    content = inr refl;
  }

  -- What a verified generation is.
  pub record Served (s : Active) (id : Bytes) (m : ActiveHeadManifest) : Type 0 where
    pub verified : Verified digest s id m
    pub labelled : Labelled (s.generations id) m

  observed_lem :
      (id : Bytes) (m : ActiveHeadManifest) (X : Active → Type 0) (w s : Active) (o : Option Bytes)
      → Maybe
          (λ h s.
            ((bytes : Bytes) × (labels_of (w.generations id) ≡ some bytes)
              × (hex_lowercase (digest bytes) ≡ h))
            × (s ≡ w))
          (λ s. X s × (s ≡ w))
          o
          s
      → (labels_match m o ≡ true → Labelled (w.generations id) m) × (s ≡ w)
  unfolding Maybe labels_match
  observed_lem id m X w s none (x, same) = ((λ e. cc), same)
  observed_lem id m X w s (some h) ((bytes, e, hash), same) =
      ((λ e'. Labelled-match (w.generations id) m bytes h e hash e'), same)

  module _ (X : Active → Type 0)
      (X-put_labels : (s : Active) (id text : Bytes) → X s → X (put_labels id text s)) where
    hashed_labels :
        (id : Bytes) (m : ActiveHeadManifest) (w : World Active)
        → X w.state
        → Holds
            (λ o s. (labels_match m o ≡ true → Labelled (w.state.generations id) m) × (s ≡ w.state))
            X
            (to_option (sha256_stream digest loads (labels_of (w.state.generations id)) w))
    hashed_labels id m w x =
        let Y : Active → Type 0 = λ s. X s × (s ≡ w.state) in
        Holds-mono _ _ Y X _ (λ o s h. observed_lem id m X w.state s o h) (λ s y. y.0)
          (Holds-to_option Y _ _
            (sha256_stream-Holds Y (labels_of (w.state.generations id)) w (x, refl)))

    verify_labels-Holds :
        (id : Bytes) (m : ActiveHeadManifest) (w : World Active)
        → X w.state
        → Verified digest w.state id m
        → Holds (Maybe (λ m s. X s × Served s id m) X) X (verify_labels digest loads id (some m) w)
    unfolding verify_labels Maybe Holds regenerate_labels_from_manifest
    verify_labels-Holds id m w x v =
        Holds-bind_same X w.state
          (λ o. labels_match m o ≡ true → Labelled (w.state.generations id) m) _ _ _
          (hashed_labels id m w x)
          (λ o fates l.
            Holds-bind X (λ _ s. X s × Served s id m) (Maybe (λ m s. X s × Served s id m) X) _ _
              (Holds-if X (λ _ s. X s × Served s id m) (not (labels_match m o)) _ _
                (λ _.
                  let x' = X-put_labels w.state id (labels_to_text m.labels) x in
                  Holds-attempt X (λ s. X s × Served s id m) io _ _ x x'
                    (
                      x',
                      record {
                        verified = Verified-put_labels digest w.state id _ id m v;
                        labelled = Labelled-put_labels w.state id m v;
                      },
                    ))
                (λ e. (x, record { verified = v; labelled = l (not-false _ e) })))
              (λ _ w h. h))

    labelled_lem :
        (id : Bytes) (s : Active) (m : Option ActiveHeadManifest) (w : World Active)
        → Maybe (λ m t. X t × Verified digest s id m × (t ≡ s)) X m w.state
        → Holds (Maybe (λ m s. X s × Served s id m) X) X (verify_labels digest loads id m w)
    unfolding Maybe Holds verify_labels
    labelled_lem id s none w x = x
    labelled_lem id s (some m) w (x, v, same) =
        verify_labels-Holds id m w x (subst (λ t. Verified digest t id m) (sym same) v)

    pub verify_generation-Holds :
        (id : Bytes) (w : World Active)
        → X w.state
        → Holds (Maybe (λ m s. X s × Served s id m) X) X (verify_generation digest loads id w)
    unfolding verify_generation
    verify_generation-Holds id w x =
        Holds-bind X (Maybe (λ m t. X t × Verified digest w.state id m × (t ≡ w.state)) X) _ _ _
          (Holds-to_option X _ _ (
            Holds-mono _ _ X X _ (λ m s (v, same). (subst X (sym same) x, v, same)) (λ s x. x)
              (checked_manifest-Holds X id w x)))
          (labelled_lem id w.state)
