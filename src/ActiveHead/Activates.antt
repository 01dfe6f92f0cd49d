-- ===== src/ActiveHead/Activates.antt =====
-- modules/file_mgr/active_head_writer.rs: what an activation stages and publishes.
use al.Prelude.{
  ℕ, ◌≡◌, inl, refl, sym, ◌∙◌, ap, subst, Bool, true, false, not, ◌&&◌, Option, none, some, length,
}
use al.Common.Hex.{hex_lowercase}
use al.Effects.{World, attempt, no_effect}
use al.Effects.Triples.{
  Holds, Holds-bind, Holds-bind_same, Holds-read, Holds-attempt, Holds-ok_or, Holds-check,
  Holds-ensure,
}
use al.ActiveHead.{
  Bytes, points, validate_head, ActiveHeadManifest, validate, validate_activation_id, Generation,
  Active, io, bare, change, make_staging, stage_file, make_generations_dir, move_staging,
  write_current, labels_to_text,
}
use al.ActiveHead.Texts.{put_self}
use al.ActiveHead.Stage.{
  DefaultHeadSource, HeadSource, ActivationOriginInput, head_input, default_input, write_head_mpk,
  write_labels_txt, write_manifest, sha256_hex_of, stage_head_origin, stage_default_origin,
  stage_origin, new_manifest, fits_u32, stage_and_validate_activation, publish_active_generation,
}
use al.ActiveHead.Steps.{
  Whole, Verified, Step, makes_staging, stages_file, makes_generations, moves, points_at,
}
use al.ActiveHead.Checks.{Labelled, Served}

staged_lem :
    (s : Active) (id : Bytes) (f : Generation → Generation) (g : Generation)
    → s.staging id ≡ some g
    → (stage_file id f s).staging id ≡ some (f g)
unfolding stage_file change
staged_lem s id f g e = put_self s.staging id _ ∙ ap (change f) e

-- A staging directory with a head.
record HeadFile (o : Option Generation) (bytes : Bytes) : Type 0 where
  generation : Generation
  there : o ≡ some generation
  head : generation.head_mpk ≡ some bytes

vacant_lem : (b c : Bool) → (b && not c) ≡ true → c ≡ false
vacant_lem true true e = cc
vacant_lem true false e = refl
vacant_lem false c e = cc

module _ (digest : Bytes → Bytes) (loads : Option Bytes → Option Bytes → ℕ → Bool) where
  -- A staging directory with the files of a source.
  record Files (o : Option Generation) (head_sha256 labels_sha256 : Bytes) : Type 0 where
    generation : Generation
    there : o ≡ some generation
    bytes : Bytes
    head : generation.head_mpk ≡ some bytes
    hash : hex_lowercase (digest bytes) ≡ head_sha256
    text : Bytes
    labels : generation.labels_txt ≡ some text
    labels_hash : hex_lowercase (digest text) ≡ labels_sha256

  module _ (X : Active → Type 0) (X-Step : (s t : Active) → Step digest s t → X s → X t) where
    stage_head :
        (id bytes : Bytes) (g : Generation) (w : World Active)
        → X w.state
        → w.state.staging id ≡ some g
        → Holds
            (λ _ s. X s × HeadFile (s.staging id) bytes)
            X
            (attempt io (stage_file id (write_head_mpk bytes)) w)
    unfolding write_head_mpk
    stage_head id bytes g w x made =
        let x' = X-Step w.state _ (stages_file id (write_head_mpk bytes)) x in
        Holds-attempt X _ io _ w x x' (
          x',
          record {
            generation = write_head_mpk bytes g;
            there = staged_lem w.state id _ g made;
            head = refl;
          },
        )

    stage_labels :
        (id bytes text : Bytes) (w : World Active)
        → X w.state
        → HeadFile (w.state.staging id) bytes
        → Holds
            (λ _ s.
              X s
              × Files (s.staging id) (hex_lowercase (digest bytes)) (hex_lowercase (digest text)))
            X
            (attempt io (stage_file id (write_labels_txt text)) w)
    unfolding write_labels_txt
    stage_labels id bytes text w x h =
        let x' = X-Step w.state _ (stages_file id (write_labels_txt text)) x in
        Holds-attempt X _ io _ w x x' (
          x',
          record {
            generation = write_labels_txt text h.generation;
            there = staged_lem w.state id _ h.generation h.there;
            bytes = bytes;
            head = h.head;
            hash = refl;
            text = text;
            labels = refl;
            labels_hash = refl;
          },
        )

    stage_head_origin-Holds :
        (source : HeadSource) (id : Bytes) (g : Generation) (w : World Active)
        → X w.state
        → w.state.staging id ≡ some g
        → Holds
            (λ st s. X s × Files (s.staging id) st.head_sha256 st.labels_sha256)
            X
            (stage_head_origin digest loads source id w)
    unfolding stage_head_origin sha256_hex_of Holds
    stage_head_origin-Holds source id g w x made =
        let s = w.state in
        Holds-bind_same X s (λ _. Unit) _ _ _ (Holds-read X io w x)
          (λ _ fates _.
            Holds-bind_same X s (λ m. source.manifest ≡ some m) _ _ _ (Holds-ok_or X _ _ _ x)
              (λ m fates _.
                Holds-bind_same X s (λ _. validate_head m ≡ none) _ _ _ (Holds-check X _ _ _ x)
                  (λ _ fates _.
                    Holds-bind_same X s (λ b. source.mpk ≡ some b) _ _ _ (Holds-ok_or X _ _ _ x)
                      (λ b fates _. Holds-bind X _ _ _ _ (stage_head id b g _ x made) (λ _ w (x, h).
                        Holds-bind_same X w.state _ _ _ _ (Holds-ensure X _ _ w x) (λ _ fates _.
                          Holds-bind X _ _ _ _ (stage_labels id b (labels_to_text m.labels) _ x h)
                            (λ _ w (x, files).
                              Holds-bind_same X w.state (λ _. fits_u32 (length m.labels) ≡ true) _ _
                                _ (Holds-ensure X _ _ w x) (λ _ fates _. (x, files)))))))))

    stage_default_origin-Holds :
        (source : DefaultHeadSource) (id : Bytes) (g : Generation) (w : World Active)
        → X w.state
        → w.state.staging id ≡ some g
        → Holds
            (λ st s. X s × Files (s.staging id) st.head_sha256 st.labels_sha256)
            X
            (stage_default_origin digest loads source id w)
    unfolding stage_default_origin sha256_hex_of Holds
    stage_default_origin-Holds source id g w x made =
        let s = w.state in
        Holds-bind_same X s (λ _. Unit) _ _ _ (Holds-read X io w x)
          (λ _ fates _.
            Holds-bind_same X s (λ b. source.head_mpk ≡ some b) _ _ _ (Holds-ok_or X _ _ _ x)
              (λ b fates _.
                Holds-bind_same X s (λ _. Unit) _ _ _ (Holds-read X io _ x)
                  (λ _ fates _.
                    Holds-bind_same X s (λ l. source.labels_txt ≡ some l) _ _ _
                      (Holds-ok_or X _ _ _ x)
                      (λ l fates _.
                        Holds-bind_same X s _ _ _ _ (Holds-ensure X _ _ _ x) (λ _ fates _.
                          Holds-bind_same X s _ _ _ _ (Holds-ensure X _ _ _ x) (λ _ fates _.
                            Holds-bind_same X s _ _ _ _ (Holds-ensure X _ _ _ x) (λ _ fates _.
                              Holds-bind X _ _ _ _ (stage_head id b g _ x made) (λ _ w (x, h).
                                Holds-bind X _ _ _ _ (stage_labels id b l w x h)
                                  (λ _ w (x, files). (x, files))))))))))

    stage_origin-Holds :
        (input : ActivationOriginInput) (id : Bytes) (g : Generation) (w : World Active)
        → X w.state
        → w.state.staging id ≡ some g
        → Holds
            (λ st s. X s × Files (s.staging id) st.head_sha256 st.labels_sha256)
            X
            (stage_origin digest loads input id w)
    unfolding stage_origin
    stage_origin-Holds (head_input source) id g w x made =
        stage_head_origin-Holds source id g w x made
    stage_origin-Holds (default_input source) id g w x made =
        stage_default_origin-Holds source id g w x made

    -- A generation that is ready, and what is still to be proved of it where it is.
    pub record Ready (o : Option Generation) (m : ActiveHeadManifest) : Type 0 where
      pub whole : Whole digest o m
      pub labelled : Labelled digest loads o m

    write_manifest-Ready :
        (s : Active) (id : Bytes) (m : ActiveHeadManifest)
        → Files (s.staging id) m.sha256 m.labels_sha256
        → validate m ≡ none
        → Ready ((stage_file id (write_manifest m) s).staging id) m
    unfolding write_manifest
    write_manifest-Ready s id m f valid = record {
      whole = record {
        generation = write_manifest m f.generation;
        there = staged_lem s id _ f.generation f.there;
        manifest = refl;
        valid = valid;
        bytes = f.bytes;
        head = f.head;
        hash = f.hash;
      };
      labelled = record {
        generation = write_manifest m f.generation;
        there = staged_lem s id _ f.generation f.there;
        text = f.text;
        file = f.labels;
        content = inl f.labels_hash;
      };
    }

    pub stage_and_validate_activation-Holds :
        (input : ActivationOriginInput) (id now : Bytes) (mtime : ℕ) (w : World Active)
        → X w.state
        → Holds
            (λ m s. X s × Ready (s.staging id) m)
            X
            (stage_and_validate_activation digest loads input id now mtime w)
    unfolding stage_and_validate_activation make_staging new_manifest Holds
    stage_and_validate_activation-Holds input id now mtime w x =
        let s = w.state in
        Holds-bind_same X s _ _ _ _ (Holds-read X io w x) (λ _ fates _.
          Holds-bind_same X s _ _ _ _ (Holds-ensure X _ _ _ x) (λ _ fates _.
            let x' = X-Step s _ (makes_staging id mtime) x in
            Holds-bind X (λ _ t. X t × (t.staging id ≡ some (bare mtime))) _ _ _
              (Holds-attempt X _ io _ _ x x' (x', put_self s.staging id _))
              (λ _ w (x, made).
                Holds-bind X _ _ _ _ (stage_origin-Holds input id _ w x made)
                  (λ staged w (x, files).
                    Holds-bind_same X w.state _ _ _ _ (Holds-check X _ _ w x) (λ _ fates valid.
                      Holds-bind_same X w.state _ _ _ _ (Holds-ensure X _ _ _ x) (λ _ fates _.
                        let m = new_manifest digest loads input now staged in
                        let x' = X-Step w.state _ (stages_file id (write_manifest m)) x in
                        Holds-bind X (λ _ t. X t × Ready (t.staging id) m) _ _ _
                          (Holds-attempt X _ io _ _ x x'
                            (x', write_manifest-Ready w.state id m files valid))
                          (λ _ w h. h)))))))

    Ready-moved :
        (s : Active) (id : Bytes) (m : ActiveHeadManifest)
        → Ready (s.staging id) m
        → Ready ((move_staging id s).generations id) m
    unfolding move_staging
    Ready-moved s id m r = subst (λ o. Ready o m) (sym (put_self s.generations id (s.staging id))) r

    pub publish_active_generation-Holds :
        (id : Bytes) (m : ActiveHeadManifest) (w : World Active)
        → X w.state
        → validate_activation_id id ≡ none
        → Ready (w.state.staging id) m
        → Holds
            (λ _ s. X s × (s.current ≡ points id) × Served digest loads s id m)
            X
            (publish_active_generation digest loads id w)
    unfolding publish_active_generation make_generations_dir write_current no_effect
    publish_active_generation-Holds id m w x named r =
        let x' = X-Step w.state _ makes_generations x in
        Holds-bind X (λ _ s. X s × Ready (s.staging id) m) _ _ _
          (Holds-attempt X _ io _ w x x' (x', r))
          (λ _ w (x, r).
            Holds-bind_same X w.state _ _ _ _ (Holds-ensure X _ _ w x) (λ _ fates vacant.
              let x' = X-Step w.state _ (moves id (vacant_lem _ _ vacant)) x in
              Holds-bind X (λ _ s. X s × Ready (s.generations id) m) _ _ _
                (Holds-attempt X _ io _ _ x x' (x', Ready-moved w.state id m r))
                (λ _ w (x, r). Holds-bind_same X w.state _ _ _ _ (Holds-read X io w x) (λ _ fates _.
                  let v : Verified digest w.state id m = record {
                    whole = r.whole;
                    named = named;
                  } in
                  let x' = X-Step w.state _ (points_at id m v) x in
                  let v' : Verified digest (write_current id w.state) id m = record {
                    whole = r.whole;
                    named = named;
                  } in
                  let Q : Active → Type 0 =
                    λ s. X s × (s.current ≡ points id) × Served digest loads s id m in
                  let q : Q (write_current id w.state) =
                    (x', refl, record { verified = v'; labelled = r.labelled }) in
                  Holds-bind X (λ _ s. Q s) _ _ _ (Holds-attempt X Q io _ _ x x' q)
                    (λ _ w q. Holds-attempt X Q io (λ s. s) w q.0 q.0 q)))))
