-- ===== src/ActiveHead/Steps.antt =====
-- modules/file_mgr/active_head_writer.rs, recovery.rs: what each call may do to the pointer and the
-- generations.
use al.Prelude.{
  ℕ, ◌≡◌, ◌≢◌, inl, inr, refl, sym, ◌∙◌, ap, subst, true, false, Option, none, some, Bool-cases,
}
use al.Common.Hex.{hex_lowercase}
use al.ActiveHead.{
  Bytes, put, ActiveHeadManifest, validate, validate_activation_id, Generation, points, Active,
  is_occupied, change, make_staging, stage_file, make_generations_dir, move_staging, write_current,
  install, put_labels, remove_files, remove_generation,
}
use al.ActiveHead.Texts.{put_self, put-other}
use al.Prelude.Texts.{same_text, same_text-true, same_text_refl}

module _ (digest : Bytes → Bytes) where
  -- A generation whose manifest is valid and is that of its head.
  pub record Whole (g : Option Generation) (m : ActiveHeadManifest) : Type 0 where
    pub generation : Generation
    pub there : g ≡ some generation
    pub manifest : generation.manifest ≡ some m
    pub valid : validate m ≡ none
    pub bytes : Bytes
    pub head : generation.head_mpk ≡ some bytes
    pub hash : hex_lowercase (digest bytes) ≡ m.sha256

  -- A generation that a recovery accepts.
  pub record Verified (s : Active) (id : Bytes) (m : ActiveHeadManifest) : Type 0 where
    pub whole : Whole (s.generations id) m
    pub named : validate_activation_id id ≡ none

  -- The pointer, if there is one, names such a generation.
  unfoldable pub Serves : Active → Type 0
  Serves s = (id : Bytes) → s.current ≡ points id → (m : ActiveHeadManifest) × Verified s id m

  -- The effects of the calls.
  pub data Step (s : Active) : Active → Type 0 where
    makes_staging : (id : Bytes) (mtime : ℕ) → Step s (make_staging id mtime s)
    stages_file : (id : Bytes) (f : Generation → Generation) → Step s (stage_file id f s)
    makes_generations : Step s (make_generations_dir s)
    moves : (id : Bytes) → is_occupied (s.generations id) ≡ false → Step s (move_staging id s)
    points_at :
        (id : Bytes) (m : ActiveHeadManifest) → Verified s id m → Step s (write_current id s)
    installs : (id : Bytes) → Step s (install id s)
    labels : (id text : Bytes) → Step s (put_labels id text s)
    clears : (id : Bytes) → s.current ≢ points id → Step s (remove_files id s)
    removes : (id : Bytes) → s.current ≢ points id → Step s (remove_generation id s)

  -- What stands at another id.
  pub elsewhere :
      (s t : Active) (id j : Bytes) (content : Option Generation) (m : ActiveHeadManifest)
      → t.generations ≡ put s.generations id content
      → id ≢ j
      → Verified s j m
      → Verified t j m
  elsewhere s t id j content m e ne v = record {
    whole =
        subst (λ g. Whole g m) (sym (ap (λ f. f j) e ∙ put-other s.generations id j content ne))
          v.whole;
    named = v.named;
  }

  pub Whole-labels :
      (text : Bytes) (o : Option Generation) (m : ActiveHeadManifest)
      → Whole o m
      → Whole (change (λ g. record g { labels_txt = some text }) o) m
  unfolding change
  Whole-labels text o m w =
      subst (λ o. Whole (change (λ g. record g { labels_txt = some text }) o) m) (sym w.there)
        (record {
          generation = record w.generation { labels_txt = some text };
          there = refl;
          manifest = w.manifest;
          valid = w.valid;
          bytes = w.bytes;
          head = w.head;
          hash = w.hash;
        })

  pub Verified-put_labels :
      (s : Active) (id text j : Bytes) (m : ActiveHeadManifest)
      → Verified s j m
      → Verified (put_labels id text s) j m
  unfolding put_labels
  Verified-put_labels s id text j m v = elim (Bool-cases (same_text id j)) [
    | inl e ↦
        let same = same_text-true id j e in
        record {
          whole =
              subst (λ g. Whole g m)
                (sym (
                  subst
                    (λ j.
                      put s.generations id
                        (change (λ g. record g { labels_txt = some text }) (s.generations id)) j
                      ≡ change (λ g. record g { labels_txt = some text }) (s.generations j))
                    same (put_self s.generations id _)))
                (Whole-labels text _ m v.whole);
          named = v.named;
        }
    | inr e ↦
        elsewhere s (put_labels id text s) id j _ m refl
          (λ same.
            let clash = subst (λ j. same_text id j ≡ false) (sym same) e in
            let self = same_text_refl id in cc)
          v
  ]

  Whole-occupied :
      (o : Option Generation) (m : ActiveHeadManifest) → Whole o m → is_occupied o ≡ true
  unfolding is_occupied
  Whole-occupied o m w = rw w.there (rw w.manifest refl)

  pub Serves-Step : (s t : Active) → Step s t → Serves s → Serves t
  unfolding Serves make_staging stage_file make_generations_dir move_staging write_current install
      remove_files remove_generation put_labels
  Serves-Step s t (makes_staging id mtime) serves j e =
      let (m, v) = serves j e in (m, record { whole = v.whole; named = v.named })
  Serves-Step s t (stages_file id f) serves j e =
      let (m, v) = serves j e in (m, record { whole = v.whole; named = v.named })
  Serves-Step s t makes_generations serves j e =
      let (m, v) = serves j e in (m, record { whole = v.whole; named = v.named })
  Serves-Step s t (moves id vacant) serves j e =
      let (m, v) = serves j e in
      (
        m,
        elsewhere s (move_staging id s) id j _ m refl
            (λ same.
              let there = Whole-occupied (s.generations j) m v.whole in
              let gone = subst (λ j. is_occupied (s.generations j) ≡ false) same vacant in cc)
            v,
      )
  Serves-Step s t (points_at id m v) serves j e =
      let same : id ≡ j = cc in
      (
        m,
        subst (λ j. Verified (write_current id s) j m) same
            (record { whole = v.whole; named = v.named }),
      )
  Serves-Step s t (installs id) serves j e =
      let (m, v) = serves j e in (m, record { whole = v.whole; named = v.named })
  Serves-Step s t (labels id text) serves j e =
      let (m, v) = serves j e in (m, Verified-put_labels s id text j m v)
  Serves-Step s t (clears id ne) serves j e =
      let (m, v) = serves j e in
      (
        m,
        elsewhere s (remove_files id s) id j _ m refl
            (λ same. ne (subst (λ j. s.current ≡ points j) (sym same) e)) v,
      )
  Serves-Step s t (removes id ne) serves j e =
      let (m, v) = serves j e in
      (
        m,
        elsewhere s (remove_generation id s) id j _ m refl
            (λ same. ne (subst (λ j. s.current ≡ points j) (sym same) e)) v,
      )
