-- ===== src/ActiveHead/Stage.antt =====
-- modules/file_mgr/active_head_writer.rs and modules/api/routes/active.rs: an activation.
use al.Prelude.{
  ℕ, ◌+◌, ◌^◌, Bool, true, false, ◌&&◌, not, Option, none, some, List, [], ◌∷◌, ◌==◌, leb, any,
  if◌then◌else◌, length,
}
use al.Prelude.Utf8.{is_utf8}
use al.Common.Hex.{hex_lowercase}
use al.Common.AssetPath.{onto_first}
use al.Effects.{
  World, Run, done, failed, bind, rescue, attempt, best_effort, no_effect, ok_or, check, ensure,
}
use al.HeadRotation.{HeadManifest}
use al.ActiveHead.{
  Bytes, validate_head, ActiveOrigin, default, head, ActiveHeadManifest, default_runtime_head_id,
  validate, Generation, Pointer, absent, corrupt, points, Active, ActivationError, io,
  already_exists, not_found, invalid_data, preload, invalid_name, validate_activation_id,
  hash_mismatch, validation, source_manifest_invalid, is_occupied, make_staging, stage_file,
  make_generations_dir, move_staging, write_current, install, remove_files, remove_generation,
  newline, labels_to_text,
}
use al.Prelude.Texts.{same_text}

-- The bundled files.
pub record DefaultHeadSource : Type 0 where
  pub head_mpk : Option Bytes
  pub labels_txt : Option Bytes

-- The files of a head in a workspace.
pub record HeadSource : Type 0 where
  pub workspace_id : ℕ
  pub head_id : ℕ
  pub manifest : Option HeadManifest
  pub mpk : Option Bytes

pub data ActivationOriginInput : Type 0 where
  head_input : HeadSource → ActivationOriginInput
  default_input : DefaultHeadSource → ActivationOriginInput

pub record StagedSource : Type 0 where
  pub origin : ActiveOrigin
  pub head_sha256 : Bytes
  pub labels_sha256 : Bytes
  pub n_classes : ℕ
  pub labels : List Bytes

-- `lines`, but for the carriage returns and an empty line at the end.
unfoldable pub split_lines : Bytes → List Bytes
split_lines [] = [] ∷ []
split_lines (b ∷ bs) =
    let rest = split_lines bs in if b == newline then [] ∷ rest else onto_first b rest

unfoldable pub onto_trimmed : ℕ → Bytes → Bytes
onto_trimmed b [] = if b == 13 then [] else b ∷ []
onto_trimmed b (c ∷ cs) = b ∷ c ∷ cs

-- `trim_end_matches('\r')`
unfoldable pub trim_returns : Bytes → Bytes
unfolding onto_trimmed
trim_returns [] = []
trim_returns (b ∷ bs) = onto_trimmed b (trim_returns bs)

unfoldable pub onto_nonempty : Bytes → List Bytes → List Bytes
onto_nonempty [] ls = ls
onto_nonempty (b ∷ bs) ls = (b ∷ bs) ∷ ls

unfoldable pub nonempty_labels : List Bytes → List Bytes
unfolding onto_nonempty trim_returns
nonempty_labels [] = []
nonempty_labels (l ∷ ls) = onto_nonempty (trim_returns l) (nonempty_labels ls)

unfoldable pub parse_labels : Bytes → List Bytes
unfolding nonempty_labels split_lines
parse_labels text = nonempty_labels (split_lines text)

unfoldable pub is_empty : List Bytes → Bool
is_empty [] = true
is_empty (l ∷ ls) = false

unfoldable pub fits_u32 : ℕ → Bool
fits_u32 n = not (leb (2 ^ 32) n)

unfoldable pub write_head_mpk : Bytes → Generation → Generation
write_head_mpk bytes g = record g { head_mpk = some bytes }

unfoldable pub write_labels_txt : Bytes → Generation → Generation
write_labels_txt bytes g = record g { labels_txt = some bytes }

unfoldable pub write_manifest : ActiveHeadManifest → Generation → Generation
write_manifest m g = record g { manifest = some m }

unfoldable pub is_some : {A : Type 0} → Option A → Bool
is_some none = false
is_some (some a) = true

-- What a caller gets of a path.
unfoldable pub staged_head : Option Generation → Option Bytes
staged_head none = none
staged_head (some g) = g.head_mpk

unfoldable pub staged_labels : Option Generation → Option Bytes
staged_labels none = none
staged_labels (some g) = g.labels_txt

-- `runtime_head_id` of an activation
unfoldable pub runtime_id : ActivationOriginInput → ℕ
runtime_id (head_input source) = source.head_id
runtime_id (default_input source) = default_runtime_head_id

-- `digest` is the SHA-256 of the sha2 crate, and `loads` whether the inference head takes the files.
module _ (digest : Bytes → Bytes) (loads : Option Bytes → Option Bytes → ℕ → Bool) where
  unfoldable pub sha256_hex_of : Bytes → Bytes
  sha256_hex_of bytes = hex_lowercase (digest bytes)

  unfoldable pub stage_head_origin :
      HeadSource → Bytes → World Active → Run Active ActivationError StagedSource
  stage_head_origin source id w = bind (attempt io no_effect w) (λ _ w.
      bind (ok_or not_found source.manifest w) (λ manifest w.
        bind (check source_manifest_invalid (validate_head manifest) w) (λ _ w.
          bind (ok_or not_found source.mpk w) (λ mpk w.
            bind (attempt io (stage_file id (write_head_mpk mpk)) w) (λ _ w.
              bind
                (ensure (same_text (sha256_hex_of mpk) manifest.sha256)
                  (hash_mismatch manifest.sha256 (sha256_hex_of mpk)) w)
                (λ _ w.
                  let labels_text = labels_to_text manifest.labels in
                  bind (attempt io (stage_file id (write_labels_txt labels_text)) w) (λ _ w.
                    bind (ensure (fits_u32 (length manifest.labels)) invalid_data w) (λ _ w.
                      done
                        (record {
                          origin =
                              head source.workspace_id source.head_id manifest.workspace_revision;
                          head_sha256 = sha256_hex_of mpk;
                          labels_sha256 = sha256_hex_of labels_text;
                          n_classes = length manifest.labels;
                          labels = manifest.labels;
                        })
                        w))))))))

  unfoldable pub stage_default_origin :
      DefaultHeadSource → Bytes → World Active → Run Active ActivationError StagedSource
  stage_default_origin source id w = bind (attempt io no_effect w) (λ _ w.
      bind (ok_or not_found source.head_mpk w) (λ mpk_bytes w. bind (attempt io no_effect w) (λ _ w.
        bind (ok_or not_found source.labels_txt w) (λ labels_bytes w.
          bind (ensure (is_utf8 labels_bytes) invalid_data w) (λ _ w.
            let labels = parse_labels labels_bytes in
            bind (ensure (not (is_empty labels)) invalid_data w) (λ _ w.
              bind (ensure (fits_u32 (length labels)) invalid_data w) (λ _ w.
                bind (attempt io (stage_file id (write_head_mpk mpk_bytes)) w) (λ _ w.
                  bind (attempt io (stage_file id (write_labels_txt labels_bytes)) w) (λ _ w.
                    done
                      (record {
                        origin = default;
                        head_sha256 = sha256_hex_of mpk_bytes;
                        labels_sha256 = sha256_hex_of labels_bytes;
                        n_classes = length labels;
                        labels = labels;
                      })
                      w)))))))))

  unfoldable pub stage_origin :
      ActivationOriginInput → Bytes → World Active → Run Active ActivationError StagedSource
  stage_origin (head_input source) id w = stage_head_origin source id w
  stage_origin (default_input source) id w = stage_default_origin source id w

  -- The manifest of an activation.
  unfoldable pub new_manifest : ActivationOriginInput → Bytes → StagedSource → ActiveHeadManifest
  unfolding runtime_id
  new_manifest input now staged = record {
    origin = staged.origin;
    runtime_head_id = runtime_id input;
    sha256 = staged.head_sha256;
    labels_sha256 = staged.labels_sha256;
    n_classes = staged.n_classes;
    labels = staged.labels;
    activated_at = now;
  }

  -- `id` is the fresh UUID, `now` the time as a text, and `mtime` the same for the file system.
  unfoldable pub stage_and_validate_activation :
      ActivationOriginInput
      → Bytes
      → Bytes
      → ℕ
      → World Active
      → Run Active ActivationError ActiveHeadManifest
  unfolding new_manifest runtime_id
  stage_and_validate_activation input id now mtime w = bind (attempt io no_effect w) (λ _ w.
      bind (ensure (not (is_some (w.state.staging id))) already_exists w) (λ _ w.
        bind (attempt io (make_staging id mtime) w) (λ _ w.
          bind (stage_origin input id w) (λ staged w.
            let manifest = new_manifest input now staged in
            bind (check validation (validate manifest) w) (λ _ w.
              bind
                (ensure
                  (loads (staged_head (w.state.staging id)) (staged_labels (w.state.staging id))
                    (runtime_id input))
                  preload w)
                (λ _ w.
                  bind (attempt io (stage_file id (write_manifest manifest)) w)
                    (λ _ w. done manifest w)))))))

  -- The rename is refused over a directory with entries, or if there is no staged one.
  unfoldable pub publish_active_generation : Bytes → World Active → Run Active ActivationError Unit
  publish_active_generation id w = bind (attempt io make_generations_dir w) (λ _ w.
      bind
        (ensure (is_some (w.state.staging id) && not (is_occupied (w.state.generations id))) io w)
        (λ _ w. bind (attempt io (move_staging id) w) (λ _ w.
          bind (attempt io no_effect w)
            (λ _ w. bind (attempt io (write_current id) w) (λ _ w. attempt io no_effect w)))))

  -- The loop over the entries that `read_dir` lists.
  unfoldable pub prune_entries :
      List Bytes → List Bytes → World Active → Run Active ActivationError ℕ
  prune_entries keep [] w = done 0 w
  prune_entries keep (name ∷ names) w =
      bind
        (if any (λ k. same_text k name) keep
          then done 0 w
          else bind (attempt io no_effect w) (λ _ w.
            bind (attempt io (remove_files name) w)
              (λ _ w. bind (attempt io (remove_generation name) w) (λ _ w. done 1 w))))
        (λ n w. bind (prune_entries keep names w) (λ removed w. done (n + removed) w))

  unfoldable pub prune_old_generations :
      List Bytes → List Bytes → World Active → Run Active ActivationError ℕ
  prune_old_generations listing keep w =
      if not w.state.generations_dir
      then done 0 w
      else bind (attempt io no_effect w) (λ _ w. bind (prune_entries keep listing w) (λ removed w.
        if leb 1 removed
        then bind (best_effort io no_effect w) (λ _ w. done removed w)
        else done removed w))

  unfoldable pub previous_id : Pointer → World Active → Run Active ActivationError (List Bytes)
  previous_id absent w = done [] w
  previous_id corrupt w = failed io w
  previous_id (points id) w =
      bind (check invalid_name (validate_activation_id id) w) (λ _ w. done (id ∷ []) w)

  -- `post_active` on its worker, behind `active_mutex`; the candidate that was loaded is installed.
  unfoldable pub post_active :
      List Bytes
      → ActivationOriginInput
      → Bytes
      → Bytes
      → ℕ
      → World Active
      → Run Active ActivationError ActiveHeadManifest
  post_active listing input id now mtime w = bind (attempt io no_effect w) (λ _ w.
      bind (previous_id w.state.current w) (λ previous w.
        bind (stage_and_validate_activation input id now mtime w) (λ manifest w.
          bind (publish_active_generation id w) (λ _ w.
            let v : World Active = record w { state = install id w.state } in
            bind
              (rescue (bind (prune_old_generations listing (id ∷ previous) v) (λ _ w. done tt w))
                (λ _ w. done tt w))
              (λ _ w. done manifest w)))))
