-- ===== src/ActiveHead/Recovery.antt =====
-- modules/file_mgr/recovery.rs: the recovery of the active head at boot.
use al.Prelude.{
  ℕ, Bool, true, false, not, Option, none, some, List, [], ◌∷◌, ◌==◌, ltb, if◌then◌else◌,
}
use al.Effects.{
  World, Run, done, failed, bind, rescue, attempt, best_effort, no_effect, ok_or, check, ensure,
  to_option,
}
use al.ActiveHead.{
  Bytes, ActiveHeadManifest, validate, validate_activation_id, Generation, Pointer, absent, corrupt,
  points, Active, ActivationError, io, hash_mismatch, invalid_name, validation, put_labels,
  write_current, labels_to_text,
}
use al.ActiveHead.Stage.{
  DefaultHeadSource, default_input, sha256_hex_of, stage_and_validate_activation,
  publish_active_generation,
}
use al.Prelude.Texts.{same_text}

pub data RecoveryActiveResult : Type 0 where
  current promoted_previous defaulted_from_bundle :
      (activation_id : Bytes) (manifest : ActiveHeadManifest) → RecoveryActiveResult
  unhealthy : RecoveryActiveResult

-- `VerifyOutcome`: the manifest, if the generation is all right.
abbrev pub VerifyOutcome : Type 0
VerifyOutcome = Option ActiveHeadManifest

unfoldable pub manifest_of : Option Generation → Option ActiveHeadManifest
manifest_of none = none
manifest_of (some g) = g.manifest

unfoldable pub head_of : Option Generation → Option Bytes
head_of none = none
head_of (some g) = g.head_mpk

unfoldable pub labels_of : Option Generation → Option Bytes
labels_of none = none
labels_of (some g) = g.labels_txt

unfoldable pub read_active_manifest :
    Bytes → World Active → Run Active ActivationError ActiveHeadManifest
unfolding manifest_of
read_active_manifest id w = bind (check invalid_name (validate_activation_id id) w) (λ _ w.
    bind (attempt io no_effect w) (λ _ w. ok_or io (manifest_of (w.state.generations id)) w))

-- A directory that may be promoted, with what it is ranked by.
pub record Candidate : Type 0 where
  pub activated_at : Bytes
  pub mtime : ℕ
  pub name : Bytes

-- The order of texts.
unfoldable pub text_before : Bytes → Bytes → Bool
text_before a [] = false
text_before [] (c ∷ cs) = true
text_before (b ∷ bs) (c ∷ cs) =
    let rest = text_before bs cs in if ltb b c then true else if b == c then rest else false

-- Whether a candidate is tried before another: the newest stamp first, and then the newest change,
-- and then the first name.
unfoldable pub newer : Candidate → Candidate → Bool
unfolding text_before same_text
newer a b =
    if not (same_text a.activated_at b.activated_at)
    then text_before b.activated_at a.activated_at
    else if not (a.mtime == b.mtime)
    then ltb b.mtime a.mtime
    else text_before a.name b.name

unfoldable pub insert : Candidate → List Candidate → List Candidate
insert c [] = c ∷ []
insert c (d ∷ ds) = let rest = insert c ds in if newer d c then d ∷ rest else c ∷ d ∷ ds

-- `sort_by`
unfoldable pub sort : List Candidate → List Candidate
unfolding insert
sort [] = []
sort (c ∷ cs) = insert c (sort cs)

unfoldable pub is_current : Option Bytes → Bytes → Bool
is_current none name = false
is_current (some id) name = same_text id name

unfoldable pub stamp_of : Option ActiveHeadManifest → Bytes
stamp_of none = []
stamp_of (some m) = m.activated_at

-- An entry of the directory; its manifest is read for the stamp, if it can be.
unfoldable pub candidate :
    Bytes → Option Generation → World Active → Run Active ActivationError (Option Candidate)
unfolding stamp_of
candidate name none w = done none w
candidate name (some g) w =
    bind (to_option (read_active_manifest name w))
      (λ m w. done (some (record { activated_at = stamp_of m; mtime = g.mtime; name = name })) w)

unfoldable pub onto : Option Candidate → List Candidate → List Candidate
onto none cs = cs
onto (some c) cs = c ∷ cs

unfoldable pub is_present : Pointer → Bool
is_present absent = false
is_present corrupt = true
is_present (points id) = true

-- `read_active_current`; the id is validated as it is parsed.
unfoldable pub read_pointer : Pointer → World Active → Run Active ActivationError Bytes
read_pointer absent w = failed io w
read_pointer corrupt w = failed io w
read_pointer (points id) w =
    bind (check invalid_name (validate_activation_id id) w) (λ _ w. done id w)

unfoldable pub labels_match : ActiveHeadManifest → Option Bytes → Bool
labels_match manifest none = false
labels_match manifest (some observed) = same_text observed manifest.labels_sha256

unfoldable pub regenerate_labels_from_manifest :
    Bytes → ActiveHeadManifest → World Active → Run Active ActivationError Unit
regenerate_labels_from_manifest id manifest w =
    attempt io (put_labels id (labels_to_text manifest.labels)) w

module _ (digest : Bytes → Bytes) (loads : Option Bytes → Option Bytes → ℕ → Bool) where
  -- `sha256_stream` of a file that may be missing.
  unfoldable pub sha256_stream : Option Bytes → World Active → Run Active ActivationError Bytes
  unfolding sha256_hex_of
  sha256_stream file w =
      bind (attempt io no_effect w)
        (λ _ w. bind (ok_or io file w) (λ bytes w. done (sha256_hex_of digest loads bytes) w))

  -- The checks of a generation whose failure is its own.
  unfoldable pub checked_manifest :
      Bytes → World Active → Run Active ActivationError ActiveHeadManifest
  checked_manifest id w = bind (read_active_manifest id w) (λ manifest w.
      bind (check validation (validate manifest) w) (λ _ w.
        bind (sha256_stream (head_of (w.state.generations id)) w) (λ observed w.
          bind
            (ensure (same_text observed manifest.sha256) (hash_mismatch manifest.sha256 observed) w)
            (λ _ w. done manifest w))))

  unfoldable pub verify_labels :
      Bytes → Option ActiveHeadManifest → World Active → Run Active ActivationError VerifyOutcome
  verify_labels id none w = done none w
  verify_labels id (some manifest) w =
      bind (to_option (sha256_stream (labels_of (w.state.generations id)) w)) (λ observed w.
        bind
          (if not (labels_match manifest observed)
            then regenerate_labels_from_manifest id manifest w
            else done tt w)
          (λ _ w. done (some manifest) w))

  unfoldable pub verify_generation : Bytes → World Active → Run Active ActivationError VerifyOutcome
  verify_generation id w = bind (to_option (checked_manifest id w)) (λ m w. verify_labels id m w)

  -- A failure of the activation is a result.
  unfoldable pub activate_bundled_default :
      Option DefaultHeadSource
      → Bytes
      → Bytes
      → ℕ
      → World Active
      → Run Active ActivationError RecoveryActiveResult
  unfolding stage_and_validate_activation publish_active_generation
  activate_bundled_default none id now mtime w = done unhealthy w
  activate_bundled_default (some source) id now mtime w =
      rescue
        (bind (stage_and_validate_activation digest loads (default_input source) id now mtime w)
          (λ manifest w.
            bind (publish_active_generation digest loads id w)
              (λ _ w. done (defaulted_from_bundle id manifest) w)))
        (λ _ w. done unhealthy w)

  -- The loop over the entries that `read_dir` lists.
  unfoldable pub collect :
      Option Bytes → List Bytes → World Active → Run Active ActivationError (List Candidate)
  collect current_id [] w = done [] w
  collect current_id (name ∷ names) w =
      bind
        (if is_current current_id name
          then done none w
          else bind
              (to_option
                (bind (attempt io no_effect w) (λ _ w. ok_or io (w.state.generations name) w)))
              (λ metadata w. candidate name metadata w))
        (λ c w. bind (collect current_id names w) (λ cs w. done (onto c cs) w))

  unfoldable pub try_candidates :
      List Candidate
      → World Active
      → Run Active ActivationError (Option (Bytes × ActiveHeadManifest))
  try_candidates [] w = done none w
  try_candidates (c ∷ cs) w = bind (verify_generation c.name w) (λ outcome w. elim outcome [
    | some manifest ↦
        bind (attempt io (write_current c.name) w)
          (λ _ w. bind (best_effort io no_effect w) (λ _ w. done (some (c.name, manifest)) w))
    | none ↦ try_candidates cs w
  ])

  unfoldable pub promote_or_default :
      List Bytes
      → Option Bytes
      → Option DefaultHeadSource
      → Bytes
      → Bytes
      → ℕ
      → World Active
      → Run Active ActivationError RecoveryActiveResult
  promote_or_default listing current_id default_head id now mtime w =
      if not w.state.generations_dir
      then activate_bundled_default default_head id now mtime w
      else bind (attempt io no_effect w) (λ _ w.
        bind (collect current_id listing w) (λ candidates w.
          bind (try_candidates (sort candidates) w) (λ found w. elim found [
            | some (name, manifest) ↦ done (promoted_previous name manifest) w
            | none ↦ activate_bundled_default default_head id now mtime w
          ])))

  unfoldable pub recover_pointed :
      List Bytes
      → Option DefaultHeadSource
      → Bytes
      → Bytes
      → ℕ
      → Bytes
      → World Active
      → Run Active ActivationError RecoveryActiveResult
  recover_pointed listing default_head id now mtime activation_id w =
      bind (verify_generation activation_id w) (λ outcome w. elim outcome [
        | some manifest ↦ done (current activation_id manifest) w
        | none ↦ promote_or_default listing (some activation_id) default_head id now mtime w
      ])

  unfoldable pub recover_active_head :
      List Bytes
      → Option DefaultHeadSource
      → Bytes
      → Bytes
      → ℕ
      → World Active
      → Run Active ActivationError RecoveryActiveResult
  recover_active_head listing default_head id now mtime w =
      if not (is_present w.state.current)
      then activate_bundled_default default_head id now mtime w
      else bind (to_option (bind (attempt io no_effect w) (λ _ w. read_pointer w.state.current w)))
          (λ pointer w. elim pointer [
            | some activation_id ↦ recover_pointed listing default_head id now mtime activation_id w
            | none ↦ promote_or_default listing none default_head id now mtime w
          ])
