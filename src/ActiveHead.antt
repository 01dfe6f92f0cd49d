-- ===== src/ActiveHead.antt =====
-- modules/file_mgr/active_head_writer.rs, recovery.rs, schema.rs and modules/common/workspace.rs: the
-- generations of the active head, and the pointer to the one that is served.
pub mod Stage
pub mod Recovery
pub mod Texts
pub mod Steps
pub mod Checks
pub mod Activates
pub mod Recovers
pub mod Life
mod Tests
use al.Prelude.{
  ℕ, zero, suc, ◌+◌, ◌^◌, Bool, true, false, ◌&&◌, ◌||◌, not, Option, none, some, List, [], ◌∷◌,
  ◌++◌, ◌==◌, leb, if◌then◌else◌, length,
}
use al.Prelude.Texts.{same_text}
use al.Common.Bytes.{is_allowed_component_byte, dot}
use al.HeadRotation.{HeadManifest}

-- Ids, hashes, labels and stamps are texts, and a text or a file is its bytes.
abbrev pub Bytes : Type 0
Bytes = List ℕ

unfoldable pub put : {A : Type 0} → (Bytes → Option A) → Bytes → Option A → Bytes → Option A
put files id content j = if same_text id j then content else files j

-- `HeadManifest::validate`
pub data HeadValidationError : Type 0 where
  zero_classes class_count_mismatch : HeadValidationError

unfoldable pub validate_head : HeadManifest → Option HeadValidationError
validate_head m =
    if m.n_classes == 0
    then some zero_classes
    else if not (m.n_classes == length m.labels)
    then some class_count_mismatch
    else none

-- Head and workspace ids are numbers.
pub data ActiveOrigin : Type 0 where
  default : ActiveOrigin
  head : (source_workspace_id source_head_id workspace_revision : ℕ) → ActiveOrigin

pub record ActiveHeadManifest : Type 0 where
  pub origin : ActiveOrigin
  pub runtime_head_id : ℕ
  pub sha256 : Bytes
  pub labels_sha256 : Bytes
  pub n_classes : ℕ
  pub labels : List Bytes
  pub activated_at : Bytes

pub data ActiveHeadValidationError : Type 0 where
  default_runtime_id_mismatch head_runtime_id_mismatch : ActiveHeadValidationError

-- 00000000-0000-4000-8000-000000000000, as a number
abbrev pub default_runtime_head_id : ℕ
default_runtime_head_id = 0x40008000000000000000

unfoldable pub validate_origin : ℕ → ActiveOrigin → Option ActiveHeadValidationError
validate_origin runtime_head_id default =
    if not (runtime_head_id == default_runtime_head_id)
    then some default_runtime_id_mismatch
    else none
validate_origin runtime_head_id (head ws source_head_id rev) =
    if not (runtime_head_id == source_head_id) then some head_runtime_id_mismatch else none

-- `ActiveHeadManifest::validate`
unfoldable pub validate : ActiveHeadManifest → Option ActiveHeadValidationError
unfolding validate_origin
validate m = validate_origin m.runtime_head_id m.origin

pub data ActivationIdError : Type 0 where
  empty leading_dot : ActivationIdError
  too_long : (len : ℕ) → ActivationIdError
  bad_byte : (index byte : ℕ) → ActivationIdError

unfoldable pub bad_byte_from : ℕ → Bytes → Option ActivationIdError
bad_byte_from index [] = none
bad_byte_from index (b ∷ bs) =
    let rest = bad_byte_from (index + 1) bs in
    if is_allowed_component_byte b then rest else some (bad_byte index b)

unfoldable pub validate_activation_id : Bytes → Option ActivationIdError
validate_activation_id [] = some empty
validate_activation_id (b ∷ bs) =
    if not (leb (length (b ∷ bs)) 64)
    then some (too_long (length (b ∷ bs)))
    else if b == dot
    then some leading_dot
    else bad_byte_from 0 (b ∷ bs)

-- `generations/<id>/` or `.tmp/<id>/`: `manifest.json`, `head.mpk` and `labels.txt`, as far as they
-- are there and can be read and parsed, and the time of the last change.
pub record Generation : Type 0 where
  pub manifest : Option ActiveHeadManifest
  pub head_mpk : Option Bytes
  pub labels_txt : Option Bytes
  pub mtime : ℕ

-- `current.json`
pub data Pointer : Type 0 where
  absent corrupt : Pointer
  points : (activation_id : Bytes) → Pointer

-- The directory `active/`, and the generation that the process serves.
pub record Active : Type 0 where
  pub current : Pointer
  pub generations_dir : Bool
  pub generations : Bytes → Option Generation
  pub staging : Bytes → Option Generation
  pub runtime : Option Bytes

pub data ActivationError : Type 0 where
  io already_exists not_found invalid_data preload : ActivationError
  hash_mismatch : (expected observed : Bytes) → ActivationError
  invalid_name : ActivationIdError → ActivationError
  validation : ActiveHeadValidationError → ActivationError
  source_manifest_invalid : HeadValidationError → ActivationError

unfoldable pub bare : ℕ → Generation
bare mtime = record { manifest = none; head_mpk = none; labels_txt = none; mtime = mtime }

-- Whether a directory has entries.
unfoldable pub is_occupied : Option Generation → Bool
is_occupied none = false
is_occupied (some g) = elim g.manifest [
  | some m ↦ true
  | none ↦ elim g.head_mpk [
    | some h ↦ true
    | none ↦ elim g.labels_txt [ some l ↦ true | none ↦ false ]
  ]
]

-- A change of the directory of one generation, if it is there.
unfoldable pub change : (Generation → Generation) → Option Generation → Option Generation
change f none = none
change f (some g) = some (f g)

unfoldable pub make_staging : Bytes → ℕ → Active → Active
unfolding put bare
make_staging id now s = record s { staging = put s.staging id (some (bare now)) }

unfoldable pub stage_file : Bytes → (Generation → Generation) → Active → Active
unfolding put change
stage_file id f s = record s { staging = put s.staging id (change f (s.staging id)) }

unfoldable pub make_generations_dir : Active → Active
make_generations_dir s = record s { generations_dir = true }

-- The rename of `.tmp/<id>/` to `generations/<id>/`.
unfoldable pub move_staging : Bytes → Active → Active
unfolding put
move_staging id s = record s {
  generations = put s.generations id (s.staging id);
  staging = put s.staging id none;
}

-- `write_active_current`
unfoldable pub write_current : Bytes → Active → Active
write_current id s = record s { current = points id }

unfoldable pub install : Bytes → Active → Active
install id s = record s { runtime = some id }

unfoldable pub put_labels : Bytes → Bytes → Active → Active
unfolding put change
put_labels id text s = record s {
  generations =
      put s.generations id (change (λ g. record g { labels_txt = some text }) (s.generations id));
}

-- `remove_dir_all` takes the files first.
unfoldable pub remove_files : Bytes → Active → Active
unfolding put change bare
remove_files id s = record s {
  generations = put s.generations id (change (λ g. bare g.mtime) (s.generations id));
}

unfoldable pub remove_generation : Bytes → Active → Active
unfolding put
remove_generation id s = record s { generations = put s.generations id none }

-- `labels.join("\n")`
abbrev pub newline : ℕ
newline = 10

unfoldable pub labels_to_text : List Bytes → Bytes
labels_to_text [] = []
labels_to_text (l ∷ []) = l
labels_to_text (l ∷ l' ∷ ls) = l ++ newline ∷ labels_to_text (l' ∷ ls)
