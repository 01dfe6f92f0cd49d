-- ===== src/WorkspaceAssets/Tests.antt =====
-- modules/file_mgr/dataset.rs: an upload into a workspace with one recording.
use al.Prelude.{
  ap, ◌∙◌, ◌<◌, ℕ, ◌≡◌, ◌≢◌, ◌⊎◌, refl, arith, any, true, false, Option, none, some, List, [], ◌∷◌,
  if◌then◌else◌,
}
use al.Prelude.Texts.{same_text}
use al.Prelude.Utf8.{ascii}
use al.Common.AssetPath.{
  AssetPath, ok, parse, parsed, components, components_error, component_error, bad_byte_from,
  or_next, split, onto_first, starts_with_dot,
}
use al.Common.Bytes.{is_allowed_component_byte}
use al.Effects.{succeeds, fails_after, crashes, final}
use al.WorkspaceAssets.{
  AssetTree, datasets, dir_name, parse_mutable_path, parse_parts, under_tree, with_sub, strip_slash,
  strip_prefix, reparsed, tree_named, accepts_uploads, is_deep_enough,
}
use al.WorkspaceAssets.Paths.{Addressed, parse_mutable_path-Addressed}
use al.Effects.{bind, ok_or, ensure, attempt, call, later_fates, next_fate, no_effect}
use al.WorkspaceAssets.Mutations.{
  cache_cell_for_dataset, carries_sub, cell_of, check_siblings, commit_upload, create_dir_all,
  is_missing, make_dirs, publish_core, put_revision, rename_in, write_workspace_core, u64_max, Node,
  file, directory, Workspace, bump_workspace_revision, is_path, is_file, ancestors, parent,
  is_directory, is_prefix, collides, file_name, to_lower, Upload, upload_workspace_file, Delete,
  start_workspace_asset_delete,
}
use al.WorkspaceAssets.Heads.{
  stale, from_revisions, Outdated, upload_workspace_file-Outdated, from_revisions-Life,
}
use al.Effects.Triples.{Holds}
use al.WorkspaceAssets.Revisions.{SameAssets, seen, seen_of, Later, Ordered}
use al.WorkspaceAssets.Life.{Life, begin, upload, delete, Life-Later}
use al.WorkspaceAssets.Uploads.{Acceptable, Uploaded, upload_workspace_file-Uploaded}

abbrev path : AssetPath
path = record { as_str = ascii "datasets/dog/b.wav" }

path-parse : parse path.as_str ≡ ok path
unfolding parse parsed components_error component_error bad_byte_from or_next split onto_first
    starts_with_dot is_allowed_component_byte
path-parse = refl

parse_mutable_path-Addressed_example :
    Addressed path
    ⊎ ((parse_mutable_path path ≡ none)
        × ((tree : AssetTree) (rest : List (List ℕ)) → components path ≢ dir_name tree ∷ rest))
parse_mutable_path-Addressed_example = parse_mutable_path-Addressed path path-parse

abbrev content : List (List ℕ) → Option Node
content q =
    if is_path q (ascii "datasets" ∷ [])
    then some directory
    else if is_path q (ascii "datasets" ∷ ascii "dog" ∷ [])
    then some directory
    else if is_path q (ascii "datasets" ∷ ascii "dog" ∷ ascii "a.wav" ∷ [])
    then some (file (1 ∷ []))
    else none

abbrev workspace : Workspace
workspace = record { revision = 4; cached = some 4; content = content }

workspace-Ordered : Ordered workspace
unfolding seen seen_of bump_workspace_revision
workspace-Ordered = record { ordered = omega arith; near = omega arith }

abbrev request : Upload
request = record {
  path = path;
  bytes = 7 ∷ 8 ∷ [];
  leased = true;
  exists = true;
  siblings = some (ascii "a.wav" ∷ []);
}

abbrev wipe : Delete
wipe = record {
  path = record { as_str = ascii "datasets" };
  admitted = true;
  exists = true;
  producer_active = λ tree. false;
}

abbrev after_upload : Workspace
after_upload =
    (final (upload_workspace_file request (record { state = workspace; fates = [] }))).state

abbrev at_end : Workspace
at_end =
    (final (
      start_workspace_asset_delete wipe
        (record { state = after_upload; fates = succeeds ∷ crashes ∷ [] }))).state

history : Life workspace at_end
history = delete (upload begin request []) wipe (succeeds ∷ crashes ∷ [])

Life-Later_example : Later workspace at_end
Life-Later_example = Life-Later workspace at_end workspace-Ordered history

no_collision :
    (names : List (List ℕ))
    → request.siblings ≡ some names
    → any (collides (file_name (components path))) names ≡ false
unfolding collides file_name components split onto_first to_lower same_text
no_collision names e = let same : ascii "a.wav" ∷ [] ≡ names = cc in rw⁻¹ same refl

request-Acceptable : Acceptable workspace request
unfolding parse_mutable_path parse_parts under_tree with_sub strip_slash strip_prefix reparsed
    tree_named parse parsed components components_error component_error bad_byte_from or_next split
    onto_first starts_with_dot is_allowed_component_byte accepts_uploads is_deep_enough is_file
    ancestors parent is_directory is_path is_prefix same_text
request-Acceptable = record {
  tree = datasets;
  sub = record { as_str = ascii "dog/b.wav" };
  parses = refl;
  accepts = refl;
  deep = refl;
  leased = refl;
  exists = refl;
  clear = no_collision;
  passable = refl;
  vacant = refl;
}

upload_workspace_file-Uploaded_example : Uploaded workspace request
upload_workspace_file-Uploaded_example =
    upload_workspace_file-Uploaded workspace request request-Acceptable

upload_workspace_file-Outdated_example : Holds (Outdated workspace) (Later workspace) (
    upload_workspace_file request
      (record { state = workspace; fates = succeeds ∷ fails_after ∷ [] }))
upload_workspace_file-Outdated_example =
    upload_workspace_file-Outdated workspace request (succeeds ∷ fails_after ∷ []) workspace-Ordered

outcome : Uploaded workspace request
outcome = upload_workspace_file-Uploaded workspace request request-Acceptable

after_upload_lem : after_upload ≡ outcome.after
unfolding final
after_upload_lem = ap (λ r. (final r).state) outcome.runs

after_upload-revision : after_upload.revision ≡ 5
unfolding seen seen_of bump_workspace_revision
after_upload-revision = ap (λ s. s.revision) after_upload_lem ∙ outcome.revision

after_upload-changed : ¬ SameAssets workspace after_upload
unfolding SameAssets dir_name is_path is_prefix same_text accepts_uploads components split
    onto_first
after_upload-changed same =
    let e = same datasets (ascii "dog" ∷ ascii "b.wav" ∷ []) refl in
    let e' = e ∙ ap (λ s. s.content (components path)) after_upload_lem ∙ outcome.content in cc

room : after_upload.revision < u64_max
unfolding u64_max
room = omega (arith, after_upload-revision)

from_revisions-Life_example : from_revisions (seen workspace) after_upload.revision ≡ stale
from_revisions-Life_example =
    from_revisions-Life workspace after_upload workspace-Ordered (upload begin request []) room
      after_upload-changed

-- The rename is done, and the fsync after it fails.
abbrev unsynced : Workspace
unsynced =
    (final (
      upload_workspace_file request (record {
        state = workspace;
        fates = succeeds ∷ succeeds ∷ succeeds ∷ succeeds ∷ fails_after ∷ [];
      }))).state

unsynced_lem :
    (unsynced.revision ≡ 5)
    × (unsynced.cached ≡ some 4)
    × (unsynced.content (components path) ≡ some (file (7 ∷ 8 ∷ [])))
unfolding final upload_workspace_file bind ok_or parse_mutable_path components split onto_first
    same_text parse parsed components_error or_next component_error starts_with_dot bad_byte_from
    is_allowed_component_byte ensure attempt call later_fates next_fate no_effect ancestors
    bump_workspace_revision cache_cell_for_dataset carries_sub cell_of check_siblings collides
    commit_upload create_dir_all file_name is_directory is_file is_missing is_path is_prefix
    make_dirs parent publish_core put_revision rename_in to_lower write_workspace_core
    accepts_uploads dir_name is_deep_enough parse_parts reparsed strip_prefix strip_slash tree_named
    under_tree with_sub
unsynced_lem = (refl, refl, refl)
