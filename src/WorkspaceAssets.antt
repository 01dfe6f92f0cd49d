-- ===== src/WorkspaceAssets.antt =====
-- modules/file_mgr/dataset.rs: the paths that may be changed in a workspace, and uploads and deletes.
pub mod Paths
pub mod Mutations
pub mod Revisions
pub mod Keeps
pub mod Commits
pub mod Logs
pub mod Life
pub mod Uploads
pub mod Heads
mod Tests
use al.Prelude.{
  ℕ, ◌+◌, ◌^◌, Bool, true, false, ◌&&◌, ◌||◌, not, Option, none, some, List, [], ◌∷◌, ◌++◌, ◌==◌,
  ltb, leb, if◌then◌else◌, length, min,
}
use al.Prelude.Texts.{same_text}
use al.Prelude.Utf8.{ascii}
use al.Common.Bytes.{slash}
use al.Common.AssetPath.{AssetPath, Parsed, ok, error, parse, components}

abbrev pub Bytes : Type 0
Bytes = List ℕ

abbrev pub datasets_dir_name : Bytes
datasets_dir_name = ascii "datasets"

abbrev pub converters_dir_name : Bytes
converters_dir_name = ascii "converters"

abbrev pub training_logs_dir_name : Bytes
training_logs_dir_name = ascii "training_logs"

abbrev pub converter_logs_dir_name : Bytes
converter_logs_dir_name = ascii "converter_logs"

pub data AssetTree : Type 0 where
  datasets converters training_logs converter_logs : AssetTree

unfoldable pub dir_name : AssetTree → Bytes
dir_name datasets = datasets_dir_name
dir_name converters = converters_dir_name
dir_name training_logs = training_logs_dir_name
dir_name converter_logs = converter_logs_dir_name

unfoldable pub accepts_uploads : AssetTree → Bool
accepts_uploads datasets = true
accepts_uploads converters = true
accepts_uploads training_logs = false
accepts_uploads converter_logs = false

-- The tree of the first component.
unfoldable pub tree_named : Bytes → Option AssetTree
tree_named name =
    if same_text name datasets_dir_name
    then some datasets
    else if same_text name converters_dir_name
    then some converters
    else if same_text name training_logs_dir_name
    then some training_logs
    else if same_text name converter_logs_dir_name
    then some converter_logs
    else none

-- `str::strip_prefix`
unfoldable pub strip_prefix : Bytes → Bytes → Option Bytes
strip_prefix [] s = some s
strip_prefix (p ∷ ps) [] = none
strip_prefix (p ∷ ps) (b ∷ bs) = let rest = strip_prefix ps bs in if p == b then rest else none

unfoldable pub strip_slash : Option Bytes → Option Bytes
unfolding strip_prefix
strip_slash none = none
strip_slash (some tail) = strip_prefix (slash ∷ []) tail

unfoldable pub reparsed : AssetTree → Parsed → Option (AssetTree × Option AssetPath)
reparsed tree (ok sub) = some (tree, some sub)
reparsed tree (error e) = none

unfoldable pub with_sub : AssetTree → Option Bytes → Option (AssetTree × Option AssetPath)
unfolding reparsed
with_sub tree none = some (tree, none)
with_sub tree (some sub_raw) = reparsed tree (parse sub_raw)

unfoldable pub under_tree : Bytes → Option AssetTree → Option (AssetTree × Option AssetPath)
unfolding with_sub strip_slash strip_prefix dir_name
under_tree s none = none
under_tree s (some tree) = with_sub tree (strip_slash (strip_prefix (dir_name tree) s))

unfoldable pub parse_parts : Bytes → List Bytes → Option (AssetTree × Option AssetPath)
unfolding under_tree tree_named
parse_parts s [] = none
parse_parts s (first ∷ others) = under_tree s (tree_named first)

-- `parse_mutable_path`; each of its errors is an `InvalidName`.
unfoldable pub parse_mutable_path : AssetPath → Option (AssetTree × Option AssetPath)
unfolding parse_parts
parse_mutable_path path = parse_parts path.as_str (components path)

-- `validate_dataset_upload_depth` passes.
unfoldable pub is_deep_enough : AssetTree → AssetPath → Bool
is_deep_enough datasets path = leb 3 (length (components path))
is_deep_enough converters path = true
is_deep_enough training_logs path = true
is_deep_enough converter_logs path = true

-- `str::ends_with`
unfoldable pub ends_with : Bytes → Bytes → Bool
ends_with suffix [] = same_text [] suffix
ends_with suffix (b ∷ bs) = let rest = ends_with suffix bs in same_text (b ∷ bs) suffix || rest

-- `validate_log_subpath` passes.
unfoldable pub is_log_subpath : AssetPath → Bool
unfolding ends_with
is_log_subpath sub = length (components sub) == 1 && ends_with (ascii ".jsonl") sub.as_str

-- `build_delete_target` below the directory of the workspace.
unfoldable pub build_delete_target : AssetTree → Option AssetPath → List Bytes
unfolding dir_name
build_delete_target tree none = dir_name tree ∷ []
build_delete_target tree (some rel) = dir_name tree ∷ components rel

unfoldable pub parsed_path : Parsed → Option AssetPath
parsed_path (ok p) = some p
parsed_path (error e) = none

-- `build_display_path`, which panics where this is `none`.
unfoldable pub build_display_path : AssetTree → Option AssetPath → Option AssetPath
unfolding dir_name parsed_path
build_display_path tree none = parsed_path (parse (dir_name tree))
build_display_path tree (some rel) = parsed_path (parse (dir_name tree ++ slash ∷ rel.as_str))
