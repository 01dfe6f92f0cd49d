-- ===== src/WorkspaceAssets/Uploads.antt =====
-- modules/file_mgr/dataset.rs: an upload that is accepted, and in which no call fails.
use al.Prelude.{
  ℕ, ◌≡◌, refl, true, false, Option, none, some, List, [], ◌∷◌, any, Bool-cases, inl, inr,
}
use al.Prelude.Texts.{same_text, same_text_refl}
use al.Common.AssetPath.{AssetPath, components}
use al.Common.AssetPath.Split.{split-cons}
use al.Effects.{World, next_fate, later_fates, done, bind, attempt, call, ok_or, ensure, no_effect}
use al.WorkspaceAssets.{Bytes, AssetTree, accepts_uploads, parse_mutable_path, is_deep_enough}
use al.WorkspaceAssets.Mutations.{
  file, Workspace, bump_workspace_revision, is_prefix, is_directory, put_revision, make_dirs,
  is_path, is_file, ancestors, create_dir_all, rename_in, publish_core, cell_of,
  cache_cell_for_dataset, write_workspace_core, collides, file_name, parent, check_siblings, Upload,
  carries_sub, commit_upload, upload_workspace_file,
}
use al.WorkspaceAssets.Revisions.{seen, seen_of}

abbrev at_rest : Workspace → World Workspace
at_rest a = record { state = a; fates = [] }

-- What an upload asks for: a path below `datasets` or `converters`, the lease, a workspace, no other
-- spelling among the siblings, no file where a directory must be, and no directory at the path.
pub record Acceptable (a : Workspace) (up : Upload) : Type 0 where
  pub tree : AssetTree
  pub sub : AssetPath
  pub parses : parse_mutable_path up.path ≡ some (tree, some sub)
  pub accepts : accepts_uploads tree ≡ true
  pub deep : is_deep_enough tree up.path ≡ true
  pub leased : up.leased ≡ true
  pub exists : up.exists ≡ true
  pub clear :
      (names : List Bytes)
      → up.siblings ≡ some names
      → any (collides (file_name (components up.path))) names ≡ false
  pub passable : any (λ p. is_file (a.content p)) (ancestors (parent (components up.path))) ≡ false
  pub vacant : is_directory (a.content (components up.path)) ≡ false

-- The state after it.
uploaded : List Bytes → Bytes → ℕ → Workspace → Workspace
uploaded path bytes next a =
    publish_core next (rename_in path bytes (make_dirs (parent path) (put_revision next a)))

cell_of_lem :
    (a : Workspace) (cell : Option ℕ)
    → a.cached ≡ cell
    → cell_of cell (at_rest a) ≡ done (seen a) (at_rest (publish_core (seen a) a))
unfolding cell_of bind attempt call next_fate later_fates no_effect publish_core seen seen_of
cell_of_lem a (some c) e = rw e refl
cell_of_lem a none e = rw e refl

not_below_parent : (c : Bytes) (cs : List Bytes) → is_prefix (c ∷ cs) (parent (c ∷ cs)) ≡ false
unfolding is_prefix parent
not_below_parent c [] = refl
not_below_parent c (d ∷ ds) = rw (same_text_refl c, not_below_parent d ds) refl

commit_upload_lem :
    (a : Workspace) (path : List Bytes) (bytes : Bytes)
    → any (λ p. is_file (a.content p)) (ancestors (parent path)) ≡ false
    → is_prefix path (parent path) ≡ false
    → is_directory (a.content path) ≡ false
    → commit_upload path bytes (at_rest a)
      ≡ done
          (bump_workspace_revision (seen a))
          (at_rest (uploaded path bytes (bump_workspace_revision (seen a)) a))
unfolding commit_upload uploaded cache_cell_for_dataset write_workspace_core create_dir_all bind
    attempt call ensure next_fate later_fates no_effect make_dirs rename_in put_revision
    publish_core
commit_upload_lem a path bytes passable above vacant =
    rw (cell_of_lem a a.cached refl, passable, above, vacant) refl

path_above : (p : AssetPath) → is_prefix (components p) (parent (components p)) ≡ false
unfolding components
path_above p = let (c, cs, parts) = split-cons p.as_str in rw parts (not_below_parent c cs)

check_siblings_lem :
    (target : Bytes) (siblings : Option (List Bytes)) (a : Workspace)
    → ((names : List Bytes) → siblings ≡ some names → any (collides target) names ≡ false)
    → check_siblings target siblings (at_rest a) ≡ done tt (at_rest a)
unfolding check_siblings bind attempt call ensure next_fate later_fates no_effect
check_siblings_lem target none a clear = refl
check_siblings_lem target (some names) a clear = rw (clear names refl) refl

is_prefix_refl : (p : List Bytes) → is_prefix p p ≡ true
unfolding is_prefix
is_prefix_refl [] = refl
is_prefix_refl (c ∷ cs) = rw (same_text_refl c, is_prefix_refl cs) refl

not_prefix_parent : (q p : List Bytes) → is_prefix q p ≡ false → is_prefix q (parent p) ≡ false
unfolding is_prefix parent
not_prefix_parent [] p e = absurd cc
not_prefix_parent (b ∷ bs) [] e = refl
not_prefix_parent (b ∷ bs) (c ∷ []) e = refl
not_prefix_parent (b ∷ bs) (c ∷ d ∷ ds) e = elim (Bool-cases (same_text b c)) [
  | inl t ↦ rw t (not_prefix_parent bs (d ∷ ds) (rw t at e))
  | inr t ↦ rw t refl
]

pub record Uploaded (a : Workspace) (up : Upload) : Type 0 where
  pub after : Workspace
  pub runs :
      upload_workspace_file up (at_rest a) ≡ done (bump_workspace_revision (seen a)) (at_rest after)
  pub revision : after.revision ≡ bump_workspace_revision (seen a)
  pub cached : after.cached ≡ some (bump_workspace_revision (seen a))
  pub content : after.content (components up.path) ≡ some (file up.bytes)
  pub others :
      (q : List Bytes) → is_prefix q (components up.path) ≡ false → after.content q ≡ a.content q

uploaded-others :
    (path q : List Bytes) (bytes : Bytes) (next : ℕ) (a : Workspace)
    → is_prefix q path ≡ false
    → (uploaded path bytes next a).content q ≡ a.content q
unfolding uploaded publish_core rename_in make_dirs put_revision is_path
uploaded-others path q bytes next a e = elim (Bool-cases (is_prefix path q)) [
  | inl t ↦ rw (t, e, not_prefix_parent q path e) refl
  | inr t ↦ rw (t, not_prefix_parent q path e) refl
]

uploaded-content :
    (path : List Bytes) (bytes : Bytes) (next : ℕ) (a : Workspace)
    → (uploaded path bytes next a).content path ≡ some (file bytes)
unfolding uploaded publish_core rename_in is_path
uploaded-content path bytes next a = rw (is_prefix_refl path) refl

-- An upload that is acceptable, and in which no call fails, is done: the receipt's revision is the
-- next after the one that was shown, `workspace.json` and the cached core have it, the file is at the
-- path, and nothing has changed but at the path and at its ancestors.
pub upload_workspace_file-Uploaded : (a : Workspace) (up : Upload) → Acceptable a up → Uploaded a up
unfolding upload_workspace_file bind ok_or ensure carries_sub uploaded publish_core rename_in
    make_dirs put_revision
upload_workspace_file-Uploaded a up ok =
    let path = components up.path in
    let next = bump_workspace_revision (seen a) in
    let commits = commit_upload_lem a path up.bytes ok.passable (path_above up.path) ok.vacant in
    let siblings = check_siblings_lem (file_name path) up.siblings a ok.clear in
    record {
      after = uploaded path up.bytes next a;
      runs = rw (ok.parses, ok.accepts, ok.deep, ok.leased, ok.exists, siblings) commits;
      revision = refl;
      cached = refl;
      content = uploaded-content path up.bytes next a;
      others = λ q e. uploaded-others path q up.bytes next a e;
    }
