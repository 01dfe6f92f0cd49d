-- ===== src/WorkspaceAssets/Paths.antt =====
-- modules/file_mgr/dataset.rs: a path of a tree and its parts.
use al.Prelude.{
  ◌+◌, ◌≤◌, ◌≡◌, ◌⊎◌, inl, inr, refl, sym, ◌∙◌, ap, true, Option, none, some, List, [], ◌∷◌, ◌++◌,
  ◌==◌, length, All, arith, Bool-cases, Option-cases, length-append, ◌≢◌,
}
use al.Prelude.Texts.{same_text, same_text-true}
use al.Common.Bytes.{slash}
use al.Common.AssetPath.{max_total_bytes, max_depth, AssetPath, ok, parse, components}
use al.Common.AssetPath.Split.{join}
use al.Common.AssetPath.Accepts.{IsComponent, IsAssetPath, parse-IsAssetPath, split-IsAssetPath}
use al.WorkspaceAssets.{
  Bytes, datasets_dir_name, converters_dir_name, training_logs_dir_name, converter_logs_dir_name,
  AssetTree, datasets, converters, training_logs, converter_logs, dir_name, tree_named,
  strip_prefix, strip_slash, reparsed, with_sub, under_tree, parse_parts, parse_mutable_path,
  build_delete_target, parsed_path, build_display_path,
}

strip_prefix-append : (p t : Bytes) → strip_prefix p (p ++ t) ≡ some t
unfolding strip_prefix
strip_prefix-append [] t = refl
strip_prefix-append (p ∷ ps) t =
    let same : (p == p) ≡ true = ground arith in rw same (strip_prefix-append ps t)

strip_prefix_self : (p : Bytes) → strip_prefix p p ≡ some []
unfolding strip_prefix
strip_prefix_self [] = refl
strip_prefix_self (p ∷ ps) =
    let same : (p == p) ≡ true = ground arith in rw same (strip_prefix_self ps)

tree_named-some :
    (name : Bytes) (tree : AssetTree) → tree_named name ≡ some tree → name ≡ dir_name tree
unfolding tree_named dir_name same_text
tree_named-some name tree e = elim (Bool-cases (same_text name datasets_dir_name)) [
  | inl h ↦
      let is : datasets ≡ tree = let r = rw h at e in cc in
      same_text-true name datasets_dir_name h ∙ ap dir_name is
  | inr h ↦
      let e = rw h at e in
      elim (Bool-cases (same_text name converters_dir_name)) [
        | inl h ↦
            let is : converters ≡ tree = let r = rw h at e in cc in
            same_text-true name converters_dir_name h ∙ ap dir_name is
        | inr h ↦
            let e = rw h at e in
            elim (Bool-cases (same_text name training_logs_dir_name)) [
              | inl h ↦
                  let is : training_logs ≡ tree = let r = rw h at e in cc in
                  same_text-true name training_logs_dir_name h ∙ ap dir_name is
              | inr h ↦
                  let e = rw h at e in
                  elim (Bool-cases (same_text name converter_logs_dir_name)) [
                    | inl h ↦
                        let is : converter_logs ≡ tree = let r = rw h at e in cc in
                        same_text-true name converter_logs_dir_name h ∙ ap dir_name is
                    | inr h ↦ let r = rw h at e in cc
                  ]
            ]
      ]
]

-- A path of a tree: what it parses to, with what is shown and what is deleted for it.
pub record Addressed (path : AssetPath) : Type 0 where
  tree : AssetTree
  sub : Option AssetPath
  parses : parse_mutable_path path ≡ some (tree, sub)
  shows : build_display_path tree sub ≡ some path
  deletes : build_delete_target tree sub ≡ components path

parse_mutable_path_bare :
    (tree : AssetTree) (path : AssetPath)
    → path.as_str ≡ dir_name tree
    → components path ≡ dir_name tree ∷ []
    → tree_named (dir_name tree) ≡ some tree
    → parse_mutable_path path ≡ some (tree, none)
unfolding parse_mutable_path parse_parts under_tree with_sub strip_slash strip_prefix
parse_mutable_path_bare tree path same parts named =
    rw (parts, named, same, strip_prefix_self (dir_name tree)) refl

parse_mutable_path_below :
    (tree : AssetTree) (path : AssetPath) (rest : Bytes) (others : List Bytes) (rel : AssetPath)
    → path.as_str ≡ dir_name tree ++ slash ∷ rest
    → components path ≡ dir_name tree ∷ others
    → tree_named (dir_name tree) ≡ some tree
    → parse rest ≡ ok rel
    → parse_mutable_path path ≡ some (tree, some rel)
unfolding parse_mutable_path parse_parts under_tree with_sub strip_slash strip_prefix reparsed
parse_mutable_path_below tree path rest others rel same parts named again =
    rw (parts, named, same, strip_prefix-append (dir_name tree) (slash ∷ rest), again) refl

AssetPath-eta : (p : AssetPath) (s : Bytes) → p.as_str ≡ s → p ≡ record { as_str = s }
AssetPath-eta p s e = ap (λ x. record { as_str = x }) e

named_path-Addressed :
    (tree : AssetTree) (path : AssetPath) (c : Bytes) (cs : List Bytes)
    → parse path.as_str ≡ ok path
    → path.as_str ≡ join (c ∷ cs)
    → components path ≡ c ∷ cs
    → All IsComponent (c ∷ cs)
    → length (c ∷ cs) ≤ max_depth
    → length path.as_str ≤ max_total_bytes
    → tree_named c ≡ some tree
    → c ≡ dir_name tree
    → Addressed path
unfolding join build_display_path parsed_path build_delete_target components
named_path-Addressed tree path c [] parsed joins parts valid shallow short named is =
    let at_tree = joins ∙ is in
    record {
      tree = tree;
      sub = none;
      parses =
          parse_mutable_path_bare tree path at_tree (parts ∙ ap (λ x. x ∷ []) is) (rw is at named);
      shows = rw (sym at_tree, parsed) refl;
      deletes = sym (parts ∙ ap (λ x. x ∷ []) is);
    }
named_path-Addressed tree path c (d ∷ ds) parsed joins parts valid shallow short named is =
    let rest = join (d ∷ ds) in
    let below : path.as_str ≡ dir_name tree ++ slash ∷ rest =
      joins ∙ ap (λ x. x ++ slash ∷ rest) is in
    let long : length path.as_str ≡ length (dir_name tree) + length (slash ∷ rest) =
      ap length below ∙ length-append (dir_name tree) (slash ∷ rest) in
    let rel : IsAssetPath rest = record {
      first = d;
      others = ds;
      joins = refl;
      shallow = omega arith;
      components = valid.1;
      short = omega arith;
    } in
    let again : parse rest ≡ ok (record { as_str = rest }) =
      (parse-IsAssetPath rest (record { as_str = rest })).1 (refl, rel) in
    record {
      tree = tree;
      sub = some (record { as_str = rest });
      parses =
          parse_mutable_path_below tree path rest (d ∷ ds) (record { as_str = rest }) below
            (parts ∙ ap (λ x. x ∷ d ∷ ds) is) (rw is at named) again;
      shows = rw (sym below, parsed) refl;
      deletes =
          ap (◌∷◌ (dir_name tree)) (split-IsAssetPath rest rel)
          ∙ sym (parts ∙ ap (λ x. x ∷ d ∷ ds) is);
    }

unnamed_path :
    (path : AssetPath) (c : Bytes) (cs : List Bytes)
    → components path ≡ c ∷ cs
    → tree_named c ≡ none
    → parse_mutable_path path ≡ none
unfolding parse_mutable_path parse_parts under_tree
unnamed_path path c cs parts unnamed = rw (parts, unnamed) refl

tree_named-dir_name : (tree : AssetTree) → tree_named (dir_name tree) ≡ some tree
unfolding tree_named dir_name same_text
tree_named-dir_name datasets = refl
tree_named-dir_name converters = refl
tree_named-dir_name training_logs = refl
tree_named-dir_name converter_logs = refl

-- A path that `AssetPath::parse` accepts either starts with the name of a tree, and then it is parsed
-- to a tree and a sub-path such that `build_display_path` gives back the path, without a panic, and
-- `build_delete_target` has its components; or it does not, and then it is refused.
pub parse_mutable_path-Addressed :
    (path : AssetPath)
    → parse path.as_str ≡ ok path
    → Addressed path
      ⊎ ((parse_mutable_path path ≡ none)
          × ((tree : AssetTree) (rest : List Bytes) → components path ≢ dir_name tree ∷ rest))
unfolding components
parse_mutable_path-Addressed path parsed =
    let v = ((parse-IsAssetPath path.as_str path).0 parsed).1 in
    let parts = split-IsAssetPath path.as_str v in
    elim (Option-cases (tree_named v.first)) [
      | inl unnamed ↦ inr (
        unnamed_path path v.first v.others parts unnamed,
        λ tree rest e.
            let same : v.first ∷ v.others ≡ dir_name tree ∷ rest = sym parts ∙ e in
            let first : v.first ≡ dir_name tree = cc in
            let r = tree_named-dir_name tree in let r' = rw first at unnamed in absurd cc,
      )
      | inr (tree, named) ↦ inl (
          named_path-Addressed tree path v.first v.others parsed v.joins parts v.components
            v.shallow v.short named (tree_named-some v.first tree named))
    ]
