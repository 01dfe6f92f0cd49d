-- ===== src/Common/AssetPath.antt =====
-- modules/common/asset_path.rs: validated paths of the asset trees. A string is its bytes.
pub mod Split
pub mod Accepts
use al.Prelude.{
  ℕ, suc, ◌+◌, Bool, true, false, Option, none, some, List, [], ◌∷◌, ltb, ◌==◌, if◌then◌else◌,
  length, not,
}
use al.Common.Bytes.{dot, slash, is_allowed_component_byte, ErrorKind, user_input}

abbrev pub max_total_bytes : ℕ
max_total_bytes = 256

abbrev pub max_component_bytes : ℕ
max_component_bytes = 255

abbrev pub max_depth : ℕ
max_depth = 8

pub data AssetPathError : Type 0 where
  empty : AssetPathError
  empty_component : ℕ → AssetPathError
  total_too_long : ℕ → ℕ → AssetPathError
  component_too_long : ℕ → ℕ → ℕ → AssetPathError
  too_deep : ℕ → ℕ → AssetPathError
  leading_dot : ℕ → AssetPathError
  bad_byte : ℕ → ℕ → ℕ → AssetPathError

-- `Categorized::kind`
unfoldable pub kind : AssetPathError → ErrorKind
kind e = user_input

pub record AssetPath : Type 0 where
  pub as_str : List ℕ

-- Puts a byte before the first component.
unfoldable pub onto_first : ℕ → List (List ℕ) → List (List ℕ)
onto_first b [] = (b ∷ []) ∷ []
onto_first b (c ∷ cs) = (b ∷ c) ∷ cs

-- `str::split('/')`
unfoldable pub split : List ℕ → List (List ℕ)
split [] = [] ∷ []
split (b ∷ bs) = let rest = split bs in if b == slash then [] ∷ rest else onto_first b rest

-- `str::starts_with('.')`
unfoldable pub starts_with_dot : List ℕ → Bool
starts_with_dot [] = false
starts_with_dot (b ∷ bs) = b == dot

-- The loop over the bytes of a component.
unfoldable pub bad_byte_from : ℕ → ℕ → List ℕ → Option AssetPathError
bad_byte_from component_index byte_index [] = none
bad_byte_from component_index byte_index (b ∷ bs) =
    if not (is_allowed_component_byte b)
    then some (bad_byte component_index byte_index b)
    else bad_byte_from component_index (suc byte_index) bs

-- The checks on one component.
unfoldable pub component_error : ℕ → List ℕ → Option AssetPathError
component_error component_index component =
    if length component == 0
    then some (empty_component component_index)
    else if ltb max_component_bytes (length component)
    then some (component_too_long component_index (length component) max_component_bytes)
    else if starts_with_dot component
    then some (leading_dot component_index)
    else bad_byte_from component_index 0 component

unfoldable pub or_next : Option AssetPathError → Option AssetPathError → Option AssetPathError
or_next (some e) next = some e
or_next none next = next

-- The loop over the components; `depth` counts those before.
unfoldable pub components_error : ℕ → List (List ℕ) → Option AssetPathError
components_error depth [] = none
components_error depth (component ∷ components) =
    let next = components_error (suc depth) components in
    if ltb max_depth (suc depth)
    then some (too_deep (suc depth) max_depth)
    else or_next (component_error depth component) next

pub data Parsed : Type 0 where
  ok : AssetPath → Parsed
  error : AssetPathError → Parsed

unfoldable pub parsed : List ℕ → Option AssetPathError → Parsed
parsed s none = ok (record { as_str = s })
parsed s (some e) = error e

-- `AssetPath::parse`
unfoldable pub parse : List ℕ → Parsed
parse s =
    if length s == 0
    then error empty
    else if ltb max_total_bytes (length s)
    then error (total_too_long (length s) max_total_bytes)
    else parsed s (components_error 0 (split s))

-- `AssetPath::components`
unfoldable pub components : AssetPath → List (List ℕ)
components p = split p.as_str

-- `AssetPath::depth`
unfoldable pub depth : AssetPath → ℕ
depth p = length (split p.as_str)
