-- ===== src/Common/Ids.antt =====
-- modules/common/ids.rs: the validators of identifiers. A string is its bytes.
pub mod Accepts
use al.Prelude.{
  ℕ, suc, ◌+◌, Bool, true, false, ◌&&◌, ◌||◌, not, Option, none, some, List, [], ◌∷◌, ltb, ◌==◌,
  if◌then◌else◌, length, get_or,
}
use al.Common.Bytes.{
  dot, dash, between, is_ascii_digit, is_allowed_component_byte, ErrorKind, user_input,
}

-- The identifier kind of a message: "asset id" or "mic id".
pub data IdKind : Type 0 where
  asset_id mic_id : IdKind

pub data IdError : Type 0 where
  empty : IdError
  bad_uuid_length : ℕ → IdError
  bad_uuid_byte : ℕ → ℕ → IdError
  bad_uuid_version : ℕ → IdError
  bad_uuid_variant : ℕ → IdError
  too_long : IdKind → ℕ → ℕ → IdError
  bad_char : IdKind → ℕ → ℕ → IdError

-- `Categorized::kind`
unfoldable pub kind : IdError → ErrorKind
kind e = user_input

-- `matches!(i, 8 | 13 | 18 | 23)`
unfoldable pub is_dash_position : ℕ → Bool
is_dash_position i = i == 8 || (i == 13 || (i == 18 || i == 23))

-- The byte test at the position `i`.
unfoldable pub is_uuid_byte : ℕ → ℕ → Bool
is_uuid_byte i b = if is_dash_position i then b == dash else is_ascii_digit b || between 97 102 b

-- The loop over the bytes from the position `i` on.
unfoldable pub bad_byte_from : (ℕ → ℕ → Bool) → (ℕ → ℕ → IdError) → ℕ → List ℕ → Option IdError
bad_byte_from ok error i [] = none
bad_byte_from ok error i (b ∷ bs) =
    if not (ok i b) then some (error i b) else bad_byte_from ok error (suc i) bs

unfoldable pub or_next : Option IdError → Option IdError → Option IdError
or_next (some e) next = some e
or_next none next = next

-- `matches!(b, b'8' | b'9' | b'a' | b'b')`
unfoldable pub is_variant_byte : ℕ → Bool
is_variant_byte b = b == 56 || (b == 57 || (b == 97 || b == 98))

-- The version nibble and then the variant nibble.
unfoldable pub version_error : List ℕ → Option IdError
version_error bytes =
    if not (get_or bytes 14 0 == 52)
    then some (bad_uuid_version (get_or bytes 14 0))
    else if not (is_variant_byte (get_or bytes 19 0))
    then some (bad_uuid_variant (get_or bytes 19 0))
    else none

-- `validate_uuid_v4_str`: the error it returns, if any.
unfoldable pub validate_uuid_v4_str : List ℕ → Option IdError
validate_uuid_v4_str s =
    if length s == 0
    then some empty
    else if not (length s == 36)
    then some (bad_uuid_length (length s))
    else or_next (bad_byte_from is_uuid_byte bad_uuid_byte 0 s) (version_error s)

abbrev pub asset_id_max : ℕ
asset_id_max = 255

-- `AssetId::parse`: the error it returns, if any.
unfoldable pub parse_asset_id : List ℕ → Option IdError
parse_asset_id s =
    if length s == 0
    then some empty
    else if ltb asset_id_max (length s)
    then some (too_long asset_id (length s) asset_id_max)
    else if get_or s 0 0 == dot
    then some (bad_char asset_id 0 dot)
    else bad_byte_from (λ i b. is_allowed_component_byte b) (bad_char asset_id) 0 s

abbrev pub mic_id_max : ℕ
mic_id_max = 128

-- `(b'!'..=b'~').contains(&b)`
unfoldable pub is_printable : ℕ → Bool
is_printable b = between 33 126 b

-- `MicId::parse`: the error it returns, if any.
unfoldable pub parse_mic_id : List ℕ → Option IdError
parse_mic_id s =
    if length s == 0
    then some empty
    else if ltb mic_id_max (length s)
    then some (too_long mic_id (length s) mic_id_max)
    else bad_byte_from (λ i b. is_printable b) (bad_char mic_id) 0 s
