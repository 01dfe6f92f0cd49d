-- ===== src/Common/Tests.antt =====
-- modules/common: the theorems at concrete inputs.
use al.Prelude.{returns, ℕ, ◌≡◌, ◌↔◌, refl, false, none, List, replicate, any, leb, zero, suc}
use al.Prelude.Utf8.{ascii}
use al.Prelude.Utf8.Text.{Text-ascii}
use al.Common.LogTruncate.{max_log_line_bytes, truncate_log_message}
use al.Common.LogTruncate.Cut.{Shortened, truncate_log_message_lem}
use al.Common.AssetPath.{AssetPath, parse, ok}
use al.Common.AssetPath.Accepts.{IsAssetPath, parse-IsAssetPath}
use al.Common.Ids.{validate_uuid_v4_str}
use al.Common.Ids.Accepts.{IsUuidV4, validate_uuid_v4_str-IsUuidV4}

any-replicate : (n : ℕ) → any (leb 0x80) (replicate n 97) ≡ false
any-replicate zero = refl
any-replicate (suc n) = any-replicate n

abbrev long : List ℕ
long = replicate 9000 97

truncate_log_message_example :
    (s : List ℕ) × (truncate_log_message long ≡ returns s)
    × Shortened long max_log_line_bytes max_log_line_bytes (ascii "...[truncated]") s
truncate_log_message_example = truncate_log_message_lem long (Text-ascii long (any-replicate 9000))

abbrev path : AssetPath
path = record { as_str = ascii "converters/a.bin" }

parse-IsAssetPath_example :
    (parse path.as_str ≡ ok path) ↔ ((path.as_str ≡ path.as_str) × IsAssetPath path.as_str)
parse-IsAssetPath_example = parse-IsAssetPath path.as_str path

abbrev uuid : List ℕ
uuid = ascii "0f0f0f0f-1234-4abc-9def-00112233aabb"

validate_uuid_v4_str_example : (validate_uuid_v4_str uuid ≡ none) ↔ IsUuidV4 uuid
validate_uuid_v4_str_example = validate_uuid_v4_str-IsUuidV4 uuid
