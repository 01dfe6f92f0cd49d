-- ===== src/Prelude/Utf8.antt =====
-- Rust strings as their UTF-8 bytes, and `str::is_char_boundary`.
pub mod Text
pub mod Valid
use Prim.Native.Nat.{ℕ, zero, suc}
use Prim.Native.Char.{code}
use Prim.Native.String.{String}
use mathlib.Core.Bool.{Bool, true, false, ◌||◌, ◌&&◌}
use mathlib.Core.Option.{Option, none, some}
use mathlib.Core.List.{List, [], ◌∷◌, ◌++◌}
use al.Prelude.Tests.{ltb, leb, ◌==◌, if◌then◌else◌}
use al.Prelude.Lists.{length, get_or, take}
use al.Prelude.Panics.{Outcome, returns, panics}

-- The bytes of an ASCII literal.
abbrev pub ascii : String → List ℕ
ascii String.[] = []
ascii (String.◌∷◌ c s) = code c ∷ ascii s

-- Index 0, the length, and every byte that is no continuation byte (0x80 to 0xbf).
unfoldable pub is_char_boundary : List ℕ → ℕ → Bool
is_char_boundary s index =
    if index == 0
    then true
    else if leb (length s) index
    then index == length s
    else ltb (get_or s index 0) 0x80 || leb 0xc0 (get_or s index 0)

-- `&s[..index]` panics off a boundary and beyond the end.
unfoldable pub slice_to : List ℕ → ℕ → Outcome (List ℕ)
unfolding is_char_boundary
slice_to s index = if is_char_boundary s index then returns (take index s) else panics

-- `String::truncate` does nothing beyond the end.
unfoldable pub truncate : List ℕ → ℕ → Outcome (List ℕ)
unfolding slice_to
truncate s new_len = if leb new_len (length s) then slice_to s new_len else returns s

-- `String::push_str` on what has not panicked.
unfoldable pub push_str : Outcome (List ℕ) → List ℕ → Outcome (List ℕ)
push_str (returns s) t = returns (s ++ t)
push_str panics t = panics

-- The first byte of a sequence: how many follow, and the bounds of the next.
unfoldable pub lead : ℕ → Option (ℕ × ℕ × ℕ)
lead b =
    if ltb b 0x80
    then some (0, 0x80, 0xbf)
    else if leb 0xc2 b && leb b 0xdf
    then some (1, 0x80, 0xbf)
    else if b == 0xe0
    then some (2, 0xa0, 0xbf)
    else if b == 0xed
    then some (2, 0x80, 0x9f)
    else if leb 0xe1 b && leb b 0xef
    then some (2, 0x80, 0xbf)
    else if b == 0xf0
    then some (3, 0x90, 0xbf)
    else if leb 0xf1 b && leb b 0xf3
    then some (3, 0x80, 0xbf)
    else if b == 0xf4
    then some (3, 0x80, 0x8f)
    else none

-- Whether `more` continuation bytes and then UTF-8 follow.
unfoldable pub is_utf8_from : ℕ → ℕ → ℕ → List ℕ → Bool
unfolding lead
is_utf8_from zero low high [] = true
is_utf8_from (suc more) low high [] = false
is_utf8_from (suc more) low high (b ∷ bs) =
    leb low b && leb b high && is_utf8_from more 0x80 0xbf bs
is_utf8_from zero low high (b ∷ bs) = elim (lead b) [
  | none ↦ false
  | some (more, low, high) ↦ is_utf8_from more low high bs
]

-- `str::from_utf8` succeeds.
unfoldable pub is_utf8 : List ℕ → Bool
unfolding is_utf8_from
is_utf8 bytes = is_utf8_from 0 0x80 0xbf bytes
