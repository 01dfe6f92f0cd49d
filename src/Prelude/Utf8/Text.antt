-- ===== src/Prelude/Utf8/Text.antt =====
-- UTF-8 text as a sequence of characters, and its boundaries.
use al.Prelude.{
  ℕ, zero, suc, ◌+◌, ◌-◌, ◌≤◌, ◌<◌, ◌≡◌, refl, sym, ◌∙◌, ap, subst, Bool, true, false, ◌&&◌, List,
  [], ◌∷◌, ◌++◌, arith, leb, ltb, any, All, length, length-append, take, get_or, dec_lt, some,
}
use mathlib.Core.List.{append_assoc}
use al.Prelude.Windows.{get_or-append_left}
use al.Prelude.Utf8.{lead, is_char_boundary}

abbrev pub is_continuation : ℕ → Bool
is_continuation b = leb 0x80 b && ltb b 0xc0

-- The bounds that the first byte of a character puts on the second.
unfoldable pub Bounded : ℕ → ℕ → List ℕ → Type 0
Bounded low high [] = Unit
Bounded low high (c ∷ cs) = (low ≤ c) × (c ≤ high)

-- The bytes of one character, the first and the others.
pub record IsChar (b : ℕ) (tail : List ℕ) : Type 0 where
  pub more : ℕ
  pub low : ℕ
  pub high : ℕ
  pub starts : lead b ≡ some (more, low, high)
  pub size : length tail ≡ more
  pub continues : All (λ c. is_continuation c ≡ true) tail
  pub bounded : Bounded low high tail

-- What a `str` may hold.
pub data Text : List ℕ → Type 0 where
  empty : Text []
  char : (b : ℕ) (tail rest : List ℕ) → IsChar b tail → Text rest → Text (b ∷ tail ++ rest)

lead-more : (b more low high : ℕ) → lead b ≡ some (more, low, high) → more ≤ 3
unfolding lead
lead-more b more low high h = ground arith

lead-first : (b more low high : ℕ) → lead b ≡ some (more, low, high) → is_continuation b ≡ false
unfolding lead
lead-first b more low high h = ground arith

All-get_or :
    (xs : List ℕ) (k : ℕ)
    → All (λ b. is_continuation b ≡ true) xs
    → k < length xs
    → is_continuation (get_or xs k 0) ≡ true
All-get_or [] k h lt = absurd (omega arith)
All-get_or (x ∷ xs) zero h lt = h.0
All-get_or (x ∷ xs) (suc k) h lt = All-get_or xs k h.1 (omega arith)

get_or-append_right : (xs ys : List ℕ) (k : ℕ) → get_or (xs ++ ys) (length xs + k) 0 ≡ get_or ys k 0
get_or-append_right [] ys k = ap (λ j. get_or ys j 0) (omega arith)
get_or-append_right (x ∷ xs) ys k =
    let e : suc (length xs) + k ≡ suc (length xs + k) = omega arith in
    rw e (get_or-append_right xs ys k)

first_byte :
    (rest : List ℕ) → Text rest → 0 < length rest → is_continuation (get_or rest 0 0) ≡ false
first_byte rest empty lt = absurd (omega arith)
first_byte rest (char b tail more c t) lt = lead-first b c.more c.low c.high c.starts

-- Inside a character there is no boundary.
inside :
    (x : ℕ) (tail rest : List ℕ) (k : ℕ)
    → All (λ b. is_continuation b ≡ true) tail
    → k < length tail
    → is_char_boundary (x ∷ tail ++ rest) (suc k) ≡ false
unfolding is_char_boundary
inside x tail rest k c lt =
    let byte = All-get_or tail k c lt in
    let same = get_or-append_left tail rest k 0 lt in
    let len = length-append tail rest in ground arith

-- After a character the boundaries are those of the rest.
after :
    (x : ℕ) (tail rest : List ℕ) (k : ℕ)
    → Text rest
    → is_char_boundary (x ∷ tail ++ rest) (suc (length tail + k)) ≡ is_char_boundary rest k
unfolding is_char_boundary
after x tail rest k t =
    let first = first_byte rest t in
    let same = get_or-append_right tail rest k in let len = length-append tail rest in ground arith

take-append_right : (xs ys : List ℕ) (k : ℕ) → take (length xs + k) (xs ++ ys) ≡ xs ++ take k ys
take-append_right [] ys k = ap (λ j. take j ys) (omega arith)
take-append_right (x ∷ xs) ys k =
    let e : suc (length xs) + k ≡ suc (length xs + k) = omega arith in
    rw e (ap (◌∷◌ x) (take-append_right xs ys k))

-- A boundary cuts text into text.
pub Text-take : (m : List ℕ) (k : ℕ) → Text m → is_char_boundary m k ≡ true → Text (take k m)
Text-take m zero t b = empty
Text-take m (suc k) empty b = empty
Text-take m (suc k) (char x tail rest c t) b = elim (dec_lt k (length tail)) [
  | yes within ↦ let none = inside x tail rest k c.continues within in absurd (ground arith)
  | no past ↦
      let j : ℕ = k - length tail in
      let at_j : k ≡ length tail + j = omega arith in
      let b' = subst (λ i. is_char_boundary (x ∷ tail ++ rest) (suc i) ≡ true) at_j b in
      subst Text
        (ap (◌∷◌ x)
          (sym (take-append_right tail rest j) ∙ ap (λ i. take i (tail ++ rest)) (sym at_j)))
        (char x tail (take j rest) c (Text-take rest j t (sym (after x tail rest j t) ∙ b')))
]

-- A boundary is at most three bytes below.
pub near_boundary :
    (m : List ℕ) (k : ℕ)
    → Text m
    → k ≤ length m
    → (j : ℕ) × (j ≤ k) × (k ≤ j + 3) × (is_char_boundary m j ≡ true)
near_boundary m zero t le = (0, omega arith, omega arith, unfold is_char_boundary in refl)
near_boundary m (suc k) empty le = absurd (omega arith)
near_boundary m (suc k) (char x tail rest c t) le = elim (dec_lt k (length tail)) [
  | yes within ↦
      let short = lead-more x c.more c.low c.high c.starts in
      let size = c.size in (0, omega arith, omega arith, unfold is_char_boundary in refl)
  | no past ↦
      let len = length-append tail rest in
      let (j, below, near, b) = near_boundary rest (k - length tail) t (omega arith) in
      (suc (length tail + j), omega arith, omega arith, after x tail rest j t ∙ b)
]

pub Text-append : (a b : List ℕ) → Text a → Text b → Text (a ++ b)
Text-append a b empty tb = tb
Text-append a b (char x tail rest c t) tb =
    subst Text (ap (◌∷◌ x) (sym (append_assoc tail rest b)))
      (char x tail (rest ++ b) c (Text-append rest b t tb))

ascii-IsChar : (x : ℕ) → leb 0x80 x ≡ false → IsChar x []
unfolding lead Bounded
ascii-IsChar x h =
    let starts : lead x ≡ some (0, 0x80, 0xbf) = ground arith in
    record {
      more = 0;
      low = 0x80;
      high = 0xbf;
      starts = starts;
      size = refl;
      continues = tt;
      bounded = tt;
    }

-- ASCII is text.
pub Text-ascii : (xs : List ℕ) → any (leb 0x80) xs ≡ false → Text xs
Text-ascii [] h = empty
Text-ascii (x ∷ xs) h = char x [] xs (ascii-IsChar x (ground arith)) (Text-ascii xs (ground arith))
