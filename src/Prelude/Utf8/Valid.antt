-- ===== src/Prelude/Utf8/Valid.antt =====
-- Text is what `str::from_utf8` accepts.
use al.Prelude.{
  ℕ, zero, suc, ◌≤◌, ◌≡◌, refl, sym, ◌∙◌, ap, subst, true, false, List, [], ◌∷◌, ◌++◌, arith, All,
  length, length-append, some, none, Option-cases, inl, inr, ◌↔◌,
}
use al.Prelude.Utf8.{lead, is_utf8_from, is_utf8}
use al.Prelude.Utf8.Text.{is_continuation, Bounded, Text, empty, char}

-- Between characters the bounds do not matter.
is_utf8_from-zero :
    (low high : ℕ) (m : List ℕ) → is_utf8_from 0 low high m ≡ is_utf8_from 0 0x80 0xbf m
unfolding is_utf8_from
is_utf8_from-zero low high [] = refl
is_utf8_from-zero low high (b ∷ bs) = refl

continuation-Bounded : (cs : List ℕ) → All (λ c. is_continuation c ≡ true) cs → Bounded 0x80 0xbf cs
unfolding Bounded
continuation-Bounded [] h = tt
continuation-Bounded (c ∷ cs) h = let here = h.0 in (ground arith, ground arith)

tail-is_utf8_from :
    (more low high : ℕ) (tail rest : List ℕ)
    → length tail ≡ more
    → All (λ c. is_continuation c ≡ true) tail
    → Bounded low high tail
    → is_utf8 rest ≡ true
    → is_utf8_from more low high (tail ++ rest) ≡ true
unfolding is_utf8 is_utf8_from Bounded
tail-is_utf8_from zero low high [] rest size continues bounded h =
    is_utf8_from-zero low high rest ∙ h
tail-is_utf8_from (suc more) low high [] rest size continues bounded h = absurd (omega arith)
tail-is_utf8_from zero low high (c ∷ cs) rest size continues bounded h = absurd (omega arith)
tail-is_utf8_from (suc more) low high (c ∷ cs) rest size continues bounded h =
    let following : Bounded 0x80 0xbf cs = continuation-Bounded cs continues.1 in
    let ih = tail-is_utf8_from more 0x80 0xbf cs rest (omega arith) continues.1 following h in
    let above = bounded.0 in let below = bounded.1 in ground arith

no_first-is_utf8 : (b : ℕ) (bs : List ℕ) → lead b ≡ none → is_utf8 (b ∷ bs) ≡ false
unfolding is_utf8 is_utf8_from
no_first-is_utf8 b bs e =
    ap (λ o. elim o [ none ↦ false | some (m, l, h) ↦ is_utf8_from m l h bs ]) e

first-is_utf8 :
    (b more low high : ℕ) (bs : List ℕ)
    → lead b ≡ some (more, low, high)
    → is_utf8 (b ∷ bs) ≡ is_utf8_from more low high bs
unfolding is_utf8 is_utf8_from
first-is_utf8 b more low high bs e =
    ap (λ o. elim o [ none ↦ false | some (m, l, h) ↦ is_utf8_from m l h bs ]) e

Text-is_utf8 : (m : List ℕ) → Text m → is_utf8 m ≡ true
unfolding is_utf8 is_utf8_from
Text-is_utf8 m empty = refl
Text-is_utf8 m (char b tail rest c t) =
    let ih = Text-is_utf8 rest t in
    let reads = tail-is_utf8_from c.more c.low c.high tail rest c.size c.continues c.bounded ih in
    first-is_utf8 b c.more c.low c.high (tail ++ rest) c.starts ∙ reads

lead-bounds : (b more low high : ℕ) → lead b ≡ some (more, low, high) → (0x80 ≤ low) × (high ≤ 0xbf)
unfolding lead
lead-bounds b more low high h = (ground arith, ground arith)

-- The bytes that complete a character, and what follows.
record Completes (more low high : ℕ) (m : List ℕ) : Type 0 where
  tail : List ℕ
  rest : List ℕ
  splits : m ≡ tail ++ rest
  size : length tail ≡ more
  continues : All (λ c. is_continuation c ≡ true) tail
  bounded : Bounded low high tail
  valid : is_utf8 rest ≡ true

is_utf8_from-Completes :
    (more low high : ℕ) (m : List ℕ)
    → 0x80 ≤ low
    → high ≤ 0xbf
    → is_utf8_from more low high m ≡ true
    → Completes more low high m
unfolding is_utf8 is_utf8_from Bounded
is_utf8_from-Completes zero low high m above below h = record {
  tail = [];
  rest = m;
  splits = refl;
  size = refl;
  continues = tt;
  bounded = tt;
  valid = sym (is_utf8_from-zero low high m) ∙ h;
}
is_utf8_from-Completes (suc more) low high [] above below h = cc
is_utf8_from-Completes (suc more) low high (b ∷ bs) above below h =
    let c = is_utf8_from-Completes more 0x80 0xbf bs (omega arith) (omega arith) (ground arith) in
    record {
      tail = b ∷ c.tail;
      rest = c.rest;
      splits = ap (◌∷◌ b) c.splits;
      size = ap suc c.size;
      continues = (ground arith, c.continues);
      bounded = (ground arith, ground arith);
      valid = c.valid;
    }

is_utf8-Text_within : (n : ℕ) (m : List ℕ) → length m ≤ n → is_utf8 m ≡ true → Text m
unfolding is_utf8 is_utf8_from
is_utf8-Text_within n [] le h = empty
is_utf8-Text_within zero (b ∷ bs) le h = absurd (omega arith)
is_utf8-Text_within (suc n) (b ∷ bs) le h = elim (Option-cases (lead b)) [
  | inl none_such ↦ let bad = sym (no_first-is_utf8 b bs none_such) ∙ h in cc
  | inr ((more, low, high), starts) ↦
      let reads : is_utf8_from more low high bs ≡ true =
        sym (first-is_utf8 b more low high bs starts) ∙ h in
      let bounds = lead-bounds b more low high starts in
      let c = is_utf8_from-Completes more low high bs bounds.0 bounds.1 reads in
      let len = ap length c.splits ∙ length-append c.tail c.rest in
      subst (λ xs. Text (b ∷ xs)) (sym c.splits)
        (char b c.tail c.rest
          (record {
            more = more;
            low = low;
            high = high;
            starts = starts;
            size = c.size;
            continues = c.continues;
            bounded = c.bounded;
          })
          (is_utf8-Text_within n c.rest (omega arith) c.valid))
]

-- Text is exactly what `str::from_utf8` accepts.
pub Text-iff_is_utf8 : (m : List ℕ) → Text m ↔ (is_utf8 m ≡ true)
Text-iff_is_utf8 m = (Text-is_utf8 m, λ h. is_utf8-Text_within (length m) m (omega arith) h)
