-- ===== src/Common/HeadHeader/Fields.antt =====
-- modules/common/head_header.rs: which bytes are a header, and what is read back of what is written.
use al.Prelude.{
  ℕ, zero, suc, ◌+◌, ◌/◌, ◌^◌, ◌≤◌, ◌<◌, ◌≡◌, ◌↔◌, refl, sym, ◌∙◌, ap, subst, true, false, not,
  List, [], ◌∷◌, ◌++◌, ◌==◌, ltb, leb, length, take, All, arith, Bool-cases, inl, inr,
}
use Prim.Native.Nat.{bit_and, bit_xor}
use al.Prelude.Bits.{bit_xor_lt, bit_and-mask}
use al.Framing.{to_le_bytes, from_le_bytes}
use al.Framing.RoundTrip.{from-to_le_bytes, to-from_le_bytes}
use al.Common.HeadHeader.{
  head_magic, head_header_version, head_header_size, HeadHeader, too_short, crc32_rounds,
  crc32_table, crc32_from, crc32_ieee, ok, error, parse_fields, slice, parse_header,
}
use al.Prelude.Texts.{same_text, same_text-true}

crc32_rounds_lt : (k c : ℕ) → c < 2 ^ 32 → crc32_rounds k c < 2 ^ 32
unfolding crc32_rounds
crc32_rounds_lt zero c lt = lt
crc32_rounds_lt (suc k) c lt = elim (Bool-cases (not (bit_and c 1 == 0))) [
  | inl odd ↦
      rw odd
        (crc32_rounds_lt k _ (bit_xor_lt 32 0xEDB88320 (c / 2) (omega arith) (omega (arith, lt))))
  | inr even ↦ rw even (crc32_rounds_lt k _ (omega (arith, lt)))
]

crc32_table_lt : (x : ℕ) → crc32_table (bit_and x 0xFF) < 2 ^ 32
unfolding crc32_table
crc32_table_lt x = crc32_rounds_lt 8 (bit_and x 0xFF) (omega (arith, bit_and-mask 8 x))

crc32_from_lt : (crc : ℕ) (bytes : List ℕ) → crc < 2 ^ 32 → crc32_from crc bytes < 2 ^ 32
unfolding crc32_from
crc32_from_lt crc [] lt = lt
crc32_from_lt crc (b ∷ bs) lt =
    crc32_from_lt (bit_xor (crc32_table (bit_and (bit_xor crc b) 0xFF)) (crc / 256)) bs (
      bit_xor_lt 32 (crc32_table (bit_and (bit_xor crc b) 0xFF)) (crc / 256)
        (crc32_table_lt (bit_xor crc b)) (omega (arith, lt)))

pub crc32_ieee_lt : (bytes : List ℕ) → crc32_ieee bytes < 2 ^ 32
unfolding crc32_ieee
crc32_ieee_lt bytes =
    bit_xor_lt 32 _ 0xFFFFFFFF (crc32_from_lt 0xFFFFFFFF bytes (omega arith)) (omega arith)

-- What the slices of a header with the magic, a version that is supported and a right checksum give.
parse_fields-ok :
    (v d c p k : List ℕ) (computed : ℕ)
    → ltb head_header_version (from_le_bytes v) ≡ false
    → (from_le_bytes k == computed) ≡ true
    → parse_fields head_magic v d c p k computed
      ≡ ok (record {
        header_version = from_le_bytes v;
        feature_dim = from_le_bytes d;
        num_classes = from_le_bytes c;
        payload_len = from_le_bytes p;
      })
unfolding parse_fields same_text
parse_fields-ok v d c p k computed supported same = rw (supported, same) refl

parse_fields_lem :
    (v d c p k : ℕ)
    → v ≤ 1
    → d < 2 ^ 32
    → c < 2 ^ 32
    → p < 2 ^ 32
    → k < 2 ^ 32
    → parse_fields head_magic
        (to_le_bytes v)
        (to_le_bytes d)
        (to_le_bytes c)
        (to_le_bytes p)
        (to_le_bytes k)
        k
      ≡ ok (record { header_version = v; feature_dim = d; num_classes = c; payload_len = p })
parse_fields_lem v d c p k le hd hc hp hk =
    let ev = from-to_le_bytes v (omega (arith, le)) in
    let ed = from-to_le_bytes d hd in
    let ec = from-to_le_bytes c hc in
    let ep = from-to_le_bytes p hp in
    let ek = from-to_le_bytes k hk in
    parse_fields-ok (to_le_bytes v) (to_le_bytes d) (to_le_bytes c) (to_le_bytes p) (to_le_bytes k)
      k (ground arith) (ground arith)
    ∙ rw (ev, ed, ec, ep) refl

parse_header-long :
    (bytes : List ℕ)
    → head_header_size ≤ length bytes
    → parse_header bytes
      ≡ parse_fields
          (take 8 bytes)
          (slice 8 4 bytes)
          (slice 12 4 bytes)
          (slice 16 4 bytes)
          (slice 24 4 bytes)
          (slice 28 4 bytes)
          (crc32_ieee (take 28 bytes))
unfolding parse_header
parse_header-long bytes le =
    let enough : ltb (length bytes) head_header_size ≡ false = ground arith in rw enough refl

short_lem :
    (bytes : List ℕ)
    → length bytes < head_header_size
    → parse_header bytes ≡ error (too_short (length bytes))
unfolding parse_header
short_lem bytes lt =
    let short : ltb (length bytes) head_header_size ≡ true = ground arith in rw short refl

-- A header that is followed by anything, and the slices of it.
parse-slices :
    (v d c p k a b e f : ℕ) (rest : List ℕ)
    → parse_header (
        head_magic
        ++ to_le_bytes v
        ++ to_le_bytes d
        ++ to_le_bytes c
        ++ (a ∷ b ∷ e ∷ f ∷ [])
        ++ to_le_bytes p
        ++ to_le_bytes k
        ++ rest)
      ≡ parse_fields head_magic
          (to_le_bytes v)
          (to_le_bytes d)
          (to_le_bytes c)
          (to_le_bytes p)
          (to_le_bytes k)
          (crc32_ieee (
            head_magic
            ++ to_le_bytes v
            ++ to_le_bytes d
            ++ to_le_bytes c
            ++ (a ∷ b ∷ e ∷ f ∷ [])
            ++ to_le_bytes p))
unfolding slice to_le_bytes
parse-slices v d c p k a b e f rest =
    parse_header-long
      (head_magic
        ++ to_le_bytes v
        ++ to_le_bytes d
        ++ to_le_bytes c
        ++ (a ∷ b ∷ e ∷ f ∷ [])
        ++ to_le_bytes p
        ++ to_le_bytes k
        ++ rest)
      (omega arith)

-- The bytes that the checksum is of.
unfoldable pub checked : HeadHeader → ℕ × ℕ × ℕ × ℕ → List ℕ
checked h (a, b, e, f) =
    head_magic
    ++ to_le_bytes h.header_version
    ++ to_le_bytes h.feature_dim
    ++ to_le_bytes h.num_classes
    ++ (a ∷ b ∷ e ∷ f ∷ [])
    ++ to_le_bytes h.payload_len

unfoldable pub laid_out : HeadHeader → ℕ × ℕ × ℕ × ℕ → List ℕ → List ℕ
unfolding checked
laid_out h (a, b, e, f) rest =
    head_magic
    ++ to_le_bytes h.header_version
    ++ to_le_bytes h.feature_dim
    ++ to_le_bytes h.num_classes
    ++ (a ∷ b ∷ e ∷ f ∷ [])
    ++ to_le_bytes h.payload_len
    ++ to_le_bytes (crc32_ieee (checked h (a, b, e, f)))
    ++ rest

-- The bytes of a header, followed by anything. The reserved bytes are free.
pub record IsHeader (h : HeadHeader) (bytes : List ℕ) : Type 0 where
  pub version : h.header_version ≤ 1
  pub dim : h.feature_dim < 2 ^ 32
  pub classes : h.num_classes < 2 ^ 32
  pub len : h.payload_len < 2 ^ 32
  pub reserved : ℕ × ℕ × ℕ × ℕ
  pub rest : List ℕ
  pub shape : bytes ≡ laid_out h reserved rest

pub IsHeader-parse_header :
    (h : HeadHeader) (bytes : List ℕ) → IsHeader h bytes → parse_header bytes ≡ ok h
unfolding laid_out checked
IsHeader-parse_header h bytes i =
    let (a, b, e, f) = i.reserved in
    let buf = checked h i.reserved in
    ap parse_header i.shape
    ∙ (parse-slices h.header_version h.feature_dim h.num_classes h.payload_len (crc32_ieee buf) a b
          e f i.rest
        ∙ parse_fields_lem h.header_version h.feature_dim h.num_classes h.payload_len
            (crc32_ieee buf) i.version i.dim i.classes i.len (crc32_ieee_lt buf))

record Quad : Type 0 where
  first : ℕ
  second : ℕ
  third : ℕ
  fourth : ℕ

abbrev quad : Quad → List ℕ
quad q = q.first ∷ q.second ∷ q.third ∷ q.fourth ∷ []

-- The first four bytes.
cut :
    (n : ℕ) (bytes : List ℕ)
    → 4 + n ≤ length bytes
    → (q : Quad) × (rest : List ℕ) × (bytes ≡ quad q ++ rest) × (n ≤ length rest)
cut n (a ∷ b ∷ c ∷ d ∷ rest) le =
    (record { first = a; second = b; third = c; fourth = d }, rest, refl, omega (arith, le))
cut n [] le = absurd (omega (arith, le))
cut n (a ∷ []) le = absurd (omega (arith, le))
cut n (a ∷ b ∷ []) le = absurd (omega (arith, le))
cut n (a ∷ b ∷ c ∷ []) le = absurd (omega (arith, le))

IsByte : ℕ → Type 0
IsByte b = b < 256

-- The number of four bytes, and that they are its bytes.
quad-number :
    (q : Quad) (rest : List ℕ)
    → All IsByte (quad q ++ rest)
    → (from_le_bytes (quad q) < 2 ^ 32)
      × (quad q ≡ to_le_bytes (from_le_bytes (quad q)))
      × All IsByte rest
unfolding IsByte from_le_bytes
quad-number q rest (ha, (hb, (hc, (hd, h)))) = (
  omega (arith, ha, hb, hc, hd),
  sym (to-from_le_bytes (quad q) refl (ha, (hb, (hc, (hd, tt))))),
  h,
)

parse_fields-inv :
    (h : HeadHeader) (m v d c p k : List ℕ) (computed : ℕ)
    → parse_fields m v d c p k computed ≡ ok h
    → (m ≡ head_magic)
      × (from_le_bytes v ≤ 1)
      × (from_le_bytes k ≡ computed)
      × (record {
        header_version = from_le_bytes v;
        feature_dim = from_le_bytes d;
        num_classes = from_le_bytes c;
        payload_len = from_le_bytes p;
      }
          ≡ h)
unfolding parse_fields
parse_fields-inv h m v d c p k computed e = elim (Bool-cases (same_text m head_magic)) [
  | inr bad ↦ let clash = rw bad at e in cc
  | inl magic ↦
      let e1 = rw magic at e in
      elim (Bool-cases (ltb head_header_version (from_le_bytes v))) [
        | inl new ↦ let clash = rw new at e1 in cc
        | inr supported ↦
            let e2 = rw supported at e1 in
            elim (Bool-cases (from_le_bytes k == computed)) [
              | inr wrong ↦ let clash = rw wrong at e2 in cc
              | inl right ↦
                  let e3 = rw right at e2 in
                  (same_text-true m head_magic magic, ground arith, ground arith, cc)
            ]
      ]
]

-- The layout of eight groups of four bytes, of which the fields are read.
laid_out_lem :
    (h : HeadHeader) (m v d c p k rest : List ℕ) (r : Quad)
    → m ≡ head_magic
    → v ≡ to_le_bytes h.header_version
    → d ≡ to_le_bytes h.feature_dim
    → c ≡ to_le_bytes h.num_classes
    → p ≡ to_le_bytes h.payload_len
    → k ≡ to_le_bytes (crc32_ieee (m ++ v ++ d ++ c ++ quad r ++ p))
    → m ++ v ++ d ++ c ++ quad r ++ p ++ k ++ rest
      ≡ laid_out h (r.first, r.second, r.third, r.fourth) rest
unfolding laid_out checked
laid_out_lem h m v d c p k rest r em ev ed ec ep ek = rw (ek, em, ev, ed, ec, ep) refl

parse_header-quads :
    (h : HeadHeader) (m0 m1 v d c r p k : Quad) (rest : List ℕ)
    → All IsByte
        (quad m0 ++ quad m1 ++ quad v ++ quad d ++ quad c ++ quad r ++ quad p ++ quad k ++ rest)
    → parse_header
        (quad m0 ++ quad m1 ++ quad v ++ quad d ++ quad c ++ quad r ++ quad p ++ quad k ++ rest)
      ≡ ok h
    → IsHeader h
        (quad m0 ++ quad m1 ++ quad v ++ quad d ++ quad c ++ quad r ++ quad p ++ quad k ++ rest)
unfolding slice
parse_header-quads h m0 m1 v d c r p k rest all e =
    let bytes : List ℕ =
      quad m0 ++ quad m1 ++ quad v ++ quad d ++ quad c ++ quad r ++ quad p ++ quad k ++ rest in
    let buf : List ℕ = (quad m0 ++ quad m1) ++ quad v ++ quad d ++ quad c ++ quad r ++ quad p in
    let (_, _, all) =
      quad-number m0 (quad m1 ++ quad v ++ quad d ++ quad c ++ quad r ++ quad p ++ quad k ++ rest)
        all in
    let (_, _, all) =
      quad-number m1 (quad v ++ quad d ++ quad c ++ quad r ++ quad p ++ quad k ++ rest) all in
    let (_, bv, all) = quad-number v (quad d ++ quad c ++ quad r ++ quad p ++ quad k ++ rest) all in
    let (ld, bd, all) = quad-number d (quad c ++ quad r ++ quad p ++ quad k ++ rest) all in
    let (lc, bc, all) = quad-number c (quad r ++ quad p ++ quad k ++ rest) all in
    let (_, _, all) = quad-number r (quad p ++ quad k ++ rest) all in
    let (lp, bp, all) = quad-number p (quad k ++ rest) all in
    let (_, bk, all) = quad-number k rest all in
    let fields : parse_fields (quad m0 ++ quad m1) (quad v) (quad d) (quad c) (quad p) (quad k)
          (crc32_ieee buf)
        ≡ ok h =
      sym (parse_header-long bytes (omega arith)) ∙ e in
    let (em, version, ek, eh) = parse_fields-inv h _ _ _ _ _ _ _ fields in
    subst (λ h. IsHeader h bytes) eh
      (record {
        version = version;
        dim = ld;
        classes = lc;
        len = lp;
        reserved = (r.first, r.second, r.third, r.fourth);
        rest = rest;
        shape =
            laid_out_lem _ (quad m0 ++ quad m1) (quad v) (quad d) (quad c) (quad p) (quad k) rest r
              em bv bd bc bp (bk ∙ ap to_le_bytes ek);
      })

-- Bytes as eight groups of four, and what follows.
record Quads (bytes : List ℕ) : Type 0 where
  m0 : Quad
  m1 : Quad
  v : Quad
  d : Quad
  c : Quad
  r : Quad
  p : Quad
  k : Quad
  rest : List ℕ
  shape :
      bytes ≡ quad m0 ++ quad m1 ++ quad v ++ quad d ++ quad c ++ quad r ++ quad p ++ quad k ++ rest

-- Half of them.
record Half (n : ℕ) (bytes : List ℕ) : Type 0 where
  first : Quad
  second : Quad
  third : Quad
  fourth : Quad
  rest : List ℕ
  shape : bytes ≡ quad first ++ quad second ++ quad third ++ quad fourth ++ rest
  more : n ≤ length rest

halve : (n : ℕ) (bytes : List ℕ) → 16 + n ≤ length bytes → Half n bytes
halve n bytes le =
    let (a, b1, e1, l1) = cut (12 + n) bytes (omega (arith, le)) in
    let (b, b2, e2, l2) = cut (8 + n) b1 (omega (arith, l1)) in
    let (c, b3, e3, l3) = cut (4 + n) b2 (omega (arith, l2)) in
    let (d, b4, e4, l4) = cut n b3 l3 in
    record {
      first = a;
      second = b;
      third = c;
      fourth = d;
      rest = b4;
      shape =
          e1
          ∙ ap (λ bs. quad a ++ bs)
              (e2 ∙ ap (λ bs. quad b ++ bs) (e3 ∙ ap (λ bs. quad c ++ bs) e4));
      more = l4;
    }

Quads-long : (bytes : List ℕ) → 32 ≤ length bytes → Quads bytes
Quads-long bytes le =
    let h = halve 16 bytes le in
    let t = halve 0 h.rest h.more in
    record {
      m0 = h.first;
      m1 = h.second;
      v = h.third;
      d = h.fourth;
      c = t.first;
      r = t.second;
      p = t.third;
      k = t.fourth;
      rest = t.rest;
      shape =
          h.shape
          ∙ ap (λ bs. quad h.first ++ quad h.second ++ quad h.third ++ quad h.fourth ++ bs) t.shape;
    }

parse_header-long_lem :
    (h : HeadHeader) (bytes : List ℕ)
    → All IsByte bytes
    → Quads bytes
    → parse_header bytes ≡ ok h
    → IsHeader h bytes
parse_header-long_lem h bytes all q e = subst (IsHeader h) (sym q.shape) (
    parse_header-quads h q.m0 q.m1 q.v q.d q.c q.r q.p q.k q.rest (subst (All IsByte) q.shape all)
      (subst (λ bs. parse_header bs ≡ ok h) q.shape e))

-- Of bytes, parse_header accepts exactly a header, whatever follows it: the magic, a version of at
-- most 1, the fields, four free bytes, the length, and the checksum of all these; and it returns the
-- fields.
pub parse_header-IsHeader :
    (h : HeadHeader) (bytes : List ℕ)
    → All (λ b. b < 256) bytes
    → (parse_header bytes ≡ ok h) ↔ IsHeader h bytes
unfolding IsByte
parse_header-IsHeader h bytes all = (parsed_lem, IsHeader-parse_header h bytes)
  where
    parsed_lem : parse_header bytes ≡ ok h → IsHeader h bytes
    parsed_lem e = elim (Bool-cases (leb 32 (length bytes))) [
      | inl enough ↦ parse_header-long_lem h bytes all (Quads-long bytes (ground arith)) e
      | inr short ↦
          let clash : error (too_short (length bytes)) ≡ ok h =
            sym (short_lem bytes (ground arith)) ∙ e in
          cc
    ]
