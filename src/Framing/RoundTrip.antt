-- ===== src/Framing/RoundTrip.antt =====
-- modules/proto/framing.rs, modules/stream_io/framing.rs: what is encoded is decoded.
use al.Prelude.{
  ℕ, ◌%◌, ◌^◌, ◌≤◌, ◌<◌, ◌≡◌, refl, sym, ◌∙◌, ap, ap₂, true, false, List, [], ◌∷◌, ◌++◌, arith,
  Bool-cases, inl, inr, leb, ltb, length, length-append, length-take, take-append-drop,
  take-append_left, ◌⊎◌, subst, take, drop, All,
}
use mathlib.Core.List.{append_assoc}
use al.Framing.{
  max_uds_frame_bytes, to_le_bytes, from_le_bytes, frame, try_encode_length_prefixed, Ending,
  unexpected_eof, failure, Reader, Read, filled, failed, read_exact, payload, read_payload,
  read_prefix, decode_length_prefixed,
}

drop-append_left : (xs ys : List ℕ) → drop (length xs) (xs ++ ys) ≡ ys
drop-append_left [] ys = refl
drop-append_left (x ∷ xs) ys = drop-append_left xs ys

-- A reader that begins with the buffer fills it and goes on behind it.
read_exact-append :
    (xs ys : List ℕ) (e : Ending)
    → read_exact (length xs) (record { bytes = xs ++ ys; ending = e })
      ≡ filled xs (record { bytes = ys; ending = e })
unfolding read_exact
read_exact-append xs ys e =
    let len = length-append xs ys in
    let enough : leb (length xs) (length (xs ++ ys)) ≡ true = ground arith in
    rw (enough, take-append_left xs ys, drop-append_left xs ys) refl

pub from-to_le_bytes : (n : ℕ) → n < 2 ^ 32 → from_le_bytes (to_le_bytes n) ≡ n
unfolding from_le_bytes to_le_bytes
from-to_le_bytes n lt = omega arith

read_prefix-append :
    (n : ℕ) (ys : List ℕ) (e : Ending)
    → read_exact 4 (record { bytes = to_le_bytes n ++ ys; ending = e })
      ≡ filled (to_le_bytes n) (record { bytes = ys; ending = e })
unfolding to_le_bytes
read_prefix-append n ys e = read_exact-append (to_le_bytes n) ys e

decode-bytes :
    (p rest : List ℕ) (e : Ending)
    → length p ≤ max_uds_frame_bytes
    → decode_length_prefixed (record { bytes = to_le_bytes (length p) ++ (p ++ rest); ending = e })
      ≡ payload p (record { bytes = rest; ending = e })
unfolding decode_length_prefixed read_prefix read_payload
decode-bytes p rest e fits =
    let small : ltb max_uds_frame_bytes (length p) ≡ false = ground arith in
    rw
      (
        read_prefix-append (length p) (p ++ rest) e,
        read_prefix,
        from-to_le_bytes (length p) (omega arith),
        small,
        read_exact-append p rest e,
        read_payload,
      )
      refl

-- A frame that the encoder makes is decoded to its payload, and the reader stands at what follows.
pub decode-encode :
    (p f rest : List ℕ) (e : Ending)
    → try_encode_length_prefixed p ≡ frame f
    → decode_length_prefixed (record { bytes = f ++ rest; ending = e })
      ≡ payload p (record { bytes = rest; ending = e })
unfolding try_encode_length_prefixed
decode-encode p f rest e h = elim (Bool-cases (ltb max_uds_frame_bytes (length p))) [
  | inl large ↦ absurd (ground arith)
  | inr fits ↦
      let made : to_le_bytes (length p % 2 ^ 32) ++ p ≡ f = ground arith in
      let small : length p % 2 ^ 32 ≡ length p = ground arith in
      rw (sym made, small, append_assoc (to_le_bytes (length p)) p rest)
        (decode-bytes p rest e (ground arith))
]

pub to-from_le_bytes :
    (bs : List ℕ) → length bs ≡ 4 → All (λ b. b < 256) bs → to_le_bytes (from_le_bytes bs) ≡ bs
unfolding to_le_bytes from_le_bytes
to-from_le_bytes (a ∷ b ∷ c ∷ d ∷ []) len h =
    let (ha, (hb, (hc, (hd, _)))) = h in
    ap₂ ◌∷◌ (omega arith)
      (ap₂ ◌∷◌ (omega arith) (ap₂ ◌∷◌ (omega arith) (ap₂ ◌∷◌ (omega arith) refl)))
to-from_le_bytes bs len h = absurd (ground arith)

read_exact-filled :
    (n : ℕ) (r r' : Reader) (bytes : List ℕ)
    → read_exact n r ≡ filled bytes r'
    → (length bytes ≡ n) × (r.bytes ≡ bytes ++ r'.bytes) × (r'.ending ≡ r.ending)
unfolding read_exact
read_exact-filled n r r' bytes h = elim (Bool-cases (leb n (length r.bytes))) [
  | inl t ↦
      let made = rw t at h in
      let same : take n r.bytes ≡ bytes = cc in
      let reader : record r { bytes = drop n r.bytes } ≡ r' = cc in
      let len = length-take n r.bytes in
      (
        ap length (sym same) ∙ ground arith,
        sym (take-append-drop n r.bytes) ∙ ap₂ ◌++◌ same (ap (λ x. x.bytes) reader),
        sym (ap (λ x. x.ending) reader),
      )
  | inr t ↦ let made = rw t at h in cc
]

Read-cases :
    (x : Read)
    → ((bytes : List ℕ) × (r : Reader) × (x ≡ filled bytes r)) ⊎ ((e : Ending) × (x ≡ failed e))
Read-cases (filled bytes r) = inl (bytes, r, refl)
Read-cases (failed e) = inr (e, refl)

read_payload-payload :
    (n : ℕ) (x : Read) (p : List ℕ) (r' : Reader)
    → read_payload n x ≡ payload p r'
    → x ≡ filled p r'
unfolding read_payload
read_payload-payload n (filled bytes r) p r' h = cc
read_payload-payload n (failed unexpected_eof) p r' h = cc
read_payload-payload n (failed failure) p r' h = cc

All-append_left : (P : ℕ → Type 0) (xs ys : List ℕ) → All P (xs ++ ys) → All P xs
All-append_left P [] ys h = tt
All-append_left P (x ∷ xs) ys h = (h.0, All-append_left P xs ys h.1)

-- What is decoded from bytes is the payload of the one frame that the reader began with, and it is
-- within the cap.
pub encode-decode :
    (r r' : Reader) (p : List ℕ)
    → All (λ b. b < 256) r.bytes
    → decode_length_prefixed r ≡ payload p r'
    → (try_encode_length_prefixed p ≡ frame (to_le_bytes (length p) ++ p))
      × (r.bytes ≡ (to_le_bytes (length p) ++ p) ++ r'.bytes)
      × (length p ≤ max_uds_frame_bytes)
unfolding try_encode_length_prefixed decode_length_prefixed read_prefix
encode-decode r r' p bytes h = elim (Read-cases (read_exact 4 r)) [
  | inl (len_buf, s, first) ↦
      let (four, whole, ending) = read_exact-filled 4 r s len_buf first in
      let h1 = rw (first, read_prefix) at h in
      elim (Bool-cases (ltb max_uds_frame_bytes (from_le_bytes len_buf))) [
        | inl large ↦ let h2 = rw large at h1 in cc
        | inr fits ↦
            let h2 = rw fits at h1 in
            let second = read_payload-payload _ _ p r' h2 in
            let (len, rest, ending') = read_exact-filled (from_le_bytes len_buf) s r' p second in
            let prefix : to_le_bytes (length p) ≡ len_buf =
              ap to_le_bytes len
              ∙ to-from_le_bytes len_buf four
                  (All-append_left _ len_buf s.bytes (subst (All (λ b. b < 256)) whole bytes)) in
            let small : length p % 2 ^ 32 ≡ length p = ground arith in
            let within : ltb max_uds_frame_bytes (length p) ≡ false = ground arith in
            (
              rw (within, small) refl,
              whole
                  ∙ (ap₂ ◌++◌ (sym prefix) rest
                      ∙ sym (append_assoc (to_le_bytes (length p)) p r'.bytes)),
              ground arith,
            )
      ]
  | inr (e, bad) ↦ let h1 = rw (bad, read_prefix) at h in cc
]
