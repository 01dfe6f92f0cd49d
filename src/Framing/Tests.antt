-- ===== src/Framing/Tests.antt =====
-- modules/proto/framing.rs, modules/stream_io/framing.rs: the theorems at concrete frames.
use al.Prelude.{
  ℕ, zero, suc, ◌≤◌, ◌≡◌, refl, Option, none, some, List, [], ◌∷◌, ◌++◌, arith, length,
}
use al.Framing.{
  max_uds_frame_bytes, to_le_bytes, frame, try_encode_length_prefixed, unexpected_eof, Reader,
  payload, decode_length_prefixed, from_le_bytes, read_exact, read_prefix, read_payload,
}
use al.Framing.RoundTrip.{decode-encode, encode-decode}
use al.Framing.Envelopes.{
  Payload, audio, inference, Envelope, Codec, wrap_audio, wrap_audio_into, wrap_inference_into,
  decode_envelope, ok, receive-send_audio,
}

abbrev body : List ℕ
body = 7 ∷ 8 ∷ 9 ∷ []

abbrev framed : List ℕ
framed = 3 ∷ 0 ∷ 0 ∷ 0 ∷ 7 ∷ 8 ∷ 9 ∷ []

body-framed : try_encode_length_prefixed body ≡ frame framed
unfolding try_encode_length_prefixed to_le_bytes
body-framed = refl

decode-encode_example :
    decode_length_prefixed (record { bytes = framed ++ 1 ∷ []; ending = unexpected_eof })
    ≡ payload body (record { bytes = 1 ∷ []; ending = unexpected_eof })
decode-encode_example = decode-encode body framed (1 ∷ []) unexpected_eof body-framed

abbrev stream : Reader
stream = record { bytes = framed ++ 1 ∷ []; ending = unexpected_eof }

abbrev behind : Reader
behind = record { bytes = 1 ∷ []; ending = unexpected_eof }

stream_decoded : decode_length_prefixed stream ≡ payload body behind
unfolding decode_length_prefixed read_exact read_prefix read_payload from_le_bytes
stream_decoded = refl

encode-decode_example :
    (try_encode_length_prefixed body ≡ frame (to_le_bytes (length body) ++ body))
    × (stream.bytes ≡ (to_le_bytes (length body) ++ body) ++ behind.bytes)
    × (length body ≤ max_uds_frame_bytes)
encode-decode_example =
    encode-decode stream behind body
      (
        omega arith,
        (
          omega arith,
          (
            omega arith,
            (omega arith, (omega arith, (omega arith, (omega arith, (omega arith, tt))))),
          ),
        ),
      )
      stream_decoded

-- A codec of envelopes over lists of numbers: a tag and the frame.
tagged : Option (Payload (List ℕ) (List ℕ)) → List ℕ
tagged none = []
tagged (some (audio f)) = 0 ∷ f
tagged (some (inference f)) = 1 ∷ f

untagged : List ℕ → Option (Envelope (List ℕ) (List ℕ))
untagged [] = some (record { payload = none })
untagged (zero ∷ f) = some (record { payload = some (audio f) })
untagged (suc zero ∷ f) = some (record { payload = some (inference f) })
untagged (suc (suc n) ∷ f) = none

abbrev codec : Codec (List ℕ) (List ℕ)
codec = record { encode = λ env. tagged env.payload; decode = untagged }

untagged-tagged :
    (p : Option (Payload (List ℕ) (List ℕ))) → untagged (tagged p) ≡ some (record { payload = p })
unfolding tagged untagged
untagged-tagged none = refl
untagged-tagged (some (audio f)) = refl
untagged-tagged (some (inference f)) = refl

codec_round_trip : (env : Envelope (List ℕ) (List ℕ)) → codec.decode (codec.encode env) ≡ some env
codec_round_trip env = untagged-tagged env.payload

audio-framed :
    try_encode_length_prefixed (wrap_audio_into codec (5 ∷ []) (8 ∷ 9 ∷ [])).0
    ≡ frame (3 ∷ 0 ∷ 0 ∷ 0 ∷ 0 ∷ 8 ∷ 9 ∷ [])
unfolding try_encode_length_prefixed to_le_bytes wrap_audio_into tagged
audio-framed = refl

receive-send_audio_example :
    (decode_length_prefixed
        (record { bytes = (3 ∷ 0 ∷ 0 ∷ 0 ∷ 0 ∷ 8 ∷ 9 ∷ []) ++ []; ending = unexpected_eof })
      ≡ payload (wrap_audio codec (8 ∷ 9 ∷ [])) (record { bytes = []; ending = unexpected_eof }))
    × (decode_envelope codec (wrap_audio codec (8 ∷ 9 ∷ []))
        ≡ ok (record { payload = some (audio (8 ∷ 9 ∷ [])) }))
receive-send_audio_example =
    receive-send_audio codec codec_round_trip (5 ∷ []) (8 ∷ 9 ∷ []) (3 ∷ 0 ∷ 0 ∷ 0 ∷ 0 ∷ 8 ∷ 9 ∷ [])
      [] unexpected_eof audio-framed

inference-framed :
    try_encode_length_prefixed (wrap_inference_into codec (5 ∷ []) (8 ∷ 9 ∷ [])).0
    ≡ frame (3 ∷ 0 ∷ 0 ∷ 0 ∷ 1 ∷ 8 ∷ 9 ∷ [])
unfolding try_encode_length_prefixed to_le_bytes wrap_inference_into tagged
inference-framed = refl
