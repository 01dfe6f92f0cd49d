-- ===== src/Framing/Envelopes.antt =====
-- modules/proto/framing.rs: frames in envelopes. The frame types and the codec of envelopes are
-- generated from the .proto files, so they are parameters.
use al.Prelude.{ℕ, ◌≡◌, refl, Option, none, some, List, [], ◌++◌}
use al.Framing.{
  max_uds_frame_bytes, frame, try_encode_length_prefixed, Ending, Reader, Decoded,
  decode_length_prefixed,
}
use al.Framing
use al.Framing.RoundTrip.{decode-encode}

pub data Payload (A I : Type 0) : Type 0 where
  audio : A → Payload A I
  inference : I → Payload A I

pub record Envelope (A I : Type 0) : Type 0 where
  pub payload : Option (Payload A I)

-- `Message::encode_to_vec` and `Message::decode`
pub record Codec (A I : Type 0) : Type 0 where
  pub encode : Envelope A I → List ℕ
  pub decode : List ℕ → Option (Envelope A I)

pub data ProtoDecodeError : Type 0 where
  decode : ProtoDecodeError
  missing_payload : ProtoDecodeError

pub data Opened (A I : Type 0) : Type 0 where
  ok : Envelope A I → Opened A I
  error : ProtoDecodeError → Opened A I

module _ {A I : Type 0} (codec : Codec A I) where
  unfoldable pub wrap_audio : A → List ℕ
  wrap_audio f = codec.encode (record { payload = some (audio f) })

  unfoldable pub wrap_inference : I → List ℕ
  wrap_inference f = codec.encode (record { payload = some (inference f) })

  -- `buf.clear()`, `encode` appends, and `split` takes all and leaves nothing.
  unfoldable pub wrap_audio_into : List ℕ → A → List ℕ × List ℕ
  wrap_audio_into buf f =
      let cleared : List ℕ = [] in
      let filled = cleared ++ codec.encode (record { payload = some (audio f) }) in (filled, [])

  unfoldable pub wrap_inference_into : List ℕ → I → List ℕ × List ℕ
  wrap_inference_into buf f =
      let cleared : List ℕ = [] in
      let filled = cleared ++ codec.encode (record { payload = some (inference f) }) in (filled, [])

  unfoldable pub check_payload : Envelope A I → Option (Payload A I) → Opened A I
  check_payload env none = error missing_payload
  check_payload env (some p) = ok env

  unfoldable pub opened : Option (Envelope A I) → Opened A I
  opened none = error ProtoDecodeError.decode
  opened (some env) = check_payload env env.payload

  unfoldable pub decode_envelope : List ℕ → Opened A I
  decode_envelope bytes = opened (codec.decode bytes)

module _ {A I : Type 0} (codec : Codec A I)
    (round_trip : (env : Envelope A I) → codec.decode (codec.encode env) ≡ some env) where
  decode_envelope-encode :
      (p : Payload A I)
      → decode_envelope codec (codec.encode (record { payload = some p }))
        ≡ ok (record { payload = some p })
  unfolding decode_envelope opened check_payload
  decode_envelope-encode p = rw (round_trip (record { payload = some p }), opened) refl

  -- An audio frame whose envelope is within the cap is sent and received: from the frame of what
  -- `wrap_audio_into` returns, whatever its buffer held, the reader decodes the bytes of `wrap_audio`
  -- and stands behind them, and these open to the audio frame. The codec of envelopes must decode what
  -- it encodes.
  pub receive-send_audio :
      (buf : List ℕ) (f : A) (wire rest : List ℕ) (e : Ending)
      → try_encode_length_prefixed (wrap_audio_into codec buf f).0 ≡ frame wire
      → (decode_length_prefixed (record { bytes = wire ++ rest; ending = e })
          ≡ Framing.payload (wrap_audio codec f) (record { bytes = rest; ending = e }))
        × (decode_envelope codec (wrap_audio codec f) ≡ ok (record { payload = some (audio f) }))
  unfolding wrap_audio_into wrap_audio
  receive-send_audio buf f wire rest e h =
      (decode-encode (wrap_audio codec f) wire rest e h, decode_envelope-encode (audio f))

  -- The same for an inference frame.
  pub receive-send_inference :
      (buf : List ℕ) (f : I) (wire rest : List ℕ) (e : Ending)
      → try_encode_length_prefixed (wrap_inference_into codec buf f).0 ≡ frame wire
      → (decode_length_prefixed (record { bytes = wire ++ rest; ending = e })
          ≡ Framing.payload (wrap_inference codec f) (record { bytes = rest; ending = e }))
        × (decode_envelope codec (wrap_inference codec f)
            ≡ ok (record { payload = some (inference f) }))
  unfolding wrap_inference_into wrap_inference
  receive-send_inference buf f wire rest e h =
      (decode-encode (wrap_inference codec f) wire rest e h, decode_envelope-encode (inference f))
