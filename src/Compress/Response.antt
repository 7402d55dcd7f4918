-- ===== src/Compress/Response.antt =====
-- `Encoder::body` of src/middleware/compress.rs: which bodies of responses are compressed.
use mathlib.Core.Path.{subst}
use actix_web.Prelude.{
  ℕ, suc, String, Bool, true, false, is_some, ◌||◌, ◌==◌, Option, none, some, List, [], ◌∷◌,
  if◌then◌else◌, Result, ok, err, ◌≡◌, sym, ◌∙◌, ap, refl, arith, length,
}
use actix_web.Compress.{
  Bytes, Codec, Event, EncoderBody, body, other, ContentEncoder, Encoder, write, written, finish,
  finished,
}
use actix_web.Compress.Stream.{
  encode, encoder_of, sending, send, Sends, Sound, chunks_of, send-Sends, prepend, feed, IsOk,
}

-- `ContentEncoding` of `actix_http`.
pub data ContentEncoding : Type 0 where
  auto : ContentEncoding
  identity : ContentEncoding
  deflate : ContentEncoding
  gzip : ContentEncoding
  br : ContentEncoding

-- What is read and written of `ResponseHead`.
pub record Head : Type 0 where
  pub status : ℕ
  pub content_encoding : Option String
  pub no_chunking : Bool

-- `Body`, a message being what its polls give.
pub data Body (E : Type 0) : Type 0 where
  absent : Body E
  empty : Body E
  bytes : Bytes → Body E
  message : List (Event E) → Body E

pub data ResponseBody (E : Type 0) : Type 0 where
  ready_body : Body E → ResponseBody E
  stream_body : List (Event E) → ResponseBody E

pub data EncodedBody (C : Codec) : Type 0 where
  plain : Body C.Error → EncodedBody C
  encoded : Encoder C → EncodedBody C

-- An `unwrap()` of nothing or of an error.
pub data Unwrapped : Type 0 where
  unwrapped : Unwrapped

-- Where codecs start, and the names of encodings.
module _ (C : Codec) (start : ContentEncoding → C.State) (as_str : ContentEncoding → String) where
  -- `ContentEncoder::encoder`, with both features of the crate.
  unfoldable pub encoder_for : ContentEncoding → Option (ContentEncoder C)
  encoder_for deflate = some (record { state = start deflate; buf = [] })
  encoder_for gzip = some (record { state = start gzip; buf = [] })
  encoder_for br = some (record { state = start br; buf = [] })
  encoder_for identity = none
  encoder_for auto = none

  abbrev pub update_head : ContentEncoding → Head → Head
  update_head encoding head = record head { content_encoding = some (as_str encoding) }

  -- `encoding == Identity || encoding == Auto`.
  abbrev pub is_uncoded : ContentEncoding → Bool
  is_uncoded identity = true
  is_uncoded auto = true
  is_uncoded deflate = false
  is_uncoded gzip = false
  is_uncoded br = false

  -- `let _ = enc.write(..)`, whose error is dropped.
  abbrev pub after_write_all :
      ContentEncoder C → Result (Bool × ContentEncoder C) C.Error → ContentEncoder C
  after_write_all enc (ok (any_output, enc')) = enc'
  after_write_all enc (err e) = enc

  abbrev pub finish_bytes :
      ContentEncoding → Head → Result Bytes C.Error → Result (Head × EncodedBody C) Unwrapped
  finish_bytes encoding head (ok out) = ok (update_head encoding head, plain (bytes out))
  finish_bytes encoding head (err e) = err unwrapped

  abbrev pub encode_bytes :
      ContentEncoding
      → Head
      → Bytes
      → Option (ContentEncoder C)
      → Result (Head × EncodedBody C) Unwrapped
  encode_bytes encoding head buf none = err unwrapped
  encode_bytes encoding head buf (some enc) =
      finish_bytes encoding head (finish C (after_write_all enc (write C enc buf)))

  -- A stream, of the user or any other.
  abbrev pub encode_stream :
      ContentEncoding → Head → EncoderBody C.Error → Result (Head × EncodedBody C) Unwrapped
  encode_stream encoding head stream =
      if is_some head.content_encoding || (head.status == 101)
      then ok (head, encoded (record { body = stream; encoder = none }))
      else ok (
        record (update_head encoding head) { no_chunking = false },
        encoded (record { body = stream; encoder = encoder_for encoding }),
      )

  -- `Encoder::body`.
  unfoldable pub encode_body :
      ContentEncoding → Head → ResponseBody C.Error → Result (Head × EncodedBody C) Unwrapped
  unfolding encoder_for
  encode_body encoding head (ready_body absent) = ok (head, plain absent)
  encode_body encoding head (ready_body empty) = ok (head, plain empty)
  encode_body encoding head (ready_body (bytes buf)) =
      if is_some head.content_encoding || is_uncoded encoding
      then ok (head, plain (bytes buf))
      else encode_bytes encoding head buf (encoder_for encoding)
  encode_body encoding head (ready_body (message stream)) =
      encode_stream encoding head (other stream)
  encode_body encoding head (stream_body stream) = encode_stream encoding head (body stream)

module _ (C : Codec) where
  finished-prepend :
      (s : C.State) (out : Bytes) (r : Result Bytes C.Error)
      → finished C (record { state = s; buf = out }) r ≡ prepend C out r
  finished-prepend s out (ok rest) = refl
  finished-prepend s out (err e) = refl

  -- The whole body by `encode`, which feeds one chunk.
  finish_written :
      (start : ContentEncoding → C.State) (as_str : ContentEncoding → String) (s : C.State)
      (out : Bytes) (r : Result (C.State × Bytes) C.Error)
      → feed C r C.finish ≡ ok out
      → finish C (after_write_all C start as_str (encoder_of C s) (written C (encoder_of C s) r))
        ≡ ok out
  unfolding finish
  finish_written start as_str s out (err e) h = absurd (subst (IsOk C) (sym h) tt)
  finish_written start as_str s out (ok (s', o)) h = finished-prepend s' o (C.finish s') ∙ h

  encode-bytes_of :
      (start : ContentEncoding → C.State) (as_str : ContentEncoding → String)
      (encoding : ContentEncoding) (head : Head) (buf out : Bytes)
      → is_uncoded C start as_str encoding ≡ false
      → head.content_encoding ≡ none
      → encode C (start encoding) (buf ∷ []) ≡ ok out
      → encode_body C start as_str encoding head (ready_body (bytes buf))
        ≡ ok (update_head C start as_str encoding head, plain (bytes out))
  unfolding encode_body write
  encode-bytes_of start as_str auto head buf out h none_set e = ground arith
  encode-bytes_of start as_str identity head buf out h none_set e = ground arith
  encode-bytes_of start as_str gzip head buf out h none_set e = rw none_set (
      ap (finish_bytes C start as_str gzip head)
        (finish_written start as_str (start gzip) out (C.write_all (start gzip) buf) e))
  encode-bytes_of start as_str deflate head buf out h none_set e = rw none_set (
      ap (finish_bytes C start as_str deflate head)
        (finish_written start as_str (start deflate) out (C.write_all (start deflate) buf) e))
  encode-bytes_of start as_str br head buf out h none_set e = rw none_set (
      ap (finish_bytes C start as_str br head)
        (finish_written start as_str (start br) out (C.write_all (start br) buf) e))

  encoder_coded :
      (start : ContentEncoding → C.State) (as_str : ContentEncoding → String)
      (encoding : ContentEncoding)
      → is_uncoded C start as_str encoding ≡ false
      → encoder_for C start as_str encoding ≡ some (encoder_of C (start encoding))
  unfolding encoder_for
  encoder_coded start as_str auto h = ground arith
  encoder_coded start as_str identity h = ground arith
  encoder_coded start as_str deflate h = refl
  encoder_coded start as_str gzip h = refl
  encoder_coded start as_str br h = refl

-- Bytes that are answered without a Content-Encoding, where a compression was negotiated and the
-- codec makes `out` of these bytes, are replaced by `out`, and the head says which encoding it is.
pub encode_body-encode :
    (C : Codec) (start : ContentEncoding → C.State) (as_str : ContentEncoding → String)
    (encoding : ContentEncoding) (head : Head) (buf out : Bytes)
    → is_uncoded C start as_str encoding ≡ false
    → head.content_encoding ≡ none
    → encode C (start encoding) (buf ∷ []) ≡ ok out
    → encode_body C start as_str encoding head (ready_body (bytes buf))
      ≡ ok (update_head C start as_str encoding head, plain (bytes out))
encode_body-encode C start as_str encoding head buf out h none_set e =
    encode-bytes_of C start as_str encoding head buf out h none_set e

-- A stream that is answered without a Content-Encoding and not by 101, where a compression was
-- negotiated, gets a body that is sent to its end with exactly the bytes that the codec makes of
-- the stream's chunks, if the stream does not fail, and the head says which encoding it is.
pub encode_body-Sends :
    (C : Codec) (start : ContentEncoding → C.State) (as_str : ContentEncoding → String)
    (encoding : ContentEncoding) (head : Head) (events : List (Event C.Error)) (out : Bytes)
    → is_uncoded C start as_str encoding ≡ false
    → head.content_encoding ≡ none
    → (head.status == 101) ≡ false
    → Sound C events
    → encode C (start encoding) (chunks_of C events) ≡ ok out
    → (encode_body C start as_str encoding head (stream_body events)
        ≡ ok (
          record (update_head C start as_str encoding head) { no_chunking = false },
          encoded (sending C events (some (encoder_of C (start encoding)))),
        ))
      × Sends C out (
          send C
            (suc (suc (length events)))
            (sending C events (some (encoder_of C (start encoding)))))
unfolding encode_body
encode_body-Sends C start as_str encoding head events out h none_set status sound e = (
  rw (none_set, status, encoder_coded C start as_str encoding h) refl,
  send-Sends C events (start encoding) out sound e,
)
