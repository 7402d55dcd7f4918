-- ===== src/Compress/Call.antt =====
-- `Compress::call` of src/middleware/compress.rs and its future: an encoding is negotiated, and the
-- response of the wrapped service is compressed.
mod Tests
use actix_web.Prelude.{
  ℕ, zero, suc, String, Option, none, some, List, [], ◌∷◌, Result, ok, err, ◌≡◌, refl, ap, ◌∙◌, sym,
  false,
}
use actix_web.Prelude.Text.{Text}
use actix_web.Futures.{
  Poll, Fut, ready, not_ready, error, panicked, later, now, spent, poll_fut, after,
}
use actix_web.Futures.Drive.{drive, react}
use actix_web.Compress.{Bytes, Codec}
use actix_web.Compress.Stream.{encode}
use actix_web.Compress.Response.{
  ContentEncoding, auto, identity, Head, ResponseBody, ready_body, bytes, EncodedBody, plain,
  Unwrapped, encode_body, encode_body-encode, is_uncoded, update_head,
}
use actix_web.Compress.Accept.{Qualities, AcceptEncoding, parse, tags}
use actix_web.Compress.Accept.Tags.{somes}
use actix_web.Compress.Accept.Chosen.{best, named, chosen, AllNumbers, parse-chosen}

-- `CompressResponse`, of a service whose responses are a head and a body.
pub record CompressResponse (C : Codec) (E : Type 0) : Type 0 where
  pub fut : Fut (Head × ResponseBody C.Error) E
  pub encoding : ContentEncoding

module _ (Q : Qualities) where
  -- The encoding, by the header and its `to_str`.
  abbrev pub negotiate : ContentEncoding → Option (Option Text) → ContentEncoding
  negotiate own (some (some enc)) = parse Q enc own
  negotiate own (some none) = identity
  negotiate own none = identity

  -- `Transform::call`; `fut` is what `srv.call(req)` gives.
  unfoldable pub call :
      {C : Codec} {E : Type 0}
      → ContentEncoding
      → Option (Option Text)
      → Fut (Head × ResponseBody C.Error) E
      → CompressResponse C E
  call own accept fut = record { fut = fut; encoding = negotiate own accept }

module _ (C : Codec) (start : ContentEncoding → C.State) (as_str : ContentEncoding → String) where
  abbrev pub mapped_body :
      {E : Type 0}
      → ContentEncoding
      → Fut (Head × ResponseBody C.Error) E
      → Result (Head × EncodedBody C) Unwrapped
      → Poll (Head × EncodedBody C) E × CompressResponse C E
  mapped_body encoding fut (ok res) = (ready res, record { fut = fut; encoding = encoding })
  mapped_body encoding fut (err e) = (panicked, record { fut = fut; encoding = encoding })

  abbrev pub after_response :
      {E : Type 0}
      → ContentEncoding
      → Poll (Head × ResponseBody C.Error) E × Fut (Head × ResponseBody C.Error) E
      → Poll (Head × EncodedBody C) E × CompressResponse C E
  after_response encoding (ready (head, body), fut) =
      mapped_body encoding fut (encode_body C start as_str encoding head body)
  after_response encoding (not_ready, fut) = (not_ready, record { fut = fut; encoding = encoding })
  after_response encoding (error e, fut) = (error e, record { fut = fut; encoding = encoding })
  after_response encoding (panicked, fut) = (panicked, record { fut = fut; encoding = encoding })

  -- `Future::poll` of `CompressResponse`.
  unfoldable pub poll_compress :
      {E : Type 0} → CompressResponse C E → Poll (Head × EncodedBody C) E × CompressResponse C E
  poll_compress s = after_response s.encoding (poll_fut s.fut)

  drive_compress :
      {E : Type 0} (n : ℕ) (encoding : ContentEncoding) (head : Head) (body : ResponseBody C.Error)
      (res : Head × EncodedBody C)
      → encode_body C start as_str encoding head body ≡ ok res
      → drive
          (poll_compress {E = E})
          (suc n)
          (record { fut = after n (ok (head, body)); encoding = encoding })
        ≡ ready res
  unfolding drive poll_compress
  drive_compress zero encoding head body res e =
      ap (λ r. react (mapped_body encoding spent r) (drive poll_compress zero)) e
  drive_compress (suc n) encoding head body res e = drive_compress n encoding head body res e

-- A response whose body is bytes behind `ResponseBody::Other`, which `Encoder::body` compresses at once
-- and not as a stream, and which the wrapped service gives after n polls: where the request has an
-- Accept-Encoding that is text, of which no quality is NaN, and the encoding that is chosen from it compresses, the
-- response has no Content-Encoding yet, and the codec makes `out` of the bytes, the middleware gives
-- after n polls a response with `out` as its body, whose head names the chosen encoding.
pub drive-call :
    {E : Type 0} (Q : Qualities) (C : Codec) (start : ContentEncoding → C.State)
    (as_str : ContentEncoding → String) (own : ContentEncoding) (accept : Text) (n : ℕ)
    (head : Head) (buf out : Bytes)
    → AllNumbers Q (somes Q (tags Q accept))
    → is_uncoded C start as_str (chosen Q own (somes Q (tags Q accept))) ≡ false
    → head.content_encoding ≡ none
    → encode C (start (chosen Q own (somes Q (tags Q accept)))) (buf ∷ []) ≡ ok out
    → drive
        (poll_compress C start as_str {E = E})
        (suc n)
        (call Q own (some (some accept)) (after n (ok (head, ready_body (bytes buf)))))
      ≡ ready (
        update_head C start as_str (chosen Q own (somes Q (tags Q accept))) head,
        plain (bytes out),
      )
unfolding call
drive-call Q C start as_str own accept n head buf out numbers coded none_set e =
    ap
      (λ encoding.
        drive (poll_compress C start as_str) (suc n)
          (record { fut = after n (ok (head, ready_body (bytes buf))); encoding = encoding }))
      (parse-chosen Q accept own numbers).0
    ∙ drive_compress C start as_str n (chosen Q own (somes Q (tags Q accept))) head
        (ready_body (bytes buf))
        (
          update_head C start as_str (chosen Q own (somes Q (tags Q accept))) head,
          plain (bytes out),
        )
        (encode_body-encode C start as_str (chosen Q own (somes Q (tags Q accept))) head buf out
          coded none_set e)
