-- ===== src/Compress/Tests.antt =====
-- A body of three chunks (src/middleware/compress.rs), by a codec that holds one byte back.
use actix_web.Prelude.{String, none, true, false, ◌≡◌, refl, some, List, [], ◌∷◌, ◌++◌, ok}
use actix_web.Compress.{Bytes, Codec, Event, chunk, pending}
use actix_web.Compress.Response.{
  ContentEncoding, gzip, Head, bytes, ready_body, stream_body, plain, encoded, encode_body,
  encode_body-encode, encode_body-Sends,
}
use actix_web.Compress.Stream.{send, send-Sends, Sends, sending, encoder_of}

-- All but the last byte, and that one.
abbrev hold : Bytes → Bytes × Bytes
hold [] = ([], [])
hold (b ∷ []) = ([], b ∷ [])
hold (b ∷ c ∷ bs) = let (out, held) = hold (c ∷ bs) in (b ∷ out, held)

abbrev holding : Codec
holding = record {
  State = Bytes;
  Error = Unit {0};
  write_all = λ held bytes. let (out, held') = hold (held ++ bytes) in ok (held', out);
  finish = λ held. ok (held ++ 0 ∷ []);
}

abbrev events : List (Event (Unit {0}))
events = chunk (1 ∷ []) ∷ pending ∷ chunk (2 ∷ 3 ∷ []) ∷ chunk (4 ∷ []) ∷ []

send-Sends_example :
    Sends holding
      (1 ∷ 2 ∷ 3 ∷ 4 ∷ 0 ∷ [])
      (send holding 6 (sending holding events (some (encoder_of holding []))))
send-Sends_example = send-Sends holding events [] (1 ∷ 2 ∷ 3 ∷ 4 ∷ 0 ∷ []) tt refl

abbrev name : ContentEncoding → String
name e = "gzip"

abbrev plain_head : Head
plain_head = record { status = 200; content_encoding = none; no_chunking = true }

encoded_bytes :
    encode_body holding (λ e. []) name gzip plain_head (ready_body (bytes (1 ∷ 2 ∷ [])))
    ≡ ok (
      record { status = 200; content_encoding = some "gzip"; no_chunking = true },
      plain (bytes (1 ∷ 2 ∷ 0 ∷ [])),
    )
encoded_bytes =
    encode_body-encode holding (λ e. []) name gzip plain_head (1 ∷ 2 ∷ []) (1 ∷ 2 ∷ 0 ∷ []) refl
      refl refl

stream_sent :
    (encode_body holding (λ e. []) name gzip plain_head (stream_body events)
      ≡ ok (
        record { status = 200; content_encoding = some "gzip"; no_chunking = false },
        encoded (sending holding events (some (encoder_of holding []))),
      ))
    × Sends holding
        (1 ∷ 2 ∷ 3 ∷ 4 ∷ 0 ∷ [])
        (send holding 6 (sending holding events (some (encoder_of holding []))))
stream_sent =
    encode_body-Sends holding (λ e. []) name gzip plain_head events (1 ∷ 2 ∷ 3 ∷ 4 ∷ 0 ∷ []) refl
      refl refl tt refl
