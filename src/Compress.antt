-- ===== src/Compress.antt =====
-- `Encoder` and `ContentEncoder` of src/middleware/compress.rs: the body of a response that is
-- compressed while it is sent. The codecs of `flate2` and `brotli` are a parameter; a body of the
-- user is what its polls give, one after the other, and has ended behind that.
pub mod Accept
pub mod Call
pub mod Response
pub mod Stream
mod Tests
use actix_web.Prelude.{
  ℕ, Bool, true, false, not, Option, none, some, List, [], ◌∷◌, ◌++◌, if◌then◌else◌, is_empty,
  is_some, Result, ok, err,
}
use actix_web.Futures.{Poll, ready, not_ready, error, panicked}

abbrev pub Bytes : Type 0
Bytes = List ℕ

-- A codec that writes to a `Writer`: what `write_all` and `finish` append to its buffer, or their
-- error.
pub record Codec : Type 1 where
  pub State : Type 0
  pub Error : Type 0
  pub write_all : State → Bytes → Result (State × Bytes) Error
  pub finish : State → Result Bytes Error

-- What one poll of a body gives.
pub data Event (E : Type 0) : Type 0 where
  chunk : Bytes → Event E
  pending : Event E
  fail : E → Event E

-- `EncoderBody`: the body of the user, any other, or none.
pub data EncoderBody (E : Type 0) : Type 0 where
  body : List (Event E) → EncoderBody E
  other : List (Event E) → EncoderBody E
  no_body : EncoderBody E

module _ (C : Codec) where
  -- `ContentEncoder`, whichever its codec is, with the buffer of its `Writer`.
  pub record ContentEncoder : Type 0 where
    pub state : C.State
    pub buf : Bytes

  -- `Encoder`.
  pub record Encoder : Type 0 where
    pub body : EncoderBody C.Error
    pub encoder : Option ContentEncoder

  -- What the loop of `poll_next` leaves: the rest of the body and the encoder.
  abbrev pub Step : Type 0
  Step = Poll (Option Bytes) C.Error × List (Event C.Error) × Option ContentEncoder

  -- `ContentEncoder::write`, of what its codec did.
  abbrev pub written :
      ContentEncoder → Result (C.State × Bytes) C.Error → Result (Bool × ContentEncoder) C.Error
  written enc (err e) = err e
  written enc (ok (state, out)) =
      let buf = enc.buf ++ out in ok (not (is_empty buf), record { state = state; buf = buf })

  unfoldable pub write : ContentEncoder → Bytes → Result (Bool × ContentEncoder) C.Error
  write enc bytes = written enc (C.write_all enc.state bytes)

  -- `ContentEncoder::finish`, of what its codec did.
  abbrev pub finished : ContentEncoder → Result Bytes C.Error → Result Bytes C.Error
  finished enc (err e) = err e
  finished enc (ok out) = ok (enc.buf ++ out)

  unfoldable pub finish : ContentEncoder → Result Bytes C.Error
  finish enc = finished enc (C.finish enc.state)

  -- A chunk was written: `encoder.take()` where there is output, or the loop again.
  abbrev pub after_write :
      List (Event C.Error)
      → ContentEncoder
      → Result (Bool × ContentEncoder) C.Error
      → (Option ContentEncoder → Step)
      → Step
  after_write events enc (err e) again = (error e, events, some enc)
  after_write events enc (ok (true, enc')) again =
      (ready (some enc'.buf), events, some (record enc' { buf = [] }))
  after_write events enc (ok (false, enc')) again = again (some enc')

  -- The body has ended: `self.encoder.take()`, then its `finish`.
  abbrev pub after_finish : Result Bytes C.Error → Step
  after_finish (err e) = (error e, [], none)
  after_finish (ok []) = (ready none, [], none)
  after_finish (ok (b ∷ bs)) = (ready (some (b ∷ bs)), [], none)

  -- The loop of `poll_next`.
  unfoldable pub poll_events : List (Event C.Error) → Option ContentEncoder → Step
  poll_events [] none = (ready none, [], none)
  poll_events [] (some enc) = after_finish (finish enc)
  poll_events (pending ∷ events) encoder = (not_ready, events, encoder)
  poll_events (fail e ∷ events) encoder = (error e, events, encoder)
  poll_events (chunk bytes ∷ events) none = (ready (some bytes), events, none)
  poll_events (chunk bytes ∷ events) (some enc) =
      after_write events enc (write enc bytes) (poll_events events)

  abbrev pub with_body :
      (List (Event C.Error) → EncoderBody C.Error) → Step → Poll (Option Bytes) C.Error × Encoder
  with_body kind (p, events, encoder) = (p, record { body = kind events; encoder = encoder })

  -- `MessageBody::poll_next` of `Encoder`.
  unfoldable pub poll_next : Encoder → Poll (Option Bytes) C.Error × Encoder
  poll_next e = elim e.body [
    | body events ↦ with_body body (poll_events events e.encoder)
    | other events ↦ with_body other (poll_events events e.encoder)
    | no_body ↦ (ready none, e)
  ]

  -- `MessageBody::length` of `Encoder`, over the lengths of `actix_http`.
  abbrev pub body_length : {L : Type 0} → L → (List (Event C.Error) → L) → EncoderBody C.Error → L
  body_length empty length_of (body events) = length_of events
  body_length empty length_of (other events) = length_of events
  body_length empty length_of no_body = empty

  unfoldable pub encoder_length : {L : Type 0} → L → L → (List (Event C.Error) → L) → Encoder → L
  encoder_length empty stream length_of e =
      if is_some e.encoder then stream else body_length empty length_of e.body
