-- ===== src/Compress/Stream.antt =====
-- What a compressed body (src/middleware/compress.rs) sends.
use mathlib.Core.Path.{subst}
use actix_web.Prelude.{
  append_nil, ℕ, zero, suc, ◌+◌, ◌≤◌, Option, none, some, List, [], ◌∷◌, ◌++◌, ◌≡◌, sym, ◌∙◌, ap,
  refl, ok, err, Result, length, arith,
}
use actix_web.Futures.{Poll, ready, not_ready, error, panicked}
use actix_web.Compress.{
  Bytes, Codec, Event, chunk, pending, fail, body, ContentEncoder, Encoder, written, write,
  finished, finish, after_write, after_finish, poll_events, poll_next, with_body,
}

module _ (C : Codec) where
  abbrev give : Bytes → Option (List Bytes) → Option (List Bytes)
  give b none = none
  give b (some bs) = some (b ∷ bs)

  abbrev react :
      Poll (Option Bytes) C.Error × Encoder C
      → (Encoder C → Option (List Bytes))
      → Option (List Bytes)
  react (ready (some b), e) again = give b (again e)
  react (ready none, e) again = some []
  react (not_ready, e) again = again e
  react (error x, e) again = none
  react (panicked, e) again = none

  -- What is sent by a caller that polls until the body ends, at most `fuel` times; `none` is an
  -- error or a fuel that ran out.
  pub send : ℕ → Encoder C → Option (List Bytes)
  send zero e = none
  send (suc fuel) e = react (poll_next C e) (send fuel)

  -- What the codec makes of all the chunks at once, which is what is promised.
  abbrev pub prepend : Bytes → Result Bytes C.Error → Result Bytes C.Error
  prepend out (ok rest) = ok (out ++ rest)
  prepend out (err e) = err e

  abbrev pub feed :
      Result (C.State × Bytes) C.Error → (C.State → Result Bytes C.Error) → Result Bytes C.Error
  feed (err e) rest = err e
  feed (ok (state, out)) rest = prepend out (rest state)

  abbrev pub encode : C.State → List Bytes → Result Bytes C.Error
  encode state [] = C.finish state
  encode state (bytes ∷ chunks) = feed (C.write_all state bytes) (λ s. encode s chunks)

  abbrev pub chunks_of : List (Event C.Error) → List Bytes
  chunks_of [] = []
  chunks_of (chunk bytes ∷ events) = bytes ∷ chunks_of events
  chunks_of (pending ∷ events) = chunks_of events
  chunks_of (fail e ∷ events) = chunks_of events

  -- A body that does not fail.
  abbrev pub Sound : List (Event C.Error) → Type 0
  Sound [] = Unit
  Sound (chunk bytes ∷ events) = Sound events
  Sound (pending ∷ events) = Sound events
  Sound (fail e ∷ events) = ⊥

  abbrev pub concat : List Bytes → Bytes
  concat [] = []
  concat (b ∷ bs) = b ++ concat bs

  -- The body was sent to its end, and these are its bytes.
  abbrev pub Sends : Bytes → Option (List Bytes) → Type 0
  Sends out none = ⊥
  Sends out (some bs) = concat bs ≡ out

  abbrev pub encoder_of : C.State → ContentEncoder C
  encoder_of state = record { state = state; buf = [] }

  abbrev pub sending : List (Event C.Error) → Option (ContentEncoder C) → Encoder C
  sending events encoder = record { body = body events; encoder = encoder }

  give-Sends : (b out : Bytes) (r : Option (List Bytes)) → Sends out r → Sends (b ++ out) (give b r)
  give-Sends b out none h = absurd h
  give-Sends b out (some bs) h = ap (λ x. b ++ x) h

  -- The last chunk, and the end behind it.
  after_finish-Sends :
      (n : ℕ) (out : Bytes)
      → Sends out (react (with_body C body (after_finish C (ok out))) (send (suc n)))
  unfolding poll_next poll_events send
  after_finish-Sends n [] = refl
  after_finish-Sends n (b ∷ bs) = append_nil (b ∷ bs)

  abbrev ok_or {ℓ κ} : {A : Type ℓ} {E : Type κ} → A → Result A E → A
  ok_or a (ok b) = b
  ok_or a (err e) = a

  abbrev pub IsOk {ℓ κ} : {A : Type ℓ} {E : Type κ} → Result A E → Type 0
  IsOk (ok a) = Unit
  IsOk (err e) = ⊥

  pub prepend-eq-ok :
      (b out : Bytes) (r : Result Bytes C.Error)
      → prepend b r ≡ ok out
      → (rest : Bytes) × (r ≡ ok rest) × (b ++ rest ≡ out)
  prepend-eq-ok b out (ok rest) h = (rest, refl, ap (ok_or []) h)
  prepend-eq-ok b out (err e) h = absurd (subst IsOk (sym h) tt)

  -- What the loop sends of these events, whatever the codec has done before.
  abbrev AllSent : List (Event C.Error) → Type 0
  AllSent events =
      (n : ℕ) (s : C.State) (out : Bytes)
      → length events + 1 ≤ n
      → encode s (chunks_of events) ≡ ok out
      → Sends out (react (with_body C body (poll_events C events (some (encoder_of s)))) (send n))

  written-Sends :
      (events : List (Event C.Error)) (n : ℕ) (s : C.State) (out : Bytes)
      (r : Result (C.State × Bytes) C.Error)
      → AllSent events
      → length events + 2 ≤ n
      → feed r (λ s'. encode s' (chunks_of events)) ≡ ok out
      → Sends out (
          react
            (with_body C body (
              after_write C events
                (encoder_of s)
                (written C (encoder_of s) r)
                (poll_events C events)))
            (send n))
  unfolding poll_next send
  written-Sends events n s out (err e) again h k = absurd (subst IsOk (sym k) tt)
  written-Sends events n s out (ok (s', [])) again h k =
      let inv = prepend-eq-ok [] out (encode s' (chunks_of events)) k in
      again n s' out (omega arith) (inv.1 ∙ ap ok inv.2)
  written-Sends events zero s out (ok (s', b ∷ bs)) again h k = absurd (omega arith)
  written-Sends events (suc n) s out (ok (s', b ∷ bs)) again h k =
      let inv = prepend-eq-ok (b ∷ bs) out (encode s' (chunks_of events)) k in
      let sent = again n s' inv.0 (omega arith) inv.1 in
      subst (λ o. Sends o (give (b ∷ bs) (send (suc n) (sending events (some (encoder_of s'))))))
        inv.2
        (give-Sends (b ∷ bs) inv.0 (send (suc n) (sending events (some (encoder_of s')))) sent)

  poll_events-AllSent : (events : List (Event C.Error)) → Sound events → AllSent events
  unfolding poll_next poll_events send write finish
  poll_events-AllSent [] h zero s out k e = absurd (omega arith)
  poll_events-AllSent [] h (suc n) s out k e =
      subst
        (λ r.
          Sends out (
            react (with_body C body (after_finish C (finished C (encoder_of s) r))) (send (suc n))))
        (sym e) (after_finish-Sends n out)
  poll_events-AllSent (pending ∷ events) h zero s out k e = absurd (omega arith)
  poll_events-AllSent (pending ∷ events) h (suc n) s out k e =
      poll_events-AllSent events h n s out (omega arith) e
  poll_events-AllSent (fail x ∷ events) h n s out k e = absurd h
  poll_events-AllSent (chunk bytes ∷ events) h n s out k e =
      written-Sends events n s out (C.write_all s bytes) (poll_events-AllSent events h)
        (omega arith) e

-- A body that does not fail is sent to its end: where the codec makes these bytes of its chunks,
-- exactly these bytes are sent, in chunks, and the end is reached within two polls more than the
-- body has events.
pub send-Sends :
    (C : Codec) (events : List (Event C.Error)) (s : C.State) (out : Bytes)
    → Sound C events
    → encode C s (chunks_of C events) ≡ ok out
    → Sends C out (send C (suc (suc (length events))) (sending C events (some (encoder_of C s))))
unfolding poll_next send
send-Sends C events s out h e =
    poll_events-AllSent C events h (suc (length events)) s out (omega arith) e
