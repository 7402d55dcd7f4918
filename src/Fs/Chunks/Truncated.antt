-- ===== src/Fs/Chunks/Truncated.antt =====
-- What a caller of `ChunkedReadFile::poll` (src/fs.rs) receives of a file that has become shorter
-- than the range that was promised.
use mathlib.Core.List.{flatten}
use mathlib.Core.Path.{subst}
use actix_web.Prelude.{
  ℕ, zero, suc, ◌+◌, ◌-◌, ◌%◌, ◌^◌, ◌<◌, ◌≤◌, ◌≡◌, false, sym, ◌∙◌, ap, refl, min, [], ◌∷◌, ◌++◌,
  ok, err, length, take, drop, is_empty, arith, Bool-cases, inl, inr, length-take, length-drop,
  drop-drop, leb,
}
use actix_web.Futures.{after}
use actix_web.Fs.Chunks.{
  Bytes, File, unexpected_eof, ChunkedReadFile, read_chunk, poll, reader, failed, drive,
}
use actix_web.Fs.Chunks.Delivery.{IsChunk, Stops, idle, with_task, task-Stops, start-Stops}

eof-Stops :
    (wait : ℕ) (delays : ℕ → ℕ) (s : ChunkedReadFile)
    → Stops (failed unexpected_eof) delays (with_task s (after wait (err unexpected_eof))) []
unfolding drive poll flatten
eof-Stops zero delays s = record { fuel = 1; chunks = []; ends = refl; whole = refl; sized = tt }
eof-Stops (suc wait) delays s =
    let d : Stops (failed unexpected_eof) (λ n. delays (suc n))
        (with_task s (after wait (err unexpected_eof))) [] =
      eof-Stops wait (λ n. delays (suc n)) s in
    record { fuel = suc d.fuel; chunks = d.chunks; ends = d.ends; whole = d.whole; sized = d.sized }

drop_all : (n : ℕ) (xs : Bytes) → length xs ≤ n → drop n xs ≡ []
drop_all zero [] h = refl
drop_all zero (x ∷ xs) h = absurd (omega arith)
drop_all (suc n) [] h = refl
drop_all (suc n) (x ∷ xs) h = drop_all n xs (omega arith)

abbrev no_bytes : Bytes
no_bytes = []

take_nil : (n : ℕ) → take n no_bytes ≡ []
take_nil zero = refl
take_nil (suc n) = refl

take-append-drop : (n : ℕ) (xs : Bytes) → take n xs ++ drop (length (take n xs)) xs ≡ xs
take-append-drop zero xs = refl
take-append-drop (suc n) [] = refl
take-append-drop (suc n) (x ∷ xs) = ap (λ r. x ∷ r) (take-append-drop n xs)

read_chunk_eof :
    (file : File) (size offset counter : ℕ)
    → length file ≤ offset
    → read_chunk file size offset counter ≡ err unexpected_eof
unfolding read_chunk
read_chunk_eof file size offset counter h =
    rw (drop_all offset file h, take_nil (min (size - counter) 65_536)) refl

read_chunk_some :
    (file : File) (size offset counter : ℕ)
    → offset < length file
    → counter < size
    → read_chunk file size offset counter
      ≡ ok (file, take (min (size - counter) 65_536) (drop offset file))
unfolding read_chunk
read_chunk_some file size offset counter h hc =
    rw
      (not_empty (take (min (size - counter) 65_536) (drop offset file)) (
        omega (
          arith,
          length-take (min (size - counter) 65_536) (drop offset file),
          length-drop offset file,
        )))
      refl
  where
    not_empty : (b : Bytes) → 0 < length b → is_empty b ≡ false
    not_empty [] p = absurd (omega arith)
    not_empty (c ∷ b) p = refl

-- One chunk of what is left, when the stream behind it stops.
chunk-Stops :
    (delays : ℕ → ℕ) (size offset counter m : ℕ) (file : File)
    → m ≡ length (take (min (size - counter) 65_536) (drop offset file))
    → counter < size
    → offset < length file
    → length file < offset + (size - counter)
    → size < 2 ^ 64
    → length file < 2 ^ 64
    → ((delays' : ℕ → ℕ)
        → Stops
            (failed unexpected_eof)
            delays'
            (idle size (offset + m) (counter + m) file)
            (drop (offset + m) file))
    → Stops (failed unexpected_eof) delays (idle size offset counter file) (drop offset file)
chunk-Stops delays size offset counter m file em lt inside beyond hs hn again =
    start-Stops delays size offset counter file _ (omega arith) (
      rw (read_chunk_some file size offset counter inside lt) (
        subst
          (λ rest.
            Stops (failed unexpected_eof) delays
              (with_task (idle size offset counter file) (after (delays 0) (ok (file, bytes))))
              rest)
          (ap (λ r. bytes ++ r) (sym behind)
            ∙ take-append-drop (min (size - counter) 65_536) (drop offset file))
          (task-Stops (delays 0) delays (idle size offset counter file) file bytes
            (drop (offset + m) file) chunk
            (λ delays'. rw (← em, offset_eq, counter_eq) (again delays')))))
  where
    bytes : Bytes
    bytes = take (min (size - counter) 65_536) (drop offset file)

    long : m ≡ min (min (size - counter) 65_536) (length file - offset)
    long = omega (
      arith,
      em,
      length-take (min (size - counter) 65_536) (drop offset file),
      length-drop offset file,
    )

    chunk : IsChunk bytes
    chunk = rw (← em) (omega (arith, long), omega (arith, long))

    offset_eq : (offset + m) % 2 ^ 64 ≡ offset + m
    offset_eq = omega (arith, long)

    counter_eq : (counter + m) % 2 ^ 64 ≡ counter + m
    counter_eq = omega (arith, long)

    behind : drop (length bytes) (drop offset file) ≡ drop (offset + m) file
    behind = drop-drop offset (length bytes) (offset + m) file (omega (arith, em))

nothing-Stops :
    (delays : ℕ → ℕ) (size offset counter : ℕ) (file : File)
    → counter < size
    → length file ≤ offset
    → Stops (failed unexpected_eof) delays (idle size offset counter file) (drop offset file)
nothing-Stops delays size offset counter file lt h = rw (drop_all offset file h) (
    start-Stops delays size offset counter file [] (omega arith) (
      rw (read_chunk_eof file size offset counter h)
        (eof-Stops (delays 0) delays (idle size offset counter file))))

short-Stops :
    (left : ℕ) (delays : ℕ → ℕ) (size offset counter : ℕ) (file : File)
    → length file - offset ≤ left
    → counter < size
    → length file < offset + (size - counter)
    → size < 2 ^ 64
    → length file < 2 ^ 64
    → Stops (failed unexpected_eof) delays (idle size offset counter file) (drop offset file)
short-Stops zero delays size offset counter file hl lt beyond hs hn =
    nothing-Stops delays size offset counter file lt (omega arith)
short-Stops (suc left) delays size offset counter file hl lt beyond hs hn =
    elim (Bool-cases (leb (length file) offset)) [
      | inl nothing ↦ nothing-Stops delays size offset counter file lt (ground arith)
      | inr more ↦
          chunk-Stops delays size offset counter m file refl lt (ground arith) beyond hs hn
            (λ delays'.
              short-Stops left delays' size (offset + m) (counter + m) file (ground (arith, long))
                (ground (arith, long)) (ground (arith, long)) hs hn)
    ]
  where
    m : ℕ
    m = length (take (min (size - counter) 65_536) (drop offset file))

    long : m ≡ min (min (size - counter) 65_536) (length file - offset)
    long = omega (
      arith,
      length-take (min (size - counter) 65_536) (drop offset file),
      length-drop offset file,
    )

-- A reader of a range of at least one byte that the file has become too short for, both of less than
-- 2^64 bytes, gives what is left of the file from the offset on, in chunks of 1 to 65536 bytes, and
-- then fails by an unexpected end of the file, however long each of its tasks takes; it never ends as
-- if it had given the whole range.
pub reader-Stops :
    (delays : ℕ → ℕ) (offset size : ℕ) (file : File)
    → 0 < size
    → length file < offset + size
    → size < 2 ^ 64
    → length file < 2 ^ 64
    → Stops (failed unexpected_eof) delays (reader offset size file) (drop offset file)
reader-Stops delays offset size file some beyond hs hn =
    short-Stops (length file) delays size offset 0 file (omega arith) some (omega arith) hs hn
