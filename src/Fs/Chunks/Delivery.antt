-- ===== src/Fs/Chunks/Delivery.antt =====
-- What a caller of `ChunkedReadFile::poll` (src/fs.rs) receives, until the stream ends.
use mathlib.Core.List.{flatten}
use mathlib.Core.Path.{subst}
use actix_web.Prelude.{
  ℕ, zero, suc, ◌+◌, ◌-◌, ◌%◌, ◌^◌, ◌<◌, ◌≤◌, ◌≡◌, ◌≢◌, false, true, sym, ◌∙◌, ap, refl, min, List,
  [], ◌∷◌, ◌++◌, Option, none, some, ok, ◌==◌, length, take, drop, is_empty, All, arith, Bool-cases,
  inl, inr, length-take, length-drop, take-append-take, drop-drop,
}
use actix_web.Futures.{Fut, after}
use actix_web.Fs.Chunks.{
  Bytes, File, IoError, ChunkedReadFile, read_chunk, poll, reader, End, complete, drive, give,
  react,
}

-- The limits on one chunk.
abbrev pub IsChunk : Bytes → Type 0
IsChunk b = (0 < length b) × (length b ≤ 65_536)

-- After enough polls the stream has given `rest` in chunks, and has ended like this.
pub record Stops (e : End) (delays : ℕ → ℕ) (s : ChunkedReadFile) (rest : Bytes) : Type 0 where
  pub fuel : ℕ
  pub chunks : List Bytes
  pub ends : drive fuel delays s ≡ some (chunks, e)
  pub whole : flatten chunks ≡ rest
  pub sized : All IsChunk chunks

abbrev pub Delivers : (ℕ → ℕ) → ChunkedReadFile → Bytes → Type 0
Delivers = Stops complete

-- A stream with no task.
abbrev pub idle : ℕ → ℕ → ℕ → File → ChunkedReadFile
idle size offset counter file = record {
  size = size;
  offset = offset;
  file = some file;
  fut = none;
  counter = counter;
}

-- The stream once the running task has read `bytes`.
abbrev pub advance : ChunkedReadFile → File → Bytes → ChunkedReadFile
advance s file bytes = record s {
  fut = none;
  file = some file;
  offset = (s.offset + length bytes) % 2 ^ 64;
  counter = (s.counter + length bytes) % 2 ^ 64;
}

abbrev pub with_task : ChunkedReadFile → Fut (File × Bytes) IoError → ChunkedReadFile
with_task s task = record s { file = none; fut = some task }

give_chunk :
    (b : Bytes) (o : Option (List Bytes × End)) {bs : List Bytes} {e : End}
    → o ≡ some (bs, e)
    → give b o ≡ some (b ∷ bs, e)
give_chunk b o h = rw h refl

flatten-cons :
    (b : Bytes) (bs : List Bytes) {rest : Bytes} → flatten bs ≡ rest → flatten (b ∷ bs) ≡ b ++ rest
unfolding flatten
flatten-cons b bs e = ap (λ r. b ++ r) e

-- A task that is found unfinished `wait` times, then gives its chunk.
pub task-Stops :
    {e : End} (wait : ℕ) (delays : ℕ → ℕ) (s : ChunkedReadFile) (file : File) (bytes rest : Bytes)
    → IsChunk bytes
    → ((delays' : ℕ → ℕ) → Stops e delays' (advance s file bytes) rest)
    → Stops e delays (with_task s (after wait (ok (file, bytes)))) (bytes ++ rest)
unfolding drive poll
task-Stops {e} zero delays s file bytes rest h k =
    let d : Stops e (λ n. delays (suc n)) (advance s file bytes) rest = k (λ n. delays (suc n)) in
    record {
      fuel = suc d.fuel;
      chunks = bytes ∷ d.chunks;
      ends = give_chunk bytes _ d.ends;
      whole = flatten-cons bytes d.chunks d.whole;
      sized = (h, d.sized);
    }
task-Stops {e} (suc wait) delays s file bytes rest h k =
    let d : Stops e (λ n. delays (suc n)) (with_task s (after wait (ok (file, bytes))))
        (bytes ++ rest) =
      task-Stops wait (λ n. delays (suc n)) s file bytes rest h k in
    record { fuel = suc d.fuel; chunks = d.chunks; ends = d.ends; whole = d.whole; sized = d.sized }

-- The call that spawns a task polls it at once.
poll_start :
    (delay size offset counter : ℕ) (file : File)
    → size ≢ counter
    → poll delay (idle size offset counter file)
      ≡ poll delay (
          with_task
            (idle size offset counter file)
            (after delay (read_chunk file size offset counter)))
unfolding poll
poll_start delay size offset counter file ne =
    let busy : (size == counter) ≡ false = ground arith in rw busy refl

drive_start :
    (fuel : ℕ) (delays : ℕ → ℕ) (s t : ChunkedReadFile)
    → poll (delays 0) s ≡ poll (delays 0) t
    → drive fuel delays s ≡ drive fuel delays t
unfolding drive
drive_start zero delays s t e = refl
drive_start (suc fuel) delays s t e = ap (λ p. react p (drive fuel (λ n. delays (suc n)))) e

pub start-Stops :
    {e : End} (delays : ℕ → ℕ) (size offset counter : ℕ) (file : File) (rest : Bytes)
    → size ≢ counter
    → Stops e delays
        (with_task
          (idle size offset counter file)
          (after (delays 0) (read_chunk file size offset counter)))
        rest
    → Stops e delays (idle size offset counter file) rest
start-Stops delays size offset counter file rest ne d = record {
  fuel = d.fuel;
  chunks = d.chunks;
  ends = drive_start d.fuel delays _ _ (poll_start (delays 0) size offset counter file ne) ∙ d.ends;
  whole = d.whole;
  sized = d.sized;
}

chunk_length :
    (file : File) (size offset counter : ℕ)
    → offset + (size - counter) ≤ length file
    → length (take (min (size - counter) 65_536) (drop offset file)) ≡ min (size - counter) 65_536
chunk_length file size offset counter h =
    omega
      (arith, length-take (min (size - counter) 65_536) (drop offset file), length-drop offset file)

read_chunk_ok :
    (file : File) (size offset counter : ℕ)
    → offset + (size - counter) ≤ length file
    → counter < size
    → read_chunk file size offset counter
      ≡ ok (file, take (min (size - counter) 65_536) (drop offset file))
unfolding read_chunk
read_chunk_ok file size offset counter h hc =
    rw
      (not_empty (take (min (size - counter) 65_536) (drop offset file))
        (omega (arith, chunk_length file size offset counter h)))
      refl
  where
    not_empty : (b : Bytes) → 0 < length b → is_empty b ≡ false
    not_empty [] p = absurd (omega arith)
    not_empty (c ∷ b) p = refl

done-Delivers :
    (delays : ℕ → ℕ) (size offset : ℕ) (file : File)
    → Delivers delays (idle size offset size file) []
unfolding drive poll flatten
done-Delivers delays size offset file = record {
  fuel = 1;
  chunks = [];
  ends = ends;
  whole = refl;
  sized = tt;
}
  where
    same : (size == size) ≡ true
    same = ground arith

    ends : drive 1 delays (idle size offset size file) ≡ some ([], complete)
    ends = rw (same, drive) refl

-- One chunk, when the stream behind it delivers.
next-Delivers :
    (delays : ℕ → ℕ) (size offset counter m : ℕ) (file : File)
    → m ≡ min (size - counter) 65_536
    → counter < size
    → offset + (size - counter) ≤ length file
    → size < 2 ^ 64
    → length file < 2 ^ 64
    → ((delays' : ℕ → ℕ)
        → Delivers delays'
            (idle size (offset + m) (counter + m) file)
            (take (size - (counter + m)) (drop (offset + m) file)))
    → Delivers delays (idle size offset counter file) (take (size - counter) (drop offset file))
next-Delivers delays size offset counter m file em lt hf hs hn later =
    start-Stops delays size offset counter file _ (omega arith) (
      rw (read_chunk_ok file size offset counter hf lt, ← em, ← split_up)
        (task-Stops (delays 0) delays (idle size offset counter file) file bytes _ chunk
          (λ delays'. rw (long, offset_eq, counter_eq) (rw behind (later delays')))))
  where
    bytes : Bytes
    bytes = take m (drop offset file)

    long : length bytes ≡ m
    long = rw em (chunk_length file size offset counter hf)

    chunk : IsChunk bytes
    chunk = rw long (omega arith, omega arith)

    offset_eq : (offset + m) % 2 ^ 64 ≡ offset + m
    offset_eq = omega arith

    counter_eq : (counter + m) % 2 ^ 64 ≡ counter + m
    counter_eq = omega arith

    behind : drop m (drop offset file) ≡ drop (offset + m) file
    behind = drop-drop offset m (offset + m) file refl

    split_up :
        bytes ++ take (size - (counter + m)) (drop m (drop offset file))
        ≡ take (size - counter) (drop offset file)
    split_up =
        take-append-take m (size - (counter + m)) (size - counter) (drop offset file) (omega arith)

idle-Delivers :
    (left : ℕ) (delays : ℕ → ℕ) (size offset counter : ℕ) (file : File)
    → size - counter ≤ left
    → counter ≤ size
    → offset + (size - counter) ≤ length file
    → size < 2 ^ 64
    → length file < 2 ^ 64
    → Delivers delays (idle size offset counter file) (take (size - counter) (drop offset file))
idle-Delivers zero delays size offset counter file hl hc hf hs hn =
    let e : size ≡ counter = omega arith in
    let z : size - counter ≡ 0 = omega arith in rw (z, e) (done-Delivers delays counter offset file)
idle-Delivers (suc left) delays size offset counter file hl hc hf hs hn =
    elim (Bool-cases (size == counter)) [
      | inl at_end ↦ idle-Delivers left delays size offset counter file (ground arith) hc hf hs hn
      | inr more ↦
          next-Delivers delays size offset counter m file refl (ground arith) hf hs hn (λ delays'.
            idle-Delivers left delays' size (offset + m) (counter + m) file (ground arith)
              (omega arith) (ground arith) hs hn)
    ]
  where
    m : ℕ
    m = min (size - counter) 65_536

-- A reader of a range that lies in the file gives exactly the bytes of the range, in chunks of 1 to
-- 65536 bytes, and then ends, however long each of its tasks takes; it neither fails nor panics.
pub reader-Delivers :
    (delays : ℕ → ℕ) (offset size : ℕ) (file : File)
    → offset + size ≤ length file
    → length file < 2 ^ 64
    → Delivers delays (reader offset size file) (take size (drop offset file))
reader-Delivers delays offset size file h hn =
    let e : size ≡ size - 0 = omega arith in
    subst (λ n. Delivers delays (reader offset size file) (take n (drop offset file))) (sym e)
      (idle-Delivers size delays size offset 0 file (omega arith) (omega arith) (omega arith)
        (omega arith) hn)
