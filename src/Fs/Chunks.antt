-- ===== src/Fs/Chunks.antt =====
-- `ChunkedReadFile` of src/fs.rs: a stream that reads part of a file in chunks, each by a task on
-- a thread pool. A file is its bytes, which nobody writes while it is served; how long a task
-- takes is the pool's choice, the number of polls that find it unfinished.
pub mod Delivery
pub mod Truncated
use actix_web.Prelude.{
  ℕ, zero, suc, ◌+◌, ◌-◌, ◌%◌, ◌^◌, min, List, [], ◌∷◌, Option, none, some, Result, ok, err,
  if◌then◌else◌, ◌==◌, length, take, drop, is_empty,
}
use actix_web.Futures.{Poll, Fut, ready, not_ready, error, panicked, poll_fut, after}

abbrev pub Bytes : Type 0
Bytes = List ℕ

abbrev pub File : Type 0
File = Bytes

pub data IoError : Type 0 where
  unexpected_eof : IoError

pub record ChunkedReadFile : Type 0 where
  pub size : ℕ
  pub offset : ℕ
  pub file : Option File
  pub fut : Option (Fut (File × Bytes) IoError)
  pub counter : ℕ

-- The closure that the pool runs: seek, then read until `max_bytes` or the end of the file.
unfoldable pub read_chunk : File → ℕ → ℕ → ℕ → Result (File × Bytes) IoError
read_chunk file size offset counter =
    let buf = take (min (size - counter) 65_536) (drop offset file) in
    if is_empty buf then err unexpected_eof else ok (file, buf)

-- `poll` while a task is there.
abbrev pub poll_task :
    ChunkedReadFile → Fut (File × Bytes) IoError → Poll (Option Bytes) IoError × ChunkedReadFile
poll_task s task =
    let (p, task') = poll_fut task in
    elim p [
      | ready (file, bytes) ↦ (
        ready (some bytes),
        record s {
          fut = none;
          file = some file;
          offset = (s.offset + length bytes) % 2 ^ 64;
          counter = (s.counter + length bytes) % 2 ^ 64;
        },
      )
      | not_ready ↦ (not_ready, record s { fut = some task' })
      | error e ↦ (error e, record s { fut = some task' })
      | panicked ↦ (panicked, record s { fut = some task' })
    ]

-- `self.cpu_pool.spawn_fn(..)`, then `self.poll()` again.
abbrev pub spawn : ℕ → ChunkedReadFile → Option File → Poll (Option Bytes) IoError × ChunkedReadFile
spawn delay s none = (panicked, s)
spawn delay s (some file) =
    let task = after delay (read_chunk file s.size s.offset s.counter) in
    poll_task (record s { file = none; fut = some task }) task

abbrev pub poll_stream :
    ℕ
    → ChunkedReadFile
    → Option (Fut (File × Bytes) IoError)
    → Poll (Option Bytes) IoError × ChunkedReadFile
poll_stream delay s (some task) = poll_task s task
poll_stream delay s none = if s.size == s.counter then (ready none, s) else spawn delay s s.file

-- `Stream::poll`; `delay` is that of the task which this call may spawn.
unfoldable pub poll : ℕ → ChunkedReadFile → Poll (Option Bytes) IoError × ChunkedReadFile
unfolding read_chunk
poll delay s = poll_stream delay s s.fut

-- `ChunkedReadFile { offset, size, file: Some(file), fut: None, counter: 0 }`, as the callers do.
abbrev pub reader : ℕ → ℕ → File → ChunkedReadFile
reader offset size file = record {
  size = size;
  offset = offset;
  file = some file;
  fut = none;
  counter = 0;
}

-- How a stream ends, with the chunks that it gave; `none` is a fuel that ran out.
pub data End : Type 0 where
  complete : End
  failed : IoError → End
  panic : End

abbrev give : Bytes → Option (List Bytes × End) → Option (List Bytes × End)
give b none = none
give b (some (bs, e)) = some (b ∷ bs, e)

-- What a caller does with one poll; `again` polls on.
abbrev pub react :
    Poll (Option Bytes) IoError × ChunkedReadFile
    → (ChunkedReadFile → Option (List Bytes × End))
    → Option (List Bytes × End)
react (ready (some b), s) again = give b (again s)
react (ready none, s) again = some ([], complete)
react (not_ready, s) again = again s
react (error e, s) again = some ([], failed e)
react (panicked, s) again = some ([], panic)

-- A caller that polls until the stream ends, at most `fuel` times; `delays n` is that of the task
-- spawned at poll n, if one is.
unfoldable pub drive : ℕ → (ℕ → ℕ) → ChunkedReadFile → Option (List Bytes × End)
drive zero delays s = none
drive (suc fuel) delays s = react (poll (delays 0) s) (drive fuel (λ n. delays (suc n)))
