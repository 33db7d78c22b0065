-- ===== src/Parallel/Crc.antt =====
-- src/parallel.rs: `CrcReader`, which hashes what passes through it, and the compression of one file.
-- A file is its bytes and the length that its metadata gives; the encoder of another package takes its
-- input by calls of the reader, which are a parameter.
pub mod Passed
use s_zip.Common.{ℕ, List, [], ◌∷◌, Option, none, some, length, take, drop, min}
use s_zip.Outcome.{Result, ok, err, panic, io, not_found, invalid_format, only_deflate}
use s_zip.External.{Hasher}
use s_zip.Compress.{CompressionMethod, deflate, zstd, stored}
use s_zip.Parallel.{ParallelConfig, ParallelEntry, CompressedEntry}

-- The `BufReader` inside: what it holds, and what the file has still to give.
pub record CrcReader (h : Hasher) : Type 0 where
  pub buffered : List ℕ
  pub unread : List ℕ
  pub hasher : h.State

module _ (h : Hasher) where
  pub new_crc_reader : List ℕ → CrcReader h
  new_crc_reader bytes = record { buffered = []; unread = bytes; hasher = h.new }

  -- An empty buffer takes the next bytes, of which the file gives `n` or what it has.
  unfoldable pub poll_fill_buf : ℕ → CrcReader h → CrcReader h
  poll_fill_buf n r = elim r.buffered [
    | [] ↦ record r { buffered = take n r.unread; unread = drop n r.unread }
    | b ∷ bs ↦ r
  ]

  pub consume : ℕ → ℕ → CrcReader h → CrcReader h
  unfolding poll_fill_buf
  consume n amt r =
      let r1 = poll_fill_buf n r in
      let to_hash = take (min amt (length r1.buffered)) r1.buffered in
      record r1 { buffered = drop amt r1.buffered; hasher = h.update r1.hasher to_hash }

  hash_new : h.State → List ℕ → h.State
  hash_new s [] = s
  hash_new s (b ∷ bs) = h.update s (b ∷ bs)

  -- A read into a buffer with room for `room` bytes: the bytes, and the reader behind them.
  pub poll_read : ℕ → ℕ → CrcReader h → List ℕ × CrcReader h
  unfolding poll_fill_buf hash_new
  poll_read n room r =
      let r1 = poll_fill_buf n r in
      let new_bytes = take room r1.buffered in
      (
        new_bytes,
        record r1 { buffered = drop room r1.buffered; hasher = hash_new r1.hasher new_bytes },
      )

  pub finalize : CrcReader h → ℕ
  finalize r = h.finalize r.hasher

-- A call that the encoder makes.
pub data ReaderCall : Type 0 where
  fill : ℕ → ReaderCall
  take_bytes : ℕ → ℕ → ReaderCall
  read : ℕ → ℕ → ReaderCall

-- `async_compression`'s deflate encoder over a reader: the calls it makes of the reader until its
-- output ends, and its output.
pub record FileEncoder : Type 0 where
  pub calls : ℕ → List ℕ → List ReaderCall
  pub output : ℕ → List ℕ → List ℕ

pub record File : Type 0 where
  pub bytes : List ℕ
  pub metadata_len : ℕ

module _ (h : Hasher) where
  pub run_call : ReaderCall → CrcReader h → CrcReader h
  unfolding poll_fill_buf consume poll_read
  run_call (fill n) r = poll_fill_buf h n r
  run_call (take_bytes n amt) r = consume h n amt r
  run_call (read n room) r = (poll_read h n room r).1

  pub run_calls : List ReaderCall → CrcReader h → CrcReader h
  unfolding run_call
  run_calls [] r = r
  run_calls (c ∷ cs) r = run_calls cs (run_call c r)

-- The files of the system, by their paths.
module _ (h : Hasher) (encoder : FileEncoder) (open_file : List ℕ → Option File) where
  pub compress_file_deflate : List ℕ → ℕ → Result (List ℕ × ℕ × ℕ)
  unfolding run_calls new_crc_reader finalize
  compress_file_deflate path level = elim (open_file path) [
    | none ↦ err (io not_found)
    | some file ↦
        let crc_reader =
          run_calls h (encoder.calls level file.bytes) (new_crc_reader h file.bytes) in
        ok (encoder.output level file.bytes, file.metadata_len, finalize h crc_reader)
  ]

  -- What each task of `compress_entries_parallel` makes of its entry.
  pub compress_entry : ParallelConfig → ParallelEntry → Result CompressedEntry
  unfolding compress_file_deflate
  compress_entry config entry = elim config.compression_method [
    | deflate ↦ elim (compress_file_deflate entry.path config.compression_level) [
      | ok (compressed, uncompressed_size, crc32) ↦ ok (record {
        name = entry.name;
        content = compressed;
        uncompressed_size = uncompressed_size;
        crc32 = crc32;
      })
      | err e ↦ err e
      | panic ↦ panic
    ]
    | zstd ↦ err (invalid_format only_deflate)
    | stored ↦ err (invalid_format only_deflate)
  ]
