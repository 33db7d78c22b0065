-- ===== src/Lib.antt =====
-- Verification of s-zip, a library that writes and reads ZIP archives as streams.
--
-- The program. `src/writer.rs` writes an archive through `StreamingZipWriter`: an entry is started, its
-- data is hashed, compressed into a buffer, encrypted and written in chunks, and closed with a data
-- descriptor; `finish` writes the central directory and the end records, with ZIP64 records where a
-- value passes its field. `src/reader.rs` opens an archive through `StreamingZipReader`: it searches the
-- end record backwards, reads the central directory, and reads an entry by its local header, decrypts,
-- decompresses and checks it. `src/format.rs` holds the parsers that work on bytes alone,
-- `src/encryption.rs` the WinZip AES encryption, `src/lib.rs` the entry options and the statistics, and
-- `src/error.rs` the errors.
--
-- The files.
--   Common, Outcome: numbers, lists, little-endian words; the errors and `Result`, where `panic` is a
--     call that does not return.
--   Format: src/format.rs, each function under its own name. `Path::components` is written out for Unix.
--   Encryption: src/encryption.rs; `AesEncryptor::new` is `new_encryptor`, `AesDecryptor::new` is
--     `new_decryptor`, and the methods of either carry its name.
--   Utf8, Cursor, Sink: what the library uses of the standard library: lossy decoding of names, a file
--     as its bytes and a position, and a sink that appends and has room for so many bytes.
--   External: the other packages (crc32fast, flate2, zstd, aes, ctr, pbkdf2, hmac, getrandom), as
--     parameters of the definitions, with their documented behaviour as records of laws.
--   Reader, Entry: src/reader.rs: the central directory, and the lookup and reading of entries. Parts of
--     one method have names of their own where a proof needs them: `read_end_values`, `directory_place`,
--     `read_local_header`, `read_payload`.
--   Options: the part of src/lib.rs that computes.
--   Compress, Central, Writer: src/writer.rs: the buffer, the compressors and the counter; the bytes of
--     the directory as the `write_all` calls make them; and `StreamingZipWriter`, whose methods are
--     actions that keep what was done before a failure.
--   RoundTrip: the writer against the reader.
--   DecryptReader: the synchronous reader of src/decrypt_reader.rs; each call of `read` is given how many
--     bytes the inner reader gives, which does not fail.
--   Parallel: src/parallel.rs. The tasks of `compress_entries_parallel` are a step relation, in which any
--     task may make the next step; `outcome` is what the call returns at the end.
--   Cloud: src/cloud/s3.rs and src/cloud/gcs.rs. A writer sends commands through a channel without bound;
--     the worker is a function of the commands in their order, over a service that is a parameter.
--   AsyncSink: the asynchronous sink below src/seekless.rs and src/async_writer.rs: a sink that knows what
--     is flushed and whether it is shut down. An `await` is the call until it is ready.
--   Seekless: src/seekless.rs; `SeeklessZipWriter::new` is `new_writer`.
--   AsyncWriter: src/async_writer.rs, whose own buffer, compressors and counter are in its child Compress,
--     and `finish` with what it writes in its child Closing. `write_entries_parallel`, in Entries, is
--     given what `compress_entries_parallel` returned. Sync has the packages of the synchronous writer
--     and the level at which it does the same.
--   Tests: concrete packages and inputs.
--
-- Choices. The features `encryption`, `zstd-support` and `async-zstd` are on. A string and a slice
-- are lists of numbers; the counters of an entry wrap at 2 ^ 64, while the `byte_offset` of a
-- cipher, which one entry would need 2 ^ 64 bytes to overflow, is a number without bound. The walk
-- over an extra field runs on fuel: each round moves on by four bytes at least, so one round more
-- than the buffer has bytes is given. A seek past `i64::MAX` fails, a read past the end fails, a
-- write without room writes what fits and fails. Encoders write into memory and do not fail once
-- made. A vector of more than `isize::MAX` bytes panics; that the memory runs out before is not
-- modelled.
--
-- Not modelled: `read_entry_streaming`, the asynchronous readers; the constructors that create a file; the
-- ratio of the statistics, which is a float; the texts of the errors.
pub mod Common
pub mod Outcome
pub mod Format
pub mod Encryption
pub mod Utf8
pub mod External
pub mod Cursor
pub mod Reader
pub mod Entry
pub mod Options
pub mod Sink
pub mod Compress
pub mod Central
pub mod Writer
pub mod RoundTrip
pub mod Tests
pub mod DecryptReader
pub mod Parallel
pub mod Cloud
pub mod AsyncSink
pub mod Seekless
pub mod AsyncWriter
