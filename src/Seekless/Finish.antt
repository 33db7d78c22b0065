-- ===== src/Seekless/Finish.antt =====
-- What `finish` of src/seekless.rs writes, where the sink has room for it.
use s_zip.Common.{
  ℕ, ◌+◌, ◌-◌, ◌^◌, ◌≤◌, ◌<◌, ◌≡◌, refl, sym, ap, ◌∙◌, inl, inr, Bool, true, false, ◌||◌,
  if◌then◌else◌, List, [], ◌∷◌, ◌++◌, arith, length, min, Bool-cases, u16_max, u32_max, append-nil,
  append_assoc, length-append,
}
use s_zip.Outcome.{Result, ok, err, panic}
use s_zip.Format.Scan.{locator_bytes}
use s_zip.Reader.Zip64Record.{zip64_record_bytes}
use s_zip.Compress.{add_u64}
use s_zip.RoundTrip.Placeholder.{big, big_count}
use s_zip.RoundTrip.Opening.{narrow_16, narrow_32, any_wide, classic, end_bytes, file_of}
use s_zip.Sink.{◌>>◌, pure, gets}
use s_zip.Sink.Chunks.{bind_ok}
use s_zip.AsyncSink.{AsyncSink, write_all}
use s_zip.AsyncSink.Room.{with_bytes, write_all_open, flush_open}
use s_zip.Seekless.{
  PreparedEntry, SeeklessZipWriter, Writing, on_output, count_out, central_header, write_central,
  zip64_eocd, locator, eocd, write_zip64_end, finish_all, finish,
}
use s_zip.Seekless.Directory.{directory_bytes}

min_16 : (n : ℕ) → min n u16_max ≡ narrow_16 n
min_16 n = elim (Bool-cases (big_count n)) [
  | inl e ↦ rw e (ground arith)
  | inr e ↦ rw e (ground arith)
]

min_32 : (v : ℕ) → min v u32_max ≡ narrow_32 v
min_32 v = elim (Bool-cases (big v)) [ inl e ↦ rw e (ground arith) | inr e ↦ rw e (ground arith) ]

eocd_lem : (n s o : ℕ) → eocd n s o ≡ classic n s o
unfolding eocd
eocd_lem n s o = rw (min_16 n, min_32 s, min_32 o)

zip64_end_lem :
    (n s o at : ℕ)
    → at ≡ o + s
    → zip64_eocd n s o ++ locator at ≡ zip64_record_bytes 45 n s o ++ locator_bytes 1 (o + s)
unfolding zip64_eocd locator
zip64_end_lem n s o at e = rw e

swap : (a b c : Bool) → (a || c || b) ≡ (a || b || c)
swap true b c = refl
swap false true true = refl
swap false true false = refl
swap false false true = refl
swap false false false = refl

-- The writer when it has written the bytes and counted them.
abbrev pub advanced : SeeklessZipWriter → List ℕ → SeeklessZipWriter
advanced w bytes = record w {
  output = with_bytes w.output bytes;
  bytes_out = w.bytes_out + length bytes;
}

-- A writer that knows where it is, and whose sink takes so many bytes more.
pub record HasRoom (w : SeeklessZipWriter) (n : ℕ) : Type 0 where
  pub is_open : w.output.is_shut ≡ false
  pub in_step : w.bytes_out ≡ length w.output.sink.written
  pub fits : length w.output.sink.written + n ≤ w.output.sink.capacity
  pub small : length w.output.sink.written + n < 2 ^ 63

pub HasRoom-advanced :
    (w : SeeklessZipWriter) (bytes : List ℕ) (n : ℕ)
    → HasRoom w (length bytes + n)
    → HasRoom (advanced w bytes) n
HasRoom-advanced w bytes n h =
    let size = length-append w.output.sink.written bytes in
    record {
      is_open = h.is_open;
      in_step = omega (arith, size, h.in_step);
      fits = omega (arith, size, h.fits);
      small = omega (arith, size, h.small);
    }

pub on_output_open :
    (w : SeeklessZipWriter) (bytes : List ℕ)
    → w.output.is_shut ≡ false
    → length w.output.sink.written + length bytes ≤ w.output.sink.capacity
    → on_output (write_all bytes) w ≡ (ok tt, record w { output = with_bytes w.output bytes })
unfolding on_output
on_output_open w bytes is_open room = rw (write_all_open bytes w.output is_open room)

pub count_out_small :
    (w : SeeklessZipWriter) (n : ℕ)
    → w.bytes_out + n < 2 ^ 63
    → count_out n w ≡ (ok tt, record w { bytes_out = w.bytes_out + n })
unfolding count_out
count_out_small w n h = let e : add_u64 w.bytes_out n ≡ w.bytes_out + n = omega (arith, h) in rw e

-- One buffer written and counted.
write_counted :
    (w : SeeklessZipWriter) (bytes : List ℕ) (n : ℕ) {A : Type 0} (k : Writing A)
    → HasRoom w (length bytes + n)
    → (do on_output (write_all bytes); count_out (length bytes); k) w ≡ k (advanced w bytes)
write_counted w bytes n k h =
    bind_ok _ _ (on_output_open w bytes h.is_open (omega (arith, h.fits)))
    ∙ bind_ok _ (λ u. k)
        (count_out_small (record w { output = with_bytes w.output bytes }) (length bytes)
          (omega (arith, h.in_step, h.small)))

advanced_twice :
    (w : SeeklessZipWriter) (xs ys : List ℕ) → advanced (advanced w xs) ys ≡ advanced w (xs ++ ys)
advanced_twice w xs ys =
    let e : w.bytes_out + length xs + length ys ≡ w.bytes_out + length (xs ++ ys) =
      omega (arith, length-append xs ys) in
    rw (append_assoc w.output.sink.written xs ys, e)

advanced_nil : (w : SeeklessZipWriter) → advanced w [] ≡ w
advanced_nil w =
    let e : w.bytes_out + 0 ≡ w.bytes_out = omega arith in rw (append-nil w.output.sink.written, e)

write_central-written :
    (es : List PreparedEntry) (w : SeeklessZipWriter) (n : ℕ)
    → HasRoom w (length (directory_bytes es) + n)
    → write_central es w ≡ (ok tt, advanced w (directory_bytes es))
unfolding write_central directory_bytes pure
write_central-written [] w n h = ap (λ t. (ok tt, t)) (sym (advanced_nil w))
write_central-written (e ∷ es) w n h =
    let size = length-append (central_header e) (directory_bytes es) in
    let room : HasRoom w (length (central_header e) + (length (directory_bytes es) + n)) = record {
      is_open = h.is_open;
      in_step = h.in_step;
      fits = omega (arith, size, h.fits);
      small = omega (arith, size, h.small);
    } in
    write_counted w (central_header e) (length (directory_bytes es) + n) (write_central es) room
    ∙ write_central-written es (advanced w (central_header e)) n
        (HasRoom-advanced w (central_header e) (length (directory_bytes es) + n) room)
    ∙ ap (λ t. (ok tt, t)) (advanced_twice w (central_header e) (directory_bytes es))

-- Two buffers written and counted together, with what follows.
pub write_pair_then :
    (v : SeeklessZipWriter) (xs ys : List ℕ) (n : ℕ) {A : Type 0} (k : Writing A)
    → HasRoom v (length xs + length ys + n)
    → (do on_output (write_all xs); on_output (write_all ys); count_out (length xs + length ys); k)
        v
      ≡ k (advanced v (xs ++ ys))
write_pair_then v xs ys n k h =
    let one = record v { output = with_bytes v.output xs } in
    let two = record v { output = with_bytes one.output ys } in
    bind_ok _ _ (on_output_open v xs h.is_open (omega (arith, h.fits)))
    ∙ bind_ok _ _ (
        on_output_open one ys h.is_open
          (omega (arith, h.fits, length-append v.output.sink.written xs)))
    ∙ bind_ok _ (λ u. k)
        (count_out_small two (length xs + length ys) (omega (arith, h.in_step, h.small)))
    ∙ ap k (λ i. record v {
      output = record v.output {
        sink = record v.output.sink { written = append_assoc v.output.sink.written xs ys i };
      };
      bytes_out = v.bytes_out + sym (length-append xs ys) i;
    })

-- The same with nothing behind it.
write_pair :
    (v : SeeklessZipWriter) (xs ys : List ℕ) (k : ℕ)
    → HasRoom v (length xs + length ys + k)
    → (do on_output (write_all xs); on_output (write_all ys); count_out (length xs + length ys)) v
      ≡ (ok tt, advanced v (xs ++ ys))
write_pair v xs ys k h =
    let one = record v { output = with_bytes v.output xs } in
    let two = record v { output = with_bytes one.output ys } in
    bind_ok _ _ (on_output_open v xs h.is_open (omega (arith, h.fits)))
    ∙ bind_ok _ _ (
        on_output_open one ys h.is_open
          (omega (arith, h.fits, length-append v.output.sink.written xs)))
    ∙ count_out_small two (length xs + length ys) (omega (arith, h.in_step, h.small))
    ∙ pair_same
  where
    pair_same :
        ◌≡◌ {A = Result (Unit {0}) × SeeklessZipWriter}
          (
            ok tt,
            record v {
              output = with_bytes (with_bytes v.output xs) ys;
              bytes_out = v.bytes_out + (length xs + length ys);
            },
          )
          (ok tt, advanced v (xs ++ ys))
    pair_same = rw (append_assoc v.output.sink.written xs ys, sym (length-append xs ys))

finish_ok : (w w' : SeeklessZipWriter) → finish_all w ≡ (ok tt, w') → finish w ≡ ok w'.output
unfolding finish
finish_ok w w' e = ap (λ (r : Result (Unit {0}) × SeeklessZipWriter). given r.0 r.1) e
  where
    given : Result (Unit {0}) → SeeklessZipWriter → Result AsyncSink
    given r v = elim r [ ok u ↦ ok v.output | err e ↦ err e | panic ↦ panic ]

module _ (w : SeeklessZipWriter) where
  abbrev o : ℕ
  o = length w.output.sink.written

  abbrev n : ℕ
  n = length w.entries

  abbrev dir : List ℕ
  dir = directory_bytes w.entries

  abbrev s : ℕ
  s = length dir

  -- The archive that the writer is to leave behind.
  abbrev pub archive : List ℕ
  archive = file_of 45 1 w.output.sink.written dir n

  abbrev pub finished : AsyncSink
  finished = record w.output {
    sink = record w.output.sink { written = archive };
    flushed = length archive;
  }

  abbrev zip64_end : List ℕ
  zip64_end = if any_wide n s o then zip64_record_bytes 45 n s o ++ locator_bytes 1 (o + s) else []

  write_zip64_end-written :
      (v : SeeklessZipWriter) (k : ℕ)
      → v.bytes_out ≡ o + s
      → HasRoom v (length zip64_end + k)
      → write_zip64_end n s o v ≡ (ok tt, advanced v zip64_end)
  unfolding write_zip64_end pure gets zip64_eocd locator
  write_zip64_end-written v k at h = elim (Bool-cases (any_wide n s o)) [
    | inl e ↦
        rw (swap (big_count n) (big s) (big o) ∙ e, e)
          (bind_ok _ _ refl
            ∙ write_pair v (zip64_eocd n s o) (locator v.bytes_out) k (ends (rw e at h))
            ∙ ap (λ (t : List ℕ). (ok tt, advanced v t)) (zip64_end_lem n s o v.bytes_out at))
    | inr e ↦
        rw (swap (big_count n) (big s) (big o) ∙ e, e) (ap (λ t. (ok tt, t)) (sym (advanced_nil v)))
  ]
    where
      ends :
          HasRoom v (length (zip64_record_bytes 45 n s o ++ locator_bytes 1 (o + s)) + k)
          → HasRoom v (length (zip64_eocd n s o) + length (locator v.bytes_out) + k)
      ends h = record {
        is_open = h.is_open;
        in_step = h.in_step;
        fits = omega (arith, h.fits);
        small = omega (arith, h.small);
      }

  -- The directory is written from where the writer stands, the end records behind it, and all of
  -- it is flushed.
  pub finish-written : HasRoom w (length (dir ++ end_bytes 45 1 n s o)) → finish w ≡ ok finished
  unfolding finish_all gets on_output
  finish-written h = finish_ok w _ all_written ∙ ap ok bytes_finished
    where
      size : s + (length zip64_end + length (classic n s o)) ≡ length (dir ++ end_bytes 45 1 n s o)
      size =
          omega (
            arith,
            length-append dir (end_bytes 45 1 n s o),
            length-append zip64_end (classic n s o),
          )

      first : HasRoom w (s + (length zip64_end + length (classic n s o)))
      first = rw size h

      second : HasRoom (advanced w dir) (length zip64_end + length (classic n s o))
      second = HasRoom-advanced w dir (length zip64_end + length (classic n s o)) first

      w2 : SeeklessZipWriter
      w2 = advanced (advanced w dir) zip64_end

      third : HasRoom w2 (length (classic n s o))
      third = HasRoom-advanced (advanced w dir) zip64_end (length (classic n s o)) second

      same_size : w.bytes_out + s - w.bytes_out ≡ s
      same_size = omega arith

      record_same : eocd n (w.bytes_out + s - w.bytes_out) w.bytes_out ≡ classic n s o
      record_same = (λ i. eocd n (same_size i) (h.in_step i)) ∙ eocd_lem n s o

      w3 : SeeklessZipWriter
      w3 = record w2 { output = with_bytes w2.output (classic n s o) }

      bytes_same : w3.output.sink.written ≡ archive
      bytes_same =
          append_assoc (w.output.sink.written ++ dir) zip64_end (classic n s o)
          ∙ append_assoc w.output.sink.written dir (zip64_end ++ classic n s o)

      bytes_finished : record w3.output { flushed = length w3.output.sink.written } ≡ finished
      bytes_finished = λ i. record w.output {
        sink = record w.output.sink { written = bytes_same i };
        flushed = length (bytes_same i);
      }

      on_flush : Result (Unit {0}) × AsyncSink → Result (Unit {0}) × SeeklessZipWriter
      on_flush (r, output) = (r, record w3 { output = output })

      all_written : finish_all w ≡ (
        ok tt,
        record w3 { output = record w3.output { flushed = length w3.output.sink.written } },
      )
      all_written =
          bind_ok _ _ refl
          ∙ bind_ok _ _
              (write_central-written w.entries w (length zip64_end + length (classic n s o)) first)
          ∙ bind_ok _ _ refl
          ∙ bind_ok _ _ (
              (λ i. write_zip64_end n (same_size i) (h.in_step i) (advanced w dir))
              ∙ write_zip64_end-written (advanced w dir) (length (classic n s o))
                  (omega (arith, h.in_step)) second)
          ∙ bind_ok _ _ (
              (λ i. on_output (write_all (record_same i)) w2)
              ∙ on_output_open w2 (classic n s o) third.is_open (omega (arith, third.fits)))
          ∙ (λ i. on_flush (flush_open w3.output third.is_open i))
