-- ===== src/Cloud/S3/Reader/Slices.antt =====
-- src/cloud/s3.rs: a reader of an object reads as a reader of a file does.
use s_zip.Common.{
  ℕ, suc, ◌+◌, ◌-◌, ◌%◌, ◌^◌, ◌≤◌, ◌<◌, ◌≡◌, sym, ap, ◌∙◌, List, [], none, arith, min, leb, length,
  take, drop, slice, length-take, length-drop, drop_all, take_all, take-min, inl, inr, Bool-cases,
  le_of_leb, lt_of_leb,
}
use s_zip.Outcome.{Result, ok}
use s_zip.Cloud.Task.{Poll, ready}
use s_zip.Cloud.S3.Reader.{S3ZipReader, Response, gives, poll_future, poll_read, sub_u64}

-- A request for a range gives the bytes from its first place to its last.
abbrev pub whole : List ℕ → ℕ → ℕ → Response
whole object start end = gives (slice object start (suc end - start))

module _ (object : List ℕ) (room : ℕ) (r : S3ZipReader) where
  abbrev next : List ℕ
  next = slice object r.position room

  -- What a poll that took a range answers.
  abbrev answer : ℕ → List ℕ → Poll (Result (List ℕ)) × S3ZipReader
  answer position bytes =
      (ready (ok bytes), record { position = position; size = r.size; read_future = none })

  at_end :
      length object ≤ r.position → answer r.position [] ≡ answer (r.position + length next) next
  at_end h =
      let nothing : next ≡ [] =
        ap (take room) (drop_all r.position object h) ∙ take_all room [] (omega arith) in
      let still : r.position ≡ r.position + length next = omega (arith, ap length nothing) in
      ap (λ (n : ℕ). answer n []) still ∙ ap (answer (r.position + length next)) (sym nothing)

  taken :
      (k : ℕ)
      → k ≡ min room (length object - r.position)
      → r.position + length next < 2 ^ 64
      → let got = slice object r.position k in
        answer ((r.position + min (length got) room) % 2 ^ 64) (take (min (length got) room) got)
        ≡ answer (r.position + length next) next
  taken k h small =
      let same : slice object r.position k ≡ next =
        ap (λ (n : ℕ). take n (drop r.position object))
          (omega (arith, h, length-drop r.position object))
        ∙ take-min room (drop r.position object) in
      let all : min (length next) room ≡ length next =
        omega (arith, length-take room (drop r.position object)) in
      let moved : (r.position + length next) % 2 ^ 64 ≡ r.position + length next = omega arith in
      ap
        (λ (got : List ℕ).
          answer ((r.position + min (length got) room) % 2 ^ 64) (take (min (length got) room) got))
        same
      ∙ ap (λ (n : ℕ). answer ((r.position + n) % 2 ^ 64) (take n next)) all
      ∙ ap (answer ((r.position + length next) % 2 ^ 64))
          (take_all (length next) next (omega arith))
      ∙ ap (λ (n : ℕ). answer n next) moved

-- Without a request under way, a read gives the next bytes of the object, as many as there is room
-- for, and moves behind them; at the end it gives none.
pub poll_read-slice :
    (object : List ℕ) (room : ℕ) (r : S3ZipReader)
    → r.read_future ≡ none
    → r.size ≡ length object
    → length object < 2 ^ 63
    → r.position < 2 ^ 63
    → 0 < room
    → room < 2 ^ 63
    → poll_read (whole object) room r ≡ (
      ready (ok (slice object r.position room)),
      record r { position = r.position + length (slice object r.position room) },
    )
unfolding poll_read poll_future
poll_read-slice object room r idle size small near some_room room_small =
    elim (Bool-cases (leb r.size r.position)) [
      | inl e ↦
          rw (idle, e) (at_end object room r (omega (arith, size, le_of_leb r.size r.position e)))
      | inr e ↦
          let inside : r.position < length object =
            omega (arith, size, lt_of_leb r.size r.position e) in
          rw (idle, e)
            (taken object room r
              (suc (min (sub_u64 ((r.position + room) % 2 ^ 64) 1) (sub_u64 r.size 1)) - r.position)
              (omega arith)
              (omega
                (arith, length-take room (drop r.position object), length-drop r.position object)))
    ]
