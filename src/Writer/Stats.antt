-- ===== src/Writer/Stats.antt =====
-- `finish_with_stats` of src/writer.rs against `finish`.
use s_zip.Common.{◌≡◌, refl, sym, ap, ◌∙◌, none, some, Option}
use s_zip.Outcome.{Result, ok, err, panic}
use s_zip.External.{External}
use s_zip.Options.{ZipStats}
use s_zip.Sink.{Exec, Sink, pure, continue, ◌>>=◌}
use s_zip.Sink.Chunks.{bind_ok}
use s_zip.Writer.{
  StreamingZipWriter, CurrentEntry, on_output, push_entry, seal_entry, close_entry, take_current,
  finish_current_entry, write_directory, finish_all, finish, finish_with_stats,
}
use s_zip.Writer.Finish.{finish_current_entry-none}

abbrev pub sink_of : Result (Sink × ZipStats) → Result Sink
sink_of (ok (sink, stats)) = ok sink
sink_of (err e) = err e
sink_of panic = panic

module _ (ext : External) where
  -- An action that opens no entry.
  abbrev OpensNone : {A : Type 0} → Exec (StreamingZipWriter ext) A → Type 0
  OpensNone m = (w : StreamingZipWriter ext) → w.current_entry ≡ none → (m w).1.current_entry ≡ none

  continue-OpensNone :
      {A B : Type 0} (r : Result A) (f : A → Exec (StreamingZipWriter ext) B)
      (w : StreamingZipWriter ext)
      → ((a : A) → OpensNone (f a))
      → w.current_entry ≡ none
      → (continue r f w).1.current_entry ≡ none
  continue-OpensNone (ok a) f w fs e = fs a w e
  continue-OpensNone (err x) f w fs e = e
  continue-OpensNone panic f w fs e = e

  bind-OpensNone :
      {A B : Type 0} (m : Exec (StreamingZipWriter ext) A) (f : A → Exec (StreamingZipWriter ext) B)
      → OpensNone m
      → ((a : A) → OpensNone (f a))
      → OpensNone (m >>= f)
  unfolding ◌>>=◌
  bind-OpensNone m f ms fs w e = continue-OpensNone (m w).0 f (m w).1 fs (ms w e)

  on_output-OpensNone : {A : Type 0} (m : Exec Sink A) → OpensNone (on_output ext m)
  unfolding on_output
  on_output-OpensNone m w e = e

  seal_entry-OpensNone :
      (entry : _) (counter : _) (encryptor : _) → OpensNone (seal_entry ext entry counter encryptor)
  unfolding seal_entry push_entry
  seal_entry-OpensNone entry counter encryptor =
      bind-OpensNone _ _ (on_output-OpensNone _)
        (λ _. bind-OpensNone _ _ (on_output-OpensNone _) (λ _ w e. e))

  close_entry-OpensNone : (entry : _) → OpensNone (close_entry ext entry)
  unfolding close_entry
  close_entry-OpensNone entry =
      bind-OpensNone _ _ (on_output-OpensNone _) (λ _. seal_entry-OpensNone entry _ _)

  abbrev close_if : Option (CurrentEntry ext) → Exec (StreamingZipWriter ext) (Unit {0})
  close_if current = elim current [ none ↦ pure tt | some entry ↦ close_entry ext entry ]

  close_if-OpensNone : (current : Option (CurrentEntry ext)) → OpensNone (close_if current)
  unfolding pure
  close_if-OpensNone none w e = e
  close_if-OpensNone (some entry) w e = close_entry-OpensNone entry w e

  -- Whatever the closing meets, no entry is open after it.
  finish_current_entry-closed :
      (w : StreamingZipWriter ext) → (finish_current_entry ext w).1.current_entry ≡ none
  unfolding finish_current_entry take_current ◌>>=◌
  finish_current_entry-closed w =
      close_if-OpensNone w.current_entry (record w { current_entry = none }) refl

  -- Once the entry is closed, `finish` only writes the directory.
  finish_all-closed :
      (w : StreamingZipWriter ext)
      → w.current_entry ≡ none
      → finish_all ext w ≡ write_directory ext w
  unfolding finish_all
  finish_all-closed w e =
      bind_ok _ _ (finish_current_entry-none ext w e)
      ∙ ap (λ o. write_directory ext (record w { current_entry = o })) (sym e)

  abbrev give : Result (Unit {0}) × StreamingZipWriter ext → Result Sink
  give (r, w) = elim r [ ok u ↦ ok w.output | err e ↦ err e | panic ↦ panic ]

  finish_closed :
      (w : StreamingZipWriter ext)
      → w.current_entry ≡ none
      → finish ext w ≡ give (write_directory ext w)
  unfolding finish
  finish_closed w e = ap give (finish_all-closed w e)

  abbrev with_stats : ZipStats → Result Sink → Result (Sink × ZipStats)
  with_stats stats r = elim r [ ok sink ↦ ok (sink, stats) | err e ↦ err e | panic ↦ panic ]

  sink_of-with_stats : (stats : ZipStats) (r : Result Sink) → sink_of (with_stats stats r) ≡ r
  sink_of-with_stats stats (ok sink) = refl
  sink_of-with_stats stats (err e) = refl
  sink_of-with_stats stats panic = refl

  -- The rest of either method, the closing having ended with `closed`.
  after_closing :
      (stats : ZipStats) (closed : Result (Unit {0})) (w : StreamingZipWriter ext)
      → w.current_entry ≡ none
      → sink_of
          (elim closed [ ok u ↦ with_stats stats (finish ext w) | err e ↦ err e | panic ↦ panic ])
        ≡ give (continue closed (λ _. write_directory ext) w)
  after_closing stats (ok u) w e = sink_of-with_stats stats (finish ext w) ∙ finish_closed w e
  after_closing stats (err x) w e = refl
  after_closing stats panic w e = refl

-- `finish_with_stats` gives the sink that `finish` gives, or fails as it fails.
pub finish_with_stats-finish :
    (ext : External) (w : StreamingZipWriter ext) → sink_of (finish_with_stats ext w) ≡ finish ext w
unfolding finish_with_stats finish finish_all ◌>>=◌
finish_with_stats-finish ext w =
    let (closed, w1) = finish_current_entry ext w in
    after_closing ext _ closed w1 (finish_current_entry-closed ext w)
