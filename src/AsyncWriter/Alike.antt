-- ===== src/AsyncWriter/Alike.antt =====
-- Runs of calls of the asynchronous writer of src/async_writer.rs and the synchronous one of
-- src/writer.rs.
use s_zip.Common.{ℕ, ◌≡◌, refl, ◌∙◌, List, [], ◌∷◌, Option, All}
use s_zip.Outcome.{Result, ok}
use s_zip.Encryption.{AesStrength}
use s_zip.Options.{default_options}
use s_zip.Compress.{CompressionMethod}
use s_zip.Writer
use s_zip.Sink.{Exec}
use s_zip.Sink.Simulates.{unit, map_result-same}
use s_zip.AsyncWriter.Compress.{AsyncExternal}
use s_zip.AsyncWriter.{
  AsyncStreamingZipWriter, set_password, set_encryption_strength, clear_password,
  start_entry_with_hint, write_data, finish_current_entry,
}
use s_zip.AsyncWriter.Sync.{SyncEncoders, SameEncoders, as_external, sync, TakesHint}
use s_zip.AsyncWriter.Simulated.{Good, Same}
use s_zip.AsyncWriter.SameClose.{finish_current_entry-Same}
use s_zip.AsyncWriter.SameStart.{start_entry-Same}
use s_zip.AsyncWriter.SameWrite.{write_data-Same}

-- A call of a method; `close` is the private one that the others call.
pub data Call : Type 0 where
  password : List ℕ → Call
  no_password : Call
  strength : AesStrength → Call
  start : (ℕ → Option (List ℕ)) → List ℕ → Option ℕ → Call
  write : List ℕ → Call
  close : Call

-- Calls in order, each made whatever came of those before: their results and the last state.
unfoldable pub run_all {ℓ} :
    {S : Type ℓ} → (Call → S → Result (Unit {0}) × S) → List Call → S → List (Result (Unit {0})) × S
run_all run [] s = ([], s)
run_all run (c ∷ cs) s = let (r, s1) = run c s in let (rs, s2) = run_all run cs s1 in (r ∷ rs, s2)

module _ (ext : AsyncExternal) (enc : SyncEncoders ext) where
  abbrev pub async_call : Call → Exec (AsyncStreamingZipWriter ext) (Unit {0})
  async_call (password p) w = (ok tt, set_password ext p w)
  async_call no_password w = (ok tt, clear_password ext w)
  async_call (strength s) w = (ok tt, set_encryption_strength ext s w)
  async_call (start rng name hint) w = start_entry_with_hint ext rng name hint w
  async_call (write bytes) w = write_data ext bytes w
  async_call close w = finish_current_entry ext w

  abbrev pub sync_call : Call → Exec (Writer.StreamingZipWriter (as_external ext enc)) (Unit {0})
  sync_call (password p) w = (ok tt, Writer.set_password (as_external ext enc) p w)
  sync_call no_password w = (ok tt, Writer.clear_password (as_external ext enc) w)
  sync_call (strength s) w = (ok tt, Writer.set_encryption_strength (as_external ext enc) s w)
  sync_call (start rng name hint) w =
      Writer.start_entry_with_options_and_hint (as_external ext enc) rng name default_options hint w
  sync_call (write bytes) w = Writer.write_data (as_external ext enc) bytes w
  sync_call close w = Writer.finish_current_entry (as_external ext enc) w

  abbrev pub Takes : CompressionMethod → Call → Type 0
  Takes m (start rng name hint) = TakesHint ext enc m hint
  Takes m (password p) = Unit {0}
  Takes m no_password = Unit {0}
  Takes m (strength s) = Unit {0}
  Takes m (write bytes) = Unit {0}
  Takes m close = Unit {0}

module _ (ext : AsyncExternal) (enc : SyncEncoders ext) (alike : SameEncoders ext enc)
    (m : CompressionMethod) where
  call-Same :
      (c : Call)
      → Takes ext enc m c
      → Same ext enc m unit (async_call ext enc c) (sync_call ext enc c)
  unfolding set_password clear_password set_encryption_strength Writer.set_password
      Writer.clear_password Writer.set_encryption_strength
  call-Same (password p) t w good = (
    refl,
    record { is_open = good.is_open; within = good.within; method = good.method; made = good.made },
  )
  call-Same no_password t w good = (
    refl,
    record { is_open = good.is_open; within = good.within; method = good.method; made = good.made },
  )
  call-Same (strength s) t w good = (
    refl,
    record { is_open = good.is_open; within = good.within; method = good.method; made = good.made },
  )
  call-Same (start rng name hint) t w good = start_entry-Same ext enc m alike rng name hint t w good
  call-Same (write bytes) t w good = write_data-Same ext enc m bytes w good
  call-Same close t w good = finish_current_entry-Same ext enc m w good

  -- From a writer whose sink is not shut down and holds no more than it has room for, the asynchronous
  -- writer answers any calls that set the password or the strength, start an entry, write or close an
  -- entry as the synchronous one does, success or failure one by one, and leaves the same bytes,
  -- entries and open entry. The synchronous writer has the level of the table `sync_level`: for deflate
  -- 1 for a level of 0, 6 for 4 and 5, and 9 for 7 and 8, where the level itself would give it other
  -- bytes. The encoders of the two packages are the same where their quality is, `zstd` takes the
  -- level, and a size hint is given for no stored entry.
  pub run_all-sync :
      (calls : List Call) (w : AsyncStreamingZipWriter ext)
      → All (Takes ext enc m) calls
      → Good ext enc m w
      → run_all (sync_call ext enc) calls (sync ext enc w) ≡ (
        (run_all (async_call ext enc) calls w).0,
        sync ext enc (run_all (async_call ext enc) calls w).1,
      )
  unfolding run_all
  run_all-sync [] w t good = refl
  run_all-sync (c ∷ cs) w (t, ts) good =
      let (same, kept) = call-Same c t w good in
      (λ i.
        let (r, s1) = same i in let (rs, s2) = run_all (sync_call ext enc) cs s1 in (r ∷ rs, s2))
      ∙ (λ i.
          let (rs, s2) = run_all-sync cs (async_call ext enc c w).1 ts kept i in
          (map_result-same (async_call ext enc c w).0 i ∷ rs, s2))
