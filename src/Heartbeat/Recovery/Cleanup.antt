-- ===== src/Heartbeat/Recovery/Cleanup.antt =====
-- The deletions of heartbeat/recovery.py: old logs, old reports and the caches of Python.
use nexus_ai_team.Prelude.{
  ℕ, suc, ◌+◌, ◌-◌, ◌*◌, ◌/◌, ltb, Bool, true, false, ◌&&◌, ◌==◌, Option, none, some, List, [], ◌∷◌,
}
use nexus_ai_team.Prelude.Text.{drop_text, len_text}
use nexus_ai_team.Effects.{os_error, Result, ok, err, Exec, pure, ◌>>=◌}
use nexus_ai_team.Heartbeat.Alerts.{StoredFile, Disk, Pulse, Beat}

-- The files that are left, the bytes freed unless a deletion failed, and the deletions tried.
pub record Swept : Type 0 where
  pub left : List StoredFile
  pub freed : Result ℕ
  pub calls : ℕ

abbrev pub add_freed : ℕ → Result ℕ → Result ℕ
add_freed n (ok k) = ok (n + k)
add_freed n (err e) = err e

abbrev pub prepend : StoredFile → Swept → Swept
prepend f s = record s { left = f ∷ s.left }

abbrev pub free : ℕ → Swept → Swept
free n s = record s { freed = add_freed n s.freed }

-- path.endswith(".log")
unfoldable pub is_log : StoredFile → Bool
unfolding drop_text len_text
is_log f = drop_text (len_text f.path - 4) f.path == ".log"

-- The time of a file is read on the wall clock, and the cutoff is in UTC.
unfoldable pub sweep :
    Beat → (chosen : StoredFile → Bool) → (cutoff : ℕ) → List StoredFile → (calls : ℕ) → Swept
sweep beat chosen cutoff [] calls = record { left = []; freed = ok 0; calls = calls }
sweep beat chosen cutoff (f ∷ fs) calls =
    elim (chosen f && ltb (beat.local_clock f.modified) cutoff) [
      | false ↦ prepend f (sweep beat chosen cutoff fs calls)
      | true ↦ elim (beat.unlinks calls) [
        | true ↦ free f.size (sweep beat chosen cutoff fs (suc calls))
        | false ↦ record {
          left = f ∷ fs;
          freed = err (os_error "the file stays");
          calls = suc calls;
        }
      ]
    ]

-- The whole megabytes.
abbrev pub megabytes : Result ℕ → Result ℕ
megabytes (ok bytes) = ok (bytes / 1048576)
megabytes (err e) = err e

-- The microseconds of some days.
abbrev pub days : ℕ → ℕ
days n = n * 86400000000

unfoldable pub clean_directory :
    Beat
    → (chosen : StoredFile → Bool) → (age : ℕ) → (put : Option (List StoredFile) → Disk → Disk)
    → Option (List StoredFile)
    → Exec Pulse ℕ
unfolding sweep
clean_directory beat chosen age put none p = (ok 0, p)
clean_directory beat chosen age put (some files) p =
    let s = sweep beat chosen (beat.clock p.clock_reads - days age) files p.unlink_calls in
    (
      megabytes s.freed,
      record p {
        clock_reads = suc p.clock_reads;
        unlink_calls = s.calls;
        disk = put (some s.left) p.disk;
      },
    )

abbrev pub put_logs : Option (List StoredFile) → Disk → Disk
put_logs files d = record d { logs = files }

abbrev pub put_reports : Option (List StoredFile) → Disk → Disk
put_reports files d = record d { reports = files }

abbrev pub any_file : StoredFile → Bool
any_file f = true

unfoldable pub cleanup_old_logs : Beat → Exec Pulse ℕ
unfolding clean_directory is_log
cleanup_old_logs beat p = clean_directory beat is_log 7 put_logs p.disk.logs p

unfoldable pub cleanup_old_files : Beat → Exec Pulse ℕ
unfolding clean_directory
cleanup_old_files beat p = clean_directory beat any_file 30 put_reports p.disk.reports p

unfoldable pub remove_trees : Beat → (sizes : List ℕ) → (freed_bytes : ℕ) → Exec Pulse ℕ
remove_trees beat [] freed_bytes p =
    (ok (freed_bytes / 1048576), record p { disk = record p.disk { pycaches = [] } })
remove_trees beat (size ∷ sizes) freed_bytes p = elim (beat.unlinks p.unlink_calls) [
  | true ↦
      remove_trees beat sizes (freed_bytes + size) (record p { unlink_calls = suc p.unlink_calls })
  | false ↦ (
    err (os_error "the directory stays"),
    record p {
      unlink_calls = suc p.unlink_calls;
      disk = record p.disk { pycaches = size ∷ sizes };
    },
  )
]

unfoldable pub cleanup_pycache : Beat → Exec Pulse ℕ
unfolding remove_trees
cleanup_pycache beat p = remove_trees beat p.disk.pycaches 0 p

-- The three of them, and the megabytes that they freed together.
unfoldable pub cleanup : Beat → Exec Pulse ℕ
unfolding cleanup_old_logs cleanup_old_files cleanup_pycache ◌>>=◌
cleanup beat = do
  logs ← cleanup_old_logs beat
  reports ← cleanup_old_files beat
  caches ← cleanup_pycache beat
  pure (logs + reports + caches)
