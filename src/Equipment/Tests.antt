-- ===== src/Equipment/Tests.antt =====
-- A backup that is registered, run, disabled and enabled again, with a file that keeps what was
-- written last.
use nexus_ai_team.Prelude.{ℕ, ◌≡◌, refl, true, none, some, List, [], ◌∷◌}
use nexus_ai_team.Prelude.Dict.{Dict}
use nexus_ai_team.Equipment.{Equipment, Manager, returned, entries, World, has_key, new_manager}
use nexus_ai_team.Equipment.Jobs.{
  Operation, registers, enables, disables, runs, after_operations, apply, IsStored, jobs_registered,
}

abbrev world : World (Dict (Equipment ℕ)) ℕ
world = record {
  valid_cron = λ c. true;
  run_script = λ path params. returned "done";
  safe_load = entries;
  write = λ registry old. some registry;
}

abbrev empty : Manager (Dict (Equipment ℕ)) ℕ
empty = record { registry = []; jobs = []; file = none }

abbrev backup_operations : List (Operation ℕ)
backup_operations =
    registers "backup" "backup.py" "Backs up" (some "0 0 * * *") true (("days", 7) ∷ [])
    ∷ runs "backup" []
    ∷ disables "backup"
    ∷ enables "backup"
    ∷ []

backed_up : (after_operations world backup_operations empty).jobs ≡ ("backup", "0 0 * * *") ∷ []
unfolding after_operations apply
backed_up = refl

backup_job : has_key "backup" (after_operations world backup_operations empty).jobs ≡ true
unfolding has_key after_operations apply
backup_job = refl

jobs_registered_example :
    (has_key "backup" (after_operations world backup_operations empty).registry ≡ true)
    × IsStored world empty (after_operations world backup_operations empty)
unfolding new_manager
jobs_registered_example =
    jobs_registered world none empty backup_operations "backup" refl backup_job
