-- ===== src/Equipment.antt =====
-- equipment/manager.py. What croniter and APScheduler accept as a schedule, what a script does, what
-- yaml.safe_load brings of a file and what yaml.dump leaves in it are arguments; `Any` has the
-- values of the parameters. The scheduler is the schedule of each job. The times of a registration
-- and of a run are left out.
pub mod Jobs
mod Tests
use nexus_ai_team.Prelude.{
  ℕ, suc, ◌+◌, String, Bool, true, false, not, ◌&&◌, Option, none, some, List, [], ◌∷◌, get_or,
  if◌then◌else◌,
}
use nexus_ai_team.Prelude.Text.{◌⁀◌, nonempty}
use nexus_ai_team.Prelude.Dict.{Dict, lookup, assign, delete, values}

pub record Equipment (Any : Type 0) : Type 0 where
  pub name : String
  pub script_path : String
  pub description : String
  pub schedule : Option String
  pub enabled : Bool
  pub params : Dict Any
  pub run_count : ℕ
  pub last_status : Option String

-- The registry, the jobs of the scheduler, and the file of the registry if there is one.
pub record Manager (File Any : Type 0) : Type 0 where
  pub registry : Dict (Equipment Any)
  pub jobs : Dict String
  pub file : Option File

-- A run of a script: it is not there, has no main, returns, or raises.
pub data ScriptRun : Type 0 where
  absent no_main : ScriptRun
  returned raised : String → ScriptRun

pub data RunResult : Type 0 where
  success : (output : String) → RunResult
  skipped error : (message : String) → RunResult

-- What yaml.safe_load brings: it raises, or what it brings has no length; a value that counts as
-- false; a dict of entries with all their keys; or another value.
pub data Loaded (Any : Type 0) : Type 0 where
  unreadable falsy : Loaded Any
  entries : Dict (Equipment Any) → Loaded Any
  other : Loaded Any

-- `write` is what the file has after _save_registry, whether or not yaml.dump raised.
pub record World (File Any : Type 0) : Type 0 where
  pub valid_cron : String → Bool
  pub run_script : (script_path : String) → (params : Dict Any) → ScriptRun
  pub safe_load : File → Loaded Any
  pub write : Dict (Equipment Any) → (old : Option File) → Option File

abbrev pub is_some {ℓ} : {V : Type ℓ} → Option V → Bool
is_some none = false
is_some (some v) = true

unfoldable pub has_key {ℓ} : {V : Type ℓ} → String → Dict V → Bool
unfolding lookup
has_key k d = is_some (lookup k d)

-- What _load_registry stores, and none for a value that is no dict of entries: on such a registry
-- the other methods raise, or read entries that lack a key.
registry_of : {Any : Type 0} → Loaded Any → Option (Dict (Equipment Any))
registry_of unreadable = some []
registry_of falsy = some []
registry_of (entries registry) = some registry
registry_of other = none

merge : {Any : Type 0} → (defaults given : Dict Any) → Dict Any
unfolding assign
merge defaults [] = defaults
merge defaults ((key, value) ∷ given) = merge (assign key value defaults) given

module _ {File Any : Type 0} where
  load_registry : World File Any → Option File → Option (Dict (Equipment Any))
  unfolding registry_of
  load_registry w none = some []
  load_registry w (some content) = registry_of (w.safe_load content)

  -- __init__ with what was loaded: no job is added.
  initialised : Option File → Option (Dict (Equipment Any)) → Option (Manager File Any)
  initialised file none = none
  initialised file (some registry) = some (record { registry = registry; jobs = []; file = file })

  unfoldable pub new_manager : World File Any → (file : Option File) → Option (Manager File Any)
  unfolding load_registry initialised
  new_manager w file = initialised file (load_registry w file)

  unfoldable pub save_registry : World File Any → Manager File Any → Manager File Any
  save_registry w m = record m { file = w.write m.registry m.file }

  -- A schedule that is not valid only shows in the log.
  unfoldable pub add_job :
      World File Any → (name cron_expr : String) → Manager File Any → Manager File Any
  unfolding assign
  add_job w name cron_expr m =
      if w.valid_cron cron_expr then record m { jobs = assign name cron_expr m.jobs } else m

  unfoldable pub put :
      World File Any → (name : String) → Equipment Any → Manager File Any → Manager File Any
  unfolding assign save_registry
  put w name e m = save_registry w (record m { registry = assign name e m.registry })

  unfoldable pub remove_job : String → Manager File Any → Manager File Any
  unfolding delete
  remove_job name m = record m { jobs = delete name m.jobs }

  unfoldable pub register_equipment :
      World File Any
      → (name script_path description : String) → (schedule : Option String) → (enabled : Bool)
      → (params : Dict Any) → Manager File Any
      → Manager File Any
  unfolding put add_job
  register_equipment w name script_path description schedule enabled params m =
      let entry : Equipment Any = record {
        name = name;
        script_path = script_path;
        description = description;
        schedule = schedule;
        enabled = enabled;
        params = params;
        run_count = 0;
        last_status = none;
      } in
      if nonempty (get_or schedule "") && enabled
      then add_job w name (get_or schedule "") (put w name entry m)
      else put w name entry m

  unfoldable pub unregister_equipment :
      World File Any → String → Manager File Any → Bool × Manager File Any
  unfolding has_key delete remove_job save_registry
  unregister_equipment w name m = if not (has_key name m.registry) then (false, m) else (
    true,
    save_registry w (remove_job name (record m { registry = delete name m.registry })),
  )

  finish_run :
      World File Any
      → (name : String) → Equipment Any
      → ScriptRun
      → Manager File Any
      → RunResult × Manager File Any
  unfolding put
  finish_run w name e absent m = (error ("Script not found: " ⁀ e.script_path), m)
  finish_run w name e no_main m = (error "Script must have a main() function", m)
  finish_run w name e (returned output) m = (
    success output,
    put w name (record e { run_count = e.run_count + 1; last_status = some "success" }) m,
  )
  finish_run w name e (raised x) m =
      (error x, put w name (record e { last_status = some "error" }) m)

  run_found :
      World File Any
      → (name : String) → Option (Equipment Any)
      → (params : Dict Any) → Manager File Any
      → RunResult × Manager File Any
  unfolding merge finish_run
  run_found w name none params m = (error ("Equipment not found: " ⁀ name), m)
  run_found w name (some e) params m =
      if not e.enabled
      then (skipped "Equipment is disabled", m)
      else finish_run w name e (w.run_script e.script_path (merge e.params params)) m

  unfoldable pub run_equipment :
      World File Any
      → (name : String) → (params : Dict Any) → Manager File Any
      → RunResult × Manager File Any
  unfolding lookup run_found
  run_equipment w name params m = run_found w name (lookup name m.registry) params m

  schedule_found :
      World File Any
      → (name cron_expr : String) → Option (Equipment Any)
      → Manager File Any
      → Bool × Manager File Any
  unfolding put add_job
  schedule_found w name cron_expr none m = (false, m)
  schedule_found w name cron_expr (some e) m = (
    true,
    add_job w name cron_expr
        (put w name (record e { schedule = some cron_expr; enabled = true }) m),
  )

  unfoldable pub schedule_equipment :
      World File Any → (name cron_expr : String) → Manager File Any → Bool × Manager File Any
  unfolding lookup schedule_found
  schedule_equipment w name cron_expr m = schedule_found w name cron_expr (lookup name m.registry) m

  enable_found :
      World File Any
      → (name : String) → Option (Equipment Any)
      → Manager File Any
      → Bool × Manager File Any
  unfolding put add_job
  enable_found w name none m = (false, m)
  enable_found w name (some e) m =
      let saved = put w name (record e { enabled = true }) m in
      (
        true,
        if nonempty (get_or e.schedule "")
            then add_job w name (get_or e.schedule "") saved
            else saved,
      )

  unfoldable pub enable_equipment :
      World File Any → String → Manager File Any → Bool × Manager File Any
  unfolding lookup enable_found
  enable_equipment w name m = enable_found w name (lookup name m.registry) m

  disable_found :
      World File Any → String → Option (Equipment Any) → Manager File Any → Bool × Manager File Any
  unfolding put remove_job
  disable_found w name none m = (false, m)
  disable_found w name (some e) m =
      (true, remove_job name (put w name (record e { enabled = false }) m))

  unfoldable pub disable_equipment :
      World File Any → String → Manager File Any → Bool × Manager File Any
  unfolding lookup disable_found
  disable_equipment w name m = disable_found w name (lookup name m.registry) m
