-- ===== src/Equipment/Jobs.antt =====
-- The jobs of the scheduler and the registry.
use nexus_ai_team.Prelude.{
  ◌≡◌, refl, sym, ap, ◌∙◌, subst, String, Bool, true, false, not, ◌==◌, ◌&&◌, ◌||◌, Option, none,
  some, List, [], ◌∷◌, inl, inr, Bool-cases, ◌⊎◌, if-elim, arith, eq_iff, if◌then◌else◌,
}
use nexus_ai_team.Prelude.Dict.{Dict, lookup, assign, delete, lookup-assign, lookup-delete}
use nexus_ai_team.Equipment.{
  Equipment, Manager, ScriptRun, absent, no_main, returned, raised, RunResult, World, is_some,
  has_key, new_manager, initialised, load_registry, save_registry, add_job, put, remove_job,
  register_equipment, unregister_equipment, finish_run, run_found, run_equipment, schedule_found,
  schedule_equipment, enable_found, enable_equipment, disable_found, disable_equipment,
}

some_if {ℓ} :
    {V : Type ℓ} (b : Bool) (v : V) (o : Option V)
    → is_some (if b then some v else o) ≡ (b || is_some o)
some_if true v o = refl
some_if false v o = refl

none_if {ℓ} :
    {V : Type ℓ} (b : Bool) (o : Option V) → is_some (if b then none else o) ≡ (not b && is_some o)
none_if true o = refl
none_if false o = refl

has_key-assign {ℓ} :
    {V : Type ℓ} (k j : String) (v : V) (d : Dict V)
    → has_key j (assign k v d) ≡ (k == j || has_key j d)
unfolding has_key
has_key-assign k j v d = ap is_some (lookup-assign k j v d) ∙ some_if (k == j) v (lookup j d)

has_key-delete {ℓ} :
    {V : Type ℓ} (k j : String) (d : Dict V)
    → has_key j (delete k d) ≡ (not (k == j) && has_key j d)
unfolding has_key
has_key-delete k j d = ap is_some (lookup-delete k j d) ∙ none_if (k == j) (lookup j d)

-- An operation on the equipment.
pub data Operation (Any : Type 0) : Type 0 where
  registers :
      (name script_path description : String)
      → (schedule : Option String) → (enabled : Bool) → Dict Any
      → Operation Any
  unregisters enables disables : (name : String) → Operation Any
  runs : (name : String) → Dict Any → Operation Any
  schedules : (name cron_expr : String) → Operation Any

kept-key :
    (name other : String) (jobs : Dict String)
    → has_key other (delete name jobs) ≡ true
    → (name == other ≡ false) × (has_key other jobs ≡ true)
kept-key name other jobs there =
    let e = has_key-delete name other jobs in (ground (arith, there, e), ground (arith, there, e))

module _ {File Any : Type 0} where
  unfoldable pub apply : World File Any → Operation Any → Manager File Any → Manager File Any
  unfolding register_equipment unregister_equipment enable_equipment disable_equipment run_equipment
      schedule_equipment
  apply w (registers name script_path description schedule enabled params) m =
      register_equipment w name script_path description schedule enabled params m
  apply w (unregisters name) m = (unregister_equipment w name m).1
  apply w (enables name) m = (enable_equipment w name m).1
  apply w (disables name) m = (disable_equipment w name m).1
  apply w (runs name params) m = (run_equipment w name params m).1
  apply w (schedules name cron_expr) m = (schedule_equipment w name cron_expr m).1

  unfoldable pub after_operations :
      World File Any → List (Operation Any) → Manager File Any → Manager File Any
  unfolding apply
  after_operations w [] m = m
  after_operations w (o ∷ os) m = after_operations w os (apply w o m)

  -- The registry and the file are those of the start, or the registry was written to the file.
  abbrev pub IsStored : World File Any → (start m : Manager File Any) → Type 0
  IsStored w start m =
      ((m.registry ≡ start.registry) × (m.file ≡ start.file))
      ⊎ ((old : Option File) × (m.file ≡ w.write m.registry old))

  module _ (w : World File Any) (start : Manager File Any) where
    -- Each job is the job of a registered equipment, and the registry and the file are those of
    -- the start, or the registry was written to the file.
    record IsBacked (m : Manager File Any) : Type 0 where
      backed : (name : String) → has_key name m.jobs ≡ true → has_key name m.registry ≡ true
      stored : IsStored w start m

    put-IsBacked :
        (name : String) (e : Equipment Any) (m : Manager File Any)
        → IsBacked m
        → IsBacked (put w name e m)
    unfolding put save_registry
    put-IsBacked name e m h = record {
      backed = λ other there.
          rw (has_key-assign name other e m.registry) (ground (arith, h.backed other there));
      stored = inr (_, refl);
    }

    remove-IsBacked :
        (name : String) (m : Manager File Any) → IsBacked m → IsBacked (remove_job name m)
    unfolding remove_job
    remove-IsBacked name m h = record {
      backed = λ other there. h.backed other (kept-key name other m.jobs there).1;
      stored = h.stored;
    }

    forget-IsBacked :
        (name : String) (m : Manager File Any)
        → IsBacked m
        → IsBacked
            (save_registry w (remove_job name (record m { registry = delete name m.registry })))
    unfolding remove_job save_registry
    forget-IsBacked name m h = record {
      backed = λ other there.
          let k = kept-key name other m.jobs there in
          rw (has_key-delete name other m.registry) (ground (arith, k.0, h.backed other k.1));
      stored = inr (_, refl);
    }

    put_key :
        (name : String) (e : Equipment Any) (m : Manager File Any)
        → has_key name (put w name e m).registry ≡ true
    unfolding put save_registry
    put_key name e m = rw (has_key-assign name name e m.registry) (ground (arith, eq_iff name name))

    backed_key :
        (name other : String) (m : Manager File Any) (jobs : Dict String)
        → has_key other jobs ≡ (name == other || has_key other m.jobs)
        → has_key name m.registry ≡ true
        → (has_key other m.jobs ≡ true → has_key other m.registry ≡ true)
        → has_key other jobs ≡ true
        → has_key other m.registry ≡ true
    backed_key name other m jobs e there old job = elim (Bool-cases (name == other)) [
      | inl y ↦ subst (λ n. has_key n m.registry ≡ true) ((eq_iff name other).0 y) there
      | inr n ↦ old (ground (arith, e, job, n))
    ]

    added-IsBacked :
        (name cron_expr : String) (m : Manager File Any)
        → has_key name m.registry ≡ true
        → IsBacked m
        → IsBacked (record m { jobs = assign name cron_expr m.jobs })
    added-IsBacked name cron_expr m there h = record {
      backed = λ other job.
          backed_key name other m (assign name cron_expr m.jobs)
            (has_key-assign name other cron_expr m.jobs) there (h.backed other) job;
      stored = h.stored;
    }

    add-IsBacked :
        (name cron_expr : String) (m : Manager File Any)
        → has_key name m.registry ≡ true
        → IsBacked m
        → IsBacked (add_job w name cron_expr m)
    unfolding add_job
    add-IsBacked name cron_expr m there h =
        if-elim IsBacked (w.valid_cron cron_expr) (record m { jobs = assign name cron_expr m.jobs })
          m (λ _. added-IsBacked name cron_expr m there h) (λ _. h)

    scheduled-IsBacked :
        (name cron_expr : String) (e : Equipment Any) (m : Manager File Any)
        → IsBacked m
        → IsBacked (add_job w name cron_expr (put w name e m))
    scheduled-IsBacked name cron_expr e m h =
        add-IsBacked name cron_expr (put w name e m) (put_key name e m) (put-IsBacked name e m h)

    IsBacked-if :
        (b : Bool) (m n : Manager File Any)
        → IsBacked m
        → IsBacked n
        → IsBacked (if b then m else n)
    IsBacked-if true m n hm hn = hm
    IsBacked-if false m n hm hn = hn

    finish-IsBacked :
        (name : String) (e : Equipment Any) (r : ScriptRun) (m : Manager File Any)
        → IsBacked m
        → IsBacked (finish_run w name e r m).1
    unfolding finish_run
    finish-IsBacked name e absent m h = h
    finish-IsBacked name e no_main m h = h
    finish-IsBacked name e (returned output) m h = put-IsBacked name _ m h
    finish-IsBacked name e (raised x) m h = put-IsBacked name _ m h

    run-IsBacked :
        (name : String) (o : Option (Equipment Any)) (params : Dict Any) (m : Manager File Any)
        → IsBacked m
        → IsBacked (run_found w name o params m).1
    unfolding run_found
    run-IsBacked name none params m h = h
    run-IsBacked name (some e) params m h =
        if-elim (λ (r : RunResult × Manager File Any). IsBacked r.1) (not e.enabled) _ _ (λ _. h)
          (λ _. finish-IsBacked name e _ m h)

    schedule-IsBacked :
        (name cron_expr : String) (o : Option (Equipment Any)) (m : Manager File Any)
        → IsBacked m
        → IsBacked (schedule_found w name cron_expr o m).1
    unfolding schedule_found
    schedule-IsBacked name cron_expr none m h = h
    schedule-IsBacked name cron_expr (some e) m h = scheduled-IsBacked name cron_expr _ m h

    enable-IsBacked :
        (name : String) (o : Option (Equipment Any)) (m : Manager File Any)
        → IsBacked m
        → IsBacked (enable_found w name o m).1
    unfolding enable_found
    enable-IsBacked name none m h = h
    enable-IsBacked name (some e) m h = search (IsBacked-if, scheduled-IsBacked, put-IsBacked)

    disable-IsBacked :
        (name : String) (o : Option (Equipment Any)) (m : Manager File Any)
        → IsBacked m
        → IsBacked (disable_found w name o m).1
    unfolding disable_found
    disable-IsBacked name none m h = h
    disable-IsBacked name (some e) m h = search (remove-IsBacked, put-IsBacked)

    apply-IsBacked :
        (o : Operation Any) (m : Manager File Any) → IsBacked m → IsBacked (apply w o m)
    unfolding apply register_equipment unregister_equipment run_equipment schedule_equipment
        enable_equipment disable_equipment
    apply-IsBacked (registers name script_path description schedule enabled params) m h =
        search (IsBacked-if, scheduled-IsBacked, put-IsBacked)
    apply-IsBacked (unregisters name) m h =
        if-elim (λ (r : Bool × Manager File Any). IsBacked r.1) (not (has_key name m.registry)) _ _
          (λ _. h) (λ _. forget-IsBacked name m h)
    apply-IsBacked (enables name) m h = enable-IsBacked name _ m h
    apply-IsBacked (disables name) m h = disable-IsBacked name _ m h
    apply-IsBacked (runs name params) m h = run-IsBacked name _ params m h
    apply-IsBacked (schedules name cron_expr) m h = schedule-IsBacked name cron_expr _ m h

    operations-IsBacked :
        (os : List (Operation Any)) (m : Manager File Any)
        → IsBacked m
        → IsBacked (after_operations w os m)
    unfolding after_operations
    operations-IsBacked [] m h = h
    operations-IsBacked (o ∷ os) m h = operations-IsBacked os _ (apply-IsBacked o m h)

  jobs_in : Option (Manager File Any) → Dict String
  jobs_in none = []
  jobs_in (some m) = m.jobs

  initialised-jobs :
      (file : Option File) (o : Option (Dict (Equipment Any))) → jobs_in (initialised file o) ≡ []
  unfolding jobs_in initialised
  initialised-jobs file none = refl
  initialised-jobs file (some registry) = refl

  no_jobs :
      (w : World File Any) (file : Option File) (m : Manager File Any)
      → new_manager w file ≡ some m
      → m.jobs ≡ []
  unfolding new_manager jobs_in
  no_jobs w file m h = ap jobs_in (sym h) ∙ initialised-jobs file (load_registry w file)

  start-IsBacked : (w : World File Any) (m : Manager File Any) → m.jobs ≡ [] → IsBacked w m m
  unfolding has_key lookup
  start-IsBacked w m h = record {
    backed = λ name there. absurd (ground (arith, rw h at there));
    stored = inl (refl, refl);
  }

  -- After a start on a file that is missing, cannot be read, is empty or has a dict of entries, and
  -- after any operations: when the scheduler has a job for a name, an equipment of that name is
  -- registered; and the registry and the file are those of the start, or the registry was written to
  -- the file.
  pub jobs_registered :
      (w : World File Any) (file : Option File) (start : Manager File Any)
      (os : List (Operation Any)) (name : String)
      → new_manager w file ≡ some start
      → has_key name (after_operations w os start).jobs ≡ true
      → (has_key name (after_operations w os start).registry ≡ true)
        × IsStored w start (after_operations w os start)
  jobs_registered w file start os name new job =
      let h =
        operations-IsBacked w start os start (start-IsBacked w start (no_jobs w file start new)) in
      (h.backed name job, h.stored)
