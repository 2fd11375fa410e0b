-- ===== src/Heartbeat/Recovery/Frame.antt =====
-- What the deletions leave as it was, and what an alert leaves.
use nexus_ai_team.Prelude.{
  ◌≡◌, refl, ◌∙◌, ◌+◌, ℕ, Bool, Option, none, some, List, [], ◌∷◌, inl, inr, Bool-cases,
}
use nexus_ai_team.Effects.{Result, ok, err, Exec, pure, continue, ◌>>=◌}
use nexus_ai_team.Heartbeat.Alerts.{StoredFile, Disk, Pulse, Beat}
use nexus_ai_team.Heartbeat.Recovery.Cleanup.{
  clean_directory, cleanup_old_logs, cleanup_old_files, remove_trees, cleanup_pycache, cleanup,
  is_log, any_file, put_logs, put_reports,
}

pub record IsFrame (p q : Pulse) : Type 0 where
  pub last_alert : q.last_alert ≡ p.last_alert
  pub recovery_attempts : q.recovery_attempts ≡ p.recovery_attempts
  pub posts : q.posts ≡ p.posts
  pub restarted : q.restarted ≡ p.restarted

pub IsFrame-refl : (p : Pulse) → IsFrame p p
IsFrame-refl p = record {
  last_alert = refl;
  recovery_attempts = refl;
  posts = refl;
  restarted = refl;
}

pub IsFrame-trans : (p q r : Pulse) → IsFrame p q → IsFrame q r → IsFrame p r
IsFrame-trans p q r f g = record {
  last_alert = g.last_alert ∙ f.last_alert;
  recovery_attempts = g.recovery_attempts ∙ f.recovery_attempts;
  posts = g.posts ∙ f.posts;
  restarted = g.restarted ∙ f.restarted;
}

record Frames {A : Type 0} (m : Exec Pulse A) : Type 0 where
  at : (p : Pulse) → IsFrame p (m p).1

Frames-pure : {A : Type 0} (a : A) → Frames (pure a)
unfolding pure
Frames-pure a = record { at = IsFrame-refl }

module _ {A B : Type 0} (f : A → Exec Pulse B) (hf : (a : A) → Frames (f a)) where
  continue-IsFrame : (r : Result A × Pulse) → IsFrame r.1 (continue f r).1
  continue-IsFrame (ok a, p) = (hf a).at p
  continue-IsFrame (err e, p) = IsFrame-refl p

  Frames-bind : (m : Exec Pulse A) → Frames m → Frames (m >>= f)
  unfolding ◌>>=◌
  Frames-bind m hm = record {
    at = λ p. IsFrame-trans p (m p).1 _ (hm.at p) (continue-IsFrame (m p));
  }

module _ (beat : Beat) where
  clean-IsFrame :
      (chosen : StoredFile → Bool) (age : ℕ) (put : Option (List StoredFile) → Disk → Disk)
      (files : Option (List StoredFile)) (p : Pulse)
      → IsFrame p (clean_directory beat chosen age put files p).1
  unfolding clean_directory
  clean-IsFrame chosen age put none p = IsFrame-refl p
  clean-IsFrame chosen age put (some files) p = record {
    last_alert = refl;
    recovery_attempts = refl;
    posts = refl;
    restarted = refl;
  }

  trees-IsFrame :
      (sizes : List ℕ) (freed_bytes : ℕ) (p : Pulse)
      → IsFrame p (remove_trees beat sizes freed_bytes p).1
  unfolding remove_trees
  trees-IsFrame [] freed_bytes p = record {
    last_alert = refl;
    recovery_attempts = refl;
    posts = refl;
    restarted = refl;
  }
  trees-IsFrame (size ∷ sizes) freed_bytes p = elim (Bool-cases (beat.unlinks p.unlink_calls)) [
    | inl y ↦
        rw (remove_trees, y)
          (IsFrame-trans p _ _
            (record { last_alert = refl; recovery_attempts = refl; posts = refl; restarted = refl })
            (trees-IsFrame sizes _ _))
    | inr n ↦
        rw (remove_trees, n)
          (record { last_alert = refl; recovery_attempts = refl; posts = refl; restarted = refl })
  ]

  logs-Frames : Frames (cleanup_old_logs beat)
  unfolding cleanup_old_logs
  logs-Frames = record { at = λ p. clean-IsFrame is_log 7 put_logs p.disk.logs p }

  files-Frames : Frames (cleanup_old_files beat)
  unfolding cleanup_old_files
  files-Frames = record { at = λ p. clean-IsFrame any_file 30 put_reports p.disk.reports p }

  pycache-Frames : Frames (cleanup_pycache beat)
  unfolding cleanup_pycache
  pycache-Frames = record { at = λ p. trees-IsFrame p.disk.pycaches 0 p }

  cleanup-Frames : Frames (cleanup beat)
  unfolding cleanup
  cleanup-Frames =
      Frames-bind _
        (λ logs.
          Frames-bind _
            (λ reports.
              Frames-bind _ (λ caches. Frames-pure (logs + reports + caches)) _ pycache-Frames)
            _ files-Frames)
        _ logs-Frames

  pub cleanup-IsFrame : (p : Pulse) → IsFrame p (cleanup beat p).1
  cleanup-IsFrame = cleanup-Frames.at
