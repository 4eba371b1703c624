-- ===== src/Processes/Linux/Fds/Quiet.antt =====
-- The scan on Linux changes nothing in a database.
use codex_storage_doctor.Prelude.{ℕ, String, refl, true, Option, none, some, List, [], ◌∷◌}
use codex_storage_doctor.Host.{Host}
use codex_storage_doctor.Effects.{Request}
use codex_storage_doctor.Effects.Rules.{
  Quiet, Quiet-call, Quiet-pure, Quiet-if, Quiet-option, Quiet-bind, quiet_rules,
}
use codex_storage_doctor.Processes.{Database}
use codex_storage_doctor.Processes.Quiet.{
  Quiet-on_os_error, Quiet-match_database, Quiet-parse_linux_write_bytes,
}
use codex_storage_doctor.Processes.Lsof.{Holder}
use codex_storage_doctor.Processes.Linux.{
  Tally, mark, pid_directories, Owner, mine, foreign, unknown, owner_of,
}
use codex_storage_doctor.Processes.Linux.Fds.{
  Files, gone, take_match, read_target, find_target, list_descriptors, read_comm, sort_descriptors,
  visit_descriptors, visit_files, executable_of, visit_process, visit_owned, visit_directory,
  visit_directories,
}

Quiet-owner_of : (uid : Option ℕ) (dir : String) → Quiet (owner_of uid dir)
unfolding owner_of
Quiet-owner_of none dir = Quiet-pure mine
Quiet-owner_of (some uid) dir =
    Quiet-on_os_error _ _
      (Quiet-bind _ _ (Quiet-call (Request.stat_uid dir) refl) (λ u. Quiet-pure _))
      (Quiet-pure unknown)

module _ (host : Host) where
  pub Quiet-pid_directories : (root : String) → Quiet (pid_directories host root)
  unfolding pid_directories
  Quiet-pid_directories root =
      Quiet-on_os_error _ _
        (Quiet-bind _ _ (Quiet-call (Request.list_dir root) refl) (λ e. Quiet-pure _))
        (Quiet-pure _)

  Quiet-gone : (dir : String) (f : Files host) → Quiet (gone host dir f)
  unfolding gone
  Quiet-gone dir f = Quiet-bind _ _ (Quiet-call (Request.exists dir) refl) (λ b. Quiet-pure _)

  Quiet-sort_descriptors : (paths : List String) → Quiet (sort_descriptors host paths)
  unfolding sort_descriptors
  Quiet-sort_descriptors paths = search quiet_rules

  Quiet-read_target : (p : String) → Quiet (read_target host p)
  unfolding read_target
  Quiet-read_target p =
      Quiet-on_os_error _ _
        (Quiet-bind _ _ (Quiet-call (Request.read_link p) refl) (λ l. Quiet-pure _)) (Quiet-pure _)

  Quiet-find_target : (l : String) (ds : List Database) → Quiet (find_target host l ds)
  unfolding find_target
  Quiet-find_target l ds =
      Quiet-on_os_error _ _
        (Quiet-bind _ _ (Quiet-match_database host true _ _) (λ d. Quiet-pure _)) (Quiet-pure _)

  Quiet-visit_descriptors :
      (dir : String) (paths : List String) (f : Files host)
      → Quiet (visit_descriptors host dir paths f)
  unfolding visit_descriptors
  Quiet-visit_descriptors dir [] f = Quiet-pure f
  Quiet-visit_descriptors dir (p ∷ ps) f = Quiet-bind _ _ (Quiet-read_target p) (λ link.
      Quiet-option link _ _
        (Quiet-bind _ _ (Quiet-call (Request.lexists p) refl)
          (λ b. Quiet-visit_descriptors dir ps _))
        (λ l. Quiet-bind _ _ (Quiet-find_target l f.tally.databases) (λ found.
          Quiet-option found _ _ (Quiet-gone dir f)
            (λ d. Quiet-visit_descriptors dir ps (take_match host d f)))))

  Quiet-list_descriptors : (dir : String) → Quiet (list_descriptors host dir)
  unfolding list_descriptors
  Quiet-list_descriptors dir =
      Quiet-on_os_error _ _
        (Quiet-bind _ _ (Quiet-call (Request.list_dir (host.join dir "fd")) refl)
          (λ e. Quiet-bind _ _ (Quiet-sort_descriptors e) (λ s. Quiet-pure _)))
        (Quiet-pure _)

  Quiet-visit_files : (dir : String) (f : Files host) → Quiet (visit_files host dir f)
  unfolding visit_files
  Quiet-visit_files dir f =
      Quiet-bind _ _ (Quiet-list_descriptors dir)
        (λ o. Quiet-option o _ _ (Quiet-gone dir f) (λ ps. Quiet-visit_descriptors dir ps f))

  Quiet-executable_of : (dir comm : String) → Quiet (executable_of host dir comm)
  unfolding executable_of
  Quiet-executable_of dir comm =
      Quiet-on_os_error _ _
        (Quiet-bind _ _ (Quiet-call (Request.read_link (host.join dir "exe")) refl)
          (λ l. Quiet-pure _))
        (Quiet-pure _)

  Quiet-visit_process :
      (hs : List Holder) (dir name : String) (t : Tally) → Quiet (visit_process host hs dir name t)
  unfolding visit_process
  Quiet-visit_process hs dir name t =
      Quiet-bind _ _ (Quiet-if _ _ _ (Quiet-visit_files dir _) (Quiet-pure _)) (λ files.
        Quiet-if _ _ _ (Quiet-bind _ _ (Quiet-parse_linux_write_bytes _) (λ b. Quiet-pure _))
          (Quiet-pure _))

  Quiet-read_comm : (dir : String) → Quiet (read_comm host dir)
  unfolding read_comm
  Quiet-read_comm dir =
      Quiet-on_os_error _ _
        (Quiet-bind _ _ (Quiet-call (Request.read_text (host.join dir "comm")) refl)
          (λ l. Quiet-pure _))
        (Quiet-pure _)

  Quiet-visit_owned :
      (hs : List Holder) (dir : String) (t : Tally) → Quiet (visit_owned host hs dir t)
  unfolding visit_owned
  Quiet-visit_owned hs dir t = Quiet-bind _ _ (Quiet-read_comm dir) (λ comm.
      Quiet-option comm _ _
        (Quiet-bind _ _ (Quiet-call (Request.exists dir) refl) (λ b. Quiet-pure (mark b t)))
        (λ text.
          Quiet-bind _ _ (Quiet-executable_of dir (host.base_name (host.path text)))
            (λ name. Quiet-visit_process hs dir name t)))

  Quiet-visit_directory :
      (hs : List Holder) (uid : Option ℕ) (dir : String) (t : Tally)
      → Quiet (visit_directory host hs uid dir t)
  unfolding visit_directory
  Quiet-visit_directory hs uid dir t = Quiet-bind _ _ (Quiet-owner_of uid dir) by_owner
    where
      by_owner :
          (o : Owner)
          → Quiet (elim o [
            | mine ↦ visit_owned host hs dir t
            | foreign ↦ codex_storage_doctor.Effects.pure t
            | unknown ↦ codex_storage_doctor.Effects.pure (mark true t)
          ])
      by_owner mine = Quiet-visit_owned hs dir t
      by_owner foreign = Quiet-pure t
      by_owner unknown = Quiet-pure _

  pub Quiet-visit_directories :
      (hs : List Holder) (uid : Option ℕ) (dirs : List String) (t : Tally)
      → Quiet (visit_directories host hs uid dirs t)
  unfolding visit_directories
  Quiet-visit_directories hs uid [] t = Quiet-pure t
  Quiet-visit_directories hs uid (d ∷ ds) t =
      Quiet-bind _ _ (Quiet-visit_directory hs uid d t) (λ u. Quiet-visit_directories hs uid ds u)
