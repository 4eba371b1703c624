-- ===== src/Processes/Linux/Fds/Tallies.antt =====
-- What the loops of the scan on Linux keep: partial evidence stays partial, and a process that was
-- observed is among the observations. A holder of a selected database is always observed.
use codex_storage_doctor.Prelude.{
  ℕ, String, ◌≡◌, refl, ◌⊎◌, inr, Bool, true, false, ◌||◌, Option, none, some, List, [], ◌∷◌, ◌++◌,
  is_nil,
}
use codex_storage_doctor.Host.{Host}
use codex_storage_doctor.Decimal.{number}
use codex_storage_doctor.Effects.{Request, call, pure}
use codex_storage_doctor.Effects.Yields.{
  Yields, Yields-pure, Yields-if, Yields-option, Yields-bind, Yields-bind_with,
}
use codex_storage_doctor.Models.Scan.{ProcessObservation, ProcessScan}
use codex_storage_doctor.Processes.{Database, database_of_id, is_codex_executable}
use codex_storage_doctor.Processes.Lsof.{Holder, find_holder}
use codex_storage_doctor.Processes.Linux.{
  Tally, mark, hold, hold_ids, observe, sort_holders, remaining_holders, Evidence, unavailable_scan,
  result_of, Owner, mine, foreign, unknown,
}
use codex_storage_doctor.Processes.Linux.Fds.{
  Files, ids_of_holder, files_at, observation_of, gone, take_match, visit_descriptors, visit_files,
  visit_process, visit_owned, visit_directory, visit_directories, scan_directories, scan_found,
  scan_linux,
}

-- `b` says whether the evidence was partial before the loops.
pub record Tracked (b : Bool) (t : Tally) : Type 0 where
  pub fine : t.partial ≡ false → b ≡ false
  pub seen : (t.observed_pids ≡ []) ⊎ (is_nil t.observations ≡ false)

pub append_some : {A : Type 0} (xs : List A) (x : A) → is_nil (xs ++ (x ∷ [])) ≡ false
append_some [] x = refl
append_some (y ∷ ys) x = refl

left_false : (a b : Bool) → a || b ≡ false → a ≡ false
left_false false b h = refl
left_false true b h = cc

module _ (b : Bool) where
  mark-Tracked : (m : Bool) (t : Tally) → Tracked b t → Tracked b (mark m t)
  unfolding mark
  mark-Tracked m t k = record { fine = λ h. k.fine (left_false t.partial m h); seen = k.seen }

  hold-Tracked : (c : Bool) (path : String) (t : Tally) → Tracked b t → Tracked b (hold c path t)
  unfolding hold
  hold-Tracked c path t k = record { fine = k.fine; seen = k.seen }

  hold_ids-Tracked :
      (c : Bool) (ids : List String) (t : Tally) → Tracked b t → Tracked b (hold_ids c ids t)
  unfolding hold_ids
  hold_ids-Tracked c [] t k = k
  hold_ids-Tracked c (i ∷ ids) t k = hold_ids-Tracked c ids _ (found (database_of_id i t.databases))
    where
      found : (o : Option Database) → Tracked b (elim o [ none ↦ t | some d ↦ hold c d.path t ])
      found none = k
      found (some d) = hold-Tracked c d.path t k

  observe-Tracked :
      (o : ProcessObservation) (pid : ℕ) (t : Tally) → Tracked b t → Tracked b (observe o pid t)
  unfolding observe
  observe-Tracked o pid t k = record { fine = k.fine; seen = inr (append_some t.observations o) }

  module _ (host : Host) where
    abbrev OnFiles : Files host → Type 0
    OnFiles f = Tracked b f.tally

    match-Tracked :
        (m : Option Database × List Database) (f : Files host)
        → OnFiles f
        → OnFiles (take_match host m f)
    unfolding take_match
    match-Tracked (none, ds) f k = record { fine = k.fine; seen = k.seen }
    match-Tracked (some d, ds) f k =
        hold-Tracked true d.path (record f.tally { databases = ds })
          (record { fine = k.fine; seen = k.seen })

    gone-Tracked : (dir : String) (f : Files host) → OnFiles f → Yields OnFiles (gone host dir f)
    unfolding gone
    gone-Tracked dir f k = Yields-bind OnFiles _ _ (λ alive.
        Yields-pure OnFiles (record f { tally = mark alive f.tally })
          (mark-Tracked alive f.tally k))

    descriptors-Tracked :
        (dir : String) (paths : List String) (f : Files host)
        → OnFiles f
        → Yields OnFiles (visit_descriptors host dir paths f)
    unfolding visit_descriptors
    descriptors-Tracked dir [] f k = Yields-pure OnFiles f k
    descriptors-Tracked dir (p ∷ ps) f k = Yields-bind OnFiles _ _ (λ link.
        Yields-option OnFiles link _ _
          (Yields-bind OnFiles (call (Request.lexists p)) _ (λ there.
            descriptors-Tracked dir ps (record f { tally = mark there f.tally })
              (mark-Tracked there f.tally k)))
          (λ l. Yields-bind OnFiles _ _ (λ found.
            Yields-option OnFiles found _ _ (gone-Tracked dir f k)
              (λ m. descriptors-Tracked dir ps (take_match host m f) (match-Tracked m f k)))))

    files-Tracked :
        (dir : String) (f : Files host) → OnFiles f → Yields OnFiles (visit_files host dir f)
    unfolding visit_files
    files-Tracked dir f k = Yields-bind OnFiles _ _ (λ o.
        Yields-option OnFiles o _ _ (gone-Tracked dir f k)
          (λ paths. descriptors-Tracked dir paths f k))

    start-Tracked :
        (hs : List Holder) (c : Bool) (pid : ℕ) (t : Tally)
        → Tracked b t
        → OnFiles (files_at host hs c pid t)
    unfolding files_at
    start-Tracked hs c pid t k = hold_ids-Tracked c (ids_of_holder host (find_holder pid hs)) t k

    process-Tracked :
        (hs : List Holder) (dir name : String) (t : Tally)
        → Tracked b t
        → Yields (Tracked b) (visit_process host hs dir name t)
    unfolding visit_process
    process-Tracked hs dir name t k =
        let c = is_codex_executable name in
        let pid = number (host.base_name dir) in
        Yields-bind_with (Tracked b) OnFiles _ _
          (Yields-if OnFiles c _ _
            (files-Tracked dir (files_at host hs c pid t) (start-Tracked hs c pid t k))
            (Yields-pure OnFiles (files_at host hs c pid t) (start-Tracked hs c pid t k)))
          (λ files f.
            Yields-if (Tracked b) _ _ _
              (Yields-bind (Tracked b) _ _ (λ n.
                Yields-pure (Tracked b)
                  (observe (observation_of host pid c name files.open_ids n) pid files.tally)
                  (observe-Tracked _ pid files.tally f)))
              (Yields-pure (Tracked b) files.tally f))

    owned-Tracked :
        (hs : List Holder) (dir : String) (t : Tally)
        → Tracked b t
        → Yields (Tracked b) (visit_owned host hs dir t)
    unfolding visit_owned
    owned-Tracked hs dir t k = Yields-bind (Tracked b) _ _ (λ comm.
        Yields-option (Tracked b) comm _ _
          (Yields-bind (Tracked b) (call (Request.exists dir)) _
            (λ alive. Yields-pure (Tracked b) (mark alive t) (mark-Tracked alive t k)))
          (λ text. Yields-bind (Tracked b) _ _ (λ name. process-Tracked hs dir name t k)))

    directory-Tracked :
        (hs : List Holder) (uid : Option ℕ) (dir : String) (t : Tally)
        → Tracked b t
        → Yields (Tracked b) (visit_directory host hs uid dir t)
    unfolding visit_directory
    directory-Tracked hs uid dir t k = Yields-bind (Tracked b) _ _ by_owner
      where
        by_owner :
            (o : Owner)
            → Yields (Tracked b) (elim o [
              | mine ↦ visit_owned host hs dir t
              | foreign ↦ pure t
              | unknown ↦ pure (mark true t)
            ])
        by_owner mine = owned-Tracked hs dir t k
        by_owner foreign = Yields-pure (Tracked b) t k
        by_owner unknown = Yields-pure (Tracked b) (mark true t) (mark-Tracked true t k)

    pub directories-Tracked :
        (hs : List Holder) (uid : Option ℕ) (dirs : List String) (t : Tally)
        → Tracked b t
        → Yields (Tracked b) (visit_directories host hs uid dirs t)
    unfolding visit_directories
    directories-Tracked hs uid [] t k = Yields-pure (Tracked b) t k
    directories-Tracked hs uid (d ∷ ds) t k =
        Yields-bind_with (Tracked b) (Tracked b) _ _ (directory-Tracked hs uid d t k)
          (λ u j. directories-Tracked hs uid ds u j)

-- A property that the two ways to end a scan have is one of every scan.
pub scan_linux-Yields :
    (host : Host) (P : ProcessScan → Type 0) (paths : List String) (root : String)
    → ((text : String) → P (unavailable_scan text))
    → ((t : Tally) → P (result_of t))
    → Yields P (scan_linux host paths root)
unfolding scan_linux scan_found scan_directories
scan_linux-Yields host P paths root none_found tallied = Yields-bind P _ _ (λ databases.
    Yields-bind P _ _ (λ evidence. Yields-bind P _ _ (λ found. by_found evidence found)))
  where
    by_found : (v : Evidence) (o : Option (List String)) → Yields P (scan_found host v o)
    by_found v none = Yields-pure P _ (none_found _)
    by_found v (some dirs) = Yields-bind P _ _ (λ uid.
        Yields-bind P _ _
          (λ t. Yields-pure P _ (tallied (remaining_holders (sort_holders v.holders) t))))
