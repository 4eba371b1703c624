-- ===== src/SqliteInspect/Quiet.antt =====
-- The requests of an inspection: none of them is CREATE TRIGGER, DROP TRIGGER or COMMIT.
use codex_storage_doctor.Prelude.{String, refl, Bool, none, List}
use codex_storage_doctor.Errors.{Exn}
use codex_storage_doctor.Host.{Host}
use codex_storage_doctor.Effects.{
  Conn, Request, Outcome, ok, raised, M, call, catch, attempt, return, ◌>>=◌, ◌>>◌,
}
use codex_storage_doctor.Effects.Rules.{
  Quiet, Quiet-call, Quiet-pure, Quiet-raise, Quiet-return, Quiet-if, Quiet-attempt, Quiet-catch,
  Quiet-bind, Quiet-close, quiet_rules,
}
use codex_storage_doctor.Models.Inspection.{DatabaseInspection}
use codex_storage_doctor.SqliteInspect.{
  failed_inspection, on_error, read_metadata, inspect_open, inspect_file, inspect_database,
}
use codex_storage_doctor.SqliteInspect.Reads.{
  no_aggregates, size, Sizes, sizes, sequence_of, full_aggregates,
}
use codex_storage_doctor.SqliteInspect.Results.{names_of, read_failure, not_found, Failure}

Quiet-size : (path : String) → Quiet (size path)
unfolding size
Quiet-size path = search quiet_rules depth 20

Quiet-sequence_of : (conn : Conn) → Quiet (sequence_of conn)
unfolding sequence_of
Quiet-sequence_of conn =
    Quiet-bind _ _ (Quiet-call (Request.has_sequence conn) refl)
      (λ there. Quiet-if there _ _ (Quiet-call (Request.sequence_row conn) refl) (Quiet-pure none))

Quiet-full_aggregates : (conn : Conn) (columns : List String) → Quiet (full_aggregates conn columns)
unfolding full_aggregates
Quiet-full_aggregates conn columns =
    Quiet-bind _ _ (Quiet-call (Request.count_row conn) refl) (λ counts.
      Quiet-bind _ _
        (Quiet-if _ _ _
          (Quiet-bind _ _ (Quiet-call (Request.byte_sum conn) refl) (λ n. Quiet-pure _))
          (Quiet-pure _))
        (λ total.
          Quiet-bind _ _ (Quiet-call (Request.level_rows conn _) refl) (λ rows. Quiet-pure _)))

module _ (host : Host) where
  Quiet-sizes : (path : String) → Quiet (sizes host path)
  unfolding sizes
  Quiet-sizes path = search (quiet_rules, Quiet-size) depth 20

  Quiet-failed_inspection : (path : String) (f : Failure) → Quiet (failed_inspection host path f)
  unfolding failed_inspection
  Quiet-failed_inspection path f = Quiet-bind _ _ (Quiet-sizes path) (λ z. Quiet-pure _)

  Quiet-on_error : (path : String) (e : Exn) → Quiet (on_error host path e)
  unfolding on_error
  Quiet-on_error path e =
      Quiet-if _ _ _
        (Quiet-bind _ _ (Quiet-call (Request.is_readonly_cantinit e) refl)
          (λ b. Quiet-failed_inspection path _))
        (Quiet-if _ _ _ (Quiet-failed_inspection path read_failure) (Quiet-raise e))

  Quiet-read_metadata : Quiet (read_metadata host)
  unfolding read_metadata
  Quiet-read_metadata =
      Quiet-bind _ _ (Quiet-call (Request.pragma Conn.reader "query_only = ON") refl) (λ _.
        Quiet-bind _ _ (Quiet-call (Request.quick_check Conn.reader) refl) (λ check.
          Quiet-bind _ _ (Quiet-call (Request.table_columns Conn.reader) refl) (λ rows.
            Quiet-bind _ _ (Quiet-call (Request.master Conn.reader) refl) (λ stored.
              Quiet-bind _ _ (Quiet-if _ _ _ (Quiet-sequence_of Conn.reader) (Quiet-pure _))
                (λ sequence. Quiet-pure _)))))

  Quiet-inspect_open :
      (path : String) (full : Bool) (z : Sizes) → Quiet (inspect_open host path full z)
  unfolding inspect_open
  Quiet-inspect_open path full z = Quiet-bind _ _ Quiet-read_metadata (λ r.
      Quiet-bind _ _
        (Quiet-if _ _ _ (Quiet-full_aggregates Conn.reader (names_of r)) (Quiet-pure no_aggregates))
        (λ a. Quiet-pure _))

  Quiet-inspect_file :
      (path : String) (full : Bool) (z : Sizes) → Quiet (inspect_file host path full z)
  unfolding inspect_file
  Quiet-inspect_file path full z =
      Quiet-bind _ _ (Quiet-attempt _ (Quiet-call (Request.connect Conn.reader path) refl))
        by_opened
    where
      guarded : M DatabaseInspection
      guarded = catch (inspect_open host path full z) (on_error host path)

      read : M DatabaseInspection
      read = attempt guarded >>= λ result. call (Request.close Conn.reader) >> return result

      by_opened :
          (o : Outcome (Unit {0}))
          → Quiet (elim o [ raised e ↦ on_error host path e | ok _ ↦ read ])
      by_opened (raised e) = Quiet-on_error path e
      by_opened (ok u) =
          Quiet-bind (attempt guarded) _
            (Quiet-attempt guarded
              (Quiet-catch _ _ (Quiet-inspect_open path full z) (Quiet-on_error path)))
            (λ o. Quiet-bind _ _ (Quiet-close Conn.reader) (λ _. Quiet-return o))

  pub Quiet-inspect_database :
      (path : String) (full : Bool) → Quiet (inspect_database host path full)
  unfolding inspect_database
  Quiet-inspect_database path full =
      Quiet-bind _ _ (Quiet-call (Request.expand_user path) refl) (λ expanded.
        Quiet-bind _ _ (Quiet-call (Request.absolute expanded) refl) (λ database.
          Quiet-bind _ _ (Quiet-call (Request.is_file database) refl) (λ there.
            Quiet-if there _ _
              (Quiet-bind _ _ (Quiet-sizes database) (λ z. Quiet-inspect_file database full z))
              (Quiet-failed_inspection database not_found))))
