-- ===== src/Planning/Create.antt =====
-- `create_plan`
use codex_storage_doctor.Prelude.{
  String, ◌==◌, ◌<>◌, Bool, true, false, not, ◌||◌, Option, none, some, List, [], ◌∷◌, is_nil,
  if◌then◌else◌,
}
use codex_storage_doctor.Text.{lower, is_log_db_name}
use codex_storage_doctor.Json.{
  Json, Items, Fields, null, bool, num, str, arr, obj, nil, cons, end, field, pos, get, put, truthy,
  text_of,
}
use codex_storage_doctor.Errors.{plan_error, cross_boundary, safety_boundary}
use codex_storage_doctor.Host.{Host}
use codex_storage_doctor.Effects.{Conn, Request, Stat, M, pure, raise, call, ◌>>=◌, ◌>>◌, refuse_if}
use codex_storage_doctor.Filesystem.{nonlocal_filesystem_reason}
use codex_storage_doctor.Planning.Modes.{mode_of, normalize_sql}
use codex_storage_doctor.Planning.Schema.{
  Triggers, validate_log_schema, doctor_triggers_connection, log_triggers_connection,
  schema_fingerprint_connection, conflicting, find_trigger,
}
use codex_storage_doctor.Planning.Surroundings.{
  with_reader, read_file_identity, observed_codex_version, cross_boundary_reason,
  expected_artifact_root,
}
use codex_storage_doctor.Planning.Document.{
  plan_schema, tool_version, name_for, sql_for, calculate_plan_digest, confirmation_token,
}

-- `row is None or str(row[0]).lower() != "ok"`, for the row of `PRAGMA quick_check(1)`
unfoldable pub quick_check_fails : Option Json → Bool
unfolding lower text_of
quick_check_fails none = true
quick_check_fails (some v) = not (lower (text_of v) == "ok")

-- `reason` refuses with the error that it is given to.
unfoldable pub refuse_reason :
    Option String → (String → codex_storage_doctor.Errors.Exn) → M (Unit {0})
refuse_reason none error = pure tt
refuse_reason (some reason) error = raise (error reason)

-- What the read-only connection tells `create_plan`.
pub record Survey : Type 0 where
  pub doctor : Triggers
  pub logs : Triggers
  pub base : String

abbrev optional_text : Option String → Json
optional_text none = null
optional_text (some s) = str s

abbrev is_balanced : String → Bool
is_balanced mode = mode == "balanced"

abbrev texts : List String → Json
texts names = arr (go names)
  where
    go : List String → Items
    go [] = nil
    go (s ∷ rest) = cons (str s) (go rest)

-- `str((process_observation or {}).get("status", "not_sampled"))`
abbrev observed_status : Fields → String
observed_status end = "not_sampled"
observed_status (field k v rest) =
    let later = observed_status rest in if k == "status" then text_of v else later

module _ (host : Host) where
  -- The dict without its digest and token.
  unfoldable pub plan_body :
      String → String → Survey → Stat → Option String → Fields → String → Fields
  unfolding name_for sql_for mode_of normalize_sql find_trigger expected_artifact_root
  plan_body path mode survey identity version seen now =
      let name = name_for (mode_of mode) in
      let sql = normalize_sql (sql_for (mode_of mode)) in
      field "schema_version" (str plan_schema) (
        field "tool_version" (str tool_version) (
          field "created_at" (str now) (
            field "database" (str path) (
              field "database_name" (str (host.base_name path)) (
                field "mode" (str mode) (
                  field "suppresses"
                    (texts
                      (if is_balanced mode then "TRACE" ∷ "DEBUG" ∷ "INFO" ∷ [] else "ALL" ∷ []))
                    (field "preserves"
                      (texts (if is_balanced mode then "WARN" ∷ "ERROR" ∷ "UNKNOWN" ∷ [] else []))
                      (field "file_identity"
                        (obj (
                          field "device" (num (pos identity.device))
                            (field "inode" (num (pos identity.inode)) end)))
                        (field "observed_file_stat"
                          (obj (
                            field "size" (num (pos identity.size)) (
                              field "mtime_ns" (num (pos identity.mtime_ns))
                                (field "informational_only" (bool true) end))))
                          (field "base_schema_fingerprint" (str survey.base) (
                            field "trigger_name" (str name) (
                              field "trigger_sql_sha256" (str (host.sha256 sql)) (
                                field "already_installed"
                                  (bool (elim (find_trigger name survey.doctor) [
                                    | none ↦ false
                                    | some s ↦ s == sql
                                  ]))
                                  (field "observed_codex_version" (optional_text version) (
                                    field "process_gate_at_plan"
                                      (obj (
                                        field "status" (str (observed_status seen)) (
                                          field "complete" (bool (truthy (get "complete" seen))) (
                                            field "codex_running"
                                              (bool (truthy (get "codex_running" seen)))
                                              (field "handle_evidence_supported"
                                                (bool
                                                  (truthy (get "handle_evidence_supported" seen)))
                                                (field "apply_will_rescan" (bool true) end))))))
                                      (field "artifact_root"
                                        (str (expected_artifact_root host path))
                                        (field "safety"
                                          (obj (
                                            field "requires_codex_closed" (bool true) (
                                              field "verified_backup_first" (bool true) (
                                                field "deletes_rows" (bool false) (
                                                  field "runs_vacuum" (bool false) (
                                                    field "changes_journal_mode" (bool false) (
                                                      field "installs_background_job" (bool false) (
                                                        field
                                                          "backup_may_contain_private_diagnostics"
                                                          (bool true) end))))))))
                                          end)))))))))))))))))

  -- The last statements: the digest of the body, and the token.
  unfoldable pub seal_plan : Fields → Fields
  unfolding calculate_plan_digest confirmation_token
  seal_plan body =
      let digest = calculate_plan_digest host body in
      put "confirmation_token" (str (confirmation_token host digest))
        (put "plan_digest" (str digest) body)

  survey_database : String → String → M Survey
  unfolding with_reader validate_log_schema quick_check_fails doctor_triggers_connection
      log_triggers_connection schema_fingerprint_connection
  survey_database path mode = with_reader path do
    validate_log_schema Conn.reader mode
    row ← call (Request.quick_check Conn.reader)
    refuse_if (quick_check_fails row) (plan_error "source database quick_check did not return ok")
    doctor ← doctor_triggers_connection Conn.reader
    logs ← log_triggers_connection Conn.reader
    base ← schema_fingerprint_connection host Conn.reader
    pure (record { doctor = doctor; logs = logs; base = base })

  unfoldable pub create_plan : String → String → Fields → M Fields
  unfolding survey_database cross_boundary_reason nonlocal_filesystem_reason refuse_reason
      read_file_identity observed_codex_version conflicting plan_body seal_plan is_log_db_name
  create_plan database mode seen = do
    expanded ← call (Request.expand_user database)
    path ← call (Request.resolve_strict expanded)
    regular ← call (Request.is_file path)
    refuse_if (not regular) (plan_error ("database is not a regular file: " <> path))
    refuse_if (not (is_log_db_name (host.base_name path)))
        (plan_error "refusing non-log database; expected an explicit logs_<n>.sqlite path")
    boundary ← cross_boundary_reason path
    refuse_reason boundary (λ r. cross_boundary ("audit-only cross-boundary path: " <> r))
    reason ← nonlocal_filesystem_reason host path
    refuse_reason reason safety_boundary
    survey ← survey_database path mode
    let name = name_for (mode_of mode)
    let sql = normalize_sql (sql_for (mode_of mode))
    refuse_if
        (not (is_nil (conflicting name sql survey.logs))
          || not (is_nil (conflicting name sql survey.doctor)))
        (plan_error "a conflicting logs or Codex Storage Doctor trigger exists; rollback first")
    identity ← read_file_identity path
    now ← call Request.utc_now
    version ← observed_codex_version
    pure (seal_plan (plan_body path mode survey identity version seen now))
