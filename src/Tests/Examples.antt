-- ===== src/Tests/Examples.antt =====
-- The theorems' hypotheses hold on the examples' machine.
use codex_storage_doctor.Prelude.{
  Option, String, ◌≡◌, refl, ◌↔◌, true, false, none, some, [], ◌∷◌, contains,
}
use codex_storage_doctor.Json.{
  pos, Fields, bool, num, str, arr, obj, Items, nil, cons, end, field, get, text_of, truthy,
}
use codex_storage_doctor.Text.{is_log_db_name}
use codex_storage_doctor.Errors.{CommitOutcome, verified_committed, verified_not_committed}
use codex_storage_doctor.Effects.{Outcome, ok, raised, World}
use codex_storage_doctor.Effects.Reading.{Read}
use codex_storage_doctor.Effects.Mutations.{mutations, commit_done, created, dropped}
use codex_storage_doctor.Filesystem.{local_filesystems, type_reason}
use codex_storage_doctor.Filesystem.Types.{type_reason-local}
use codex_storage_doctor.Planning.Modes.{Mode, mode_of, trigger_names, trigger_sql, normalize_sql}
use codex_storage_doctor.Planning.Schema.{is_doctor, fingerprint}
use codex_storage_doctor.Planning.Schema.Base.{fingerprint-doctor}
use codex_storage_doctor.Planning.Document.{
  validate_plan_document, calculate_plan_digest, confirmation_token,
}
use codex_storage_doctor.Planning.Create.{create_plan, seal_plan}
use codex_storage_doctor.Planning.Accept.{validate_plan_document_sound, seal_plan-verifies}
use codex_storage_doctor.Planning.Harmless.{create_plan-Read}
use codex_storage_doctor.Mitigation.Gate.{
  is_complete, iterate, judge_all, no_holders, all_explained, gate_verdict,
}
use codex_storage_doctor.Mitigation.Gate.Verdict.{AllSelf, gate_verdict_sound}
use codex_storage_doctor.Mitigation.Manifest.{
  sealed_keys, manifest_digest, rollback_token, seal_manifest, validate_manifest,
}
use codex_storage_doctor.Mitigation.Manifest.Seal.{seal-verifies}
use codex_storage_doctor.Mitigation.Manifest.Accept.{validate_manifest_sound}
use codex_storage_doctor.Mitigation.Commit.{apply_commit_outcome, rollback_commit_outcome}
use codex_storage_doctor.Mitigation.Commit.State.{read_state}
use codex_storage_doctor.Mitigation.Commit.Verdict.{
  opposite, apply_commit_outcome-read_state, rollback_commit_outcome-opposite,
}
use codex_storage_doctor.Mitigation.Apply.Transaction.{apply_plan}
use codex_storage_doctor.Mitigation.Order.{Ordered}
use codex_storage_doctor.Mitigation.Apply.Order.{apply_plan-Ordered}
use codex_storage_doctor.Mitigation.Apply.Contract.{apply_plan-Contract}
use codex_storage_doctor.Mitigation.Rollback.{RollbackResult}
use codex_storage_doctor.Mitigation.Rollback.Transaction.{rollback}
use codex_storage_doctor.Mitigation.Rollback.Contract.{rollback-RollbackContract}
use codex_storage_doctor.Mitigation.Rollback.Order.{rollback-Ordered}
use codex_storage_doctor.Tests.Machine.{
  zeros, removal_answers, machine, answers, start, logs_table, doctor_row,
}

abbrev database : String
database = "/d/logs_1.sqlite"

abbrev plan_of : Outcome Fields → Fields
plan_of (ok fs) = fs
plan_of (raised e) = end

unfoldable plan : Fields
unfolding create_plan machine answers
plan = plan_of (create_plan machine database "balanced" end answers start).0

unfoldable run : Outcome codex_storage_doctor.Mitigation.Apply.ApplyResult × World
unfolding apply_plan machine answers plan
run = apply_plan machine plan (text_of (get "confirmation_token" plan)) answers start

-- The machine's plan is applied: the run ends with the last token, after one CREATE and one COMMIT.
apply_plan-Contract_example : mutations run.1.trace ≡ commit_done ∷ created ∷ []
unfolding run codex_storage_doctor.Effects.◌>>=◌ codex_storage_doctor.Planning.Modes.first_refusal
    codex_storage_doctor.Json.is_text get codex_storage_doctor.Effects.call
    codex_storage_doctor.Effects.refuse_if codex_storage_doctor.Effects.catch
    codex_storage_doctor.Effects.attempt codex_storage_doctor.Effects.return
    codex_storage_doctor.Json.put codex_storage_doctor.Json.is_natural
    codex_storage_doctor.Effects.update_manifest codex_storage_doctor.Effects.set_open
    codex_storage_doctor.Effects.set_committed codex_storage_doctor.Effects.set_closed
    codex_storage_doctor.Effects.gets
apply_plan-Contract_example =
    apply_plan-Contract machine answers plan (text_of (get "confirmation_token" plan)) start refl

create_plan-Read_example : Read start (create_plan machine database "balanced" end answers start).1
create_plan-Read_example = create_plan-Read machine answers database "balanced" end start

unfoldable manifest : Fields
unfolding run
manifest = run.1.manifest

manifest_accepted : validate_manifest machine manifest ≡ ok tt
unfolding manifest validate_manifest manifest_digest codex_storage_doctor.Json.without
    rollback_token codex_storage_doctor.Effects.◌>>=◌
    codex_storage_doctor.Planning.Modes.first_refusal codex_storage_doctor.Json.is_text get
    codex_storage_doctor.Effects.call codex_storage_doctor.Effects.refuse_if
    codex_storage_doctor.Effects.catch codex_storage_doctor.Effects.attempt
    codex_storage_doctor.Effects.return codex_storage_doctor.Json.put
    codex_storage_doctor.Json.is_natural codex_storage_doctor.Effects.update_manifest
    codex_storage_doctor.Effects.set_open codex_storage_doctor.Effects.set_committed
    codex_storage_doctor.Effects.set_closed codex_storage_doctor.Effects.gets
manifest_accepted = refl

-- The manifest that the run leaves is accepted.
validate_manifest_sound_example :
    (get "manifest_digest" manifest ≡ str (manifest_digest machine manifest))
    × (get "rollback_token" manifest
        ≡ str (rollback_token machine (manifest_digest machine manifest)))
    × ((mode : Mode) × (mode_of (text_of (get "mode" manifest)) ≡ some mode)
        × (get "trigger_name" manifest ≡ str (trigger_names mode))
        × (get "trigger_sql_sha256" manifest
            ≡ str (machine.sha256 (normalize_sql (trigger_sql mode)))))
validate_manifest_sound_example = validate_manifest_sound machine manifest manifest_accepted

seal-verifies_example :
    let s = seal_manifest machine manifest in
    let digest = manifest_digest machine s in
    (get "manifest_digest" s ≡ str digest)
    × (get "rollback_token" s ≡ str (rollback_token machine digest))
    × ((k : String) → contains sealed_keys k ≡ false → get k s ≡ get k manifest)
seal-verifies_example = seal-verifies machine manifest

seal_plan-verifies_example :
    let s = seal_plan machine plan in
    let digest = calculate_plan_digest machine s in
    (get "plan_digest" s ≡ str digest)
    × (get "confirmation_token" s ≡ str (confirmation_token machine digest))
seal_plan-verifies_example = seal_plan-verifies machine plan

-- The doctor's own process, whose handle is known by its pid.
unfoldable own_process : Fields
own_process = field "pid" (num (pos 7)) (
    field "is_codex" (bool false)
      (field "open_database_ids" (arr (cons (str "database-001") nil)) end))

unfoldable own_scan : Fields
unfolding own_process
own_scan = field "complete" (bool true) (
    field "processes" (arr (cons (obj own_process) nil))
      (field "held_database_paths" (arr (cons (str "database-001") nil)) end))

own_scan_passes : gate_verdict (7 ∷ []) own_scan ≡ ok tt
unfolding own_scan gate_verdict get
own_scan_passes = refl

gate_verdict_sound_example :
    (is_complete own_scan ≡ true)
    × ((processes : Items) × (held : Items) × (iterate (get "processes" own_scan) ≡ ok processes)
        × (iterate (get "held_database_paths" own_scan) ≡ ok held)
        × AllSelf (7 ∷ []) processes
        × (truthy (get "open_database_paths" own_scan) ≡ false)
        × (all_explained (judge_all (7 ∷ []) processes no_holders) held ≡ true))
gate_verdict_sound_example = gate_verdict_sound (7 ∷ []) own_scan own_scan_passes

apply_commit_outcome-read_state_example :
    (let o = (apply_commit_outcome machine database "a" "s" zeros answers start).0 in
      let state = (read_state machine database answers start).0 in
      ((o ≡ ok verified_committed) ↔ (state ≡ ok (zeros, ("a", "s") ∷ [])))
      × ((o ≡ ok verified_not_committed) ↔ (state ≡ ok (zeros, [])))
      × ((c : CommitOutcome) × (o ≡ ok c)))
apply_commit_outcome-read_state_example =
    apply_commit_outcome-read_state machine "a" "s" zeros database answers start

-- On the example's machine the reading finds the fingerprint and no trigger.
state_example : (read_state machine database answers start).0 ≡ ok (zeros, [])
unfolding read_state machine answers codex_storage_doctor.Effects.◌>>=◌
    codex_storage_doctor.Effects.call codex_storage_doctor.Effects.attempt
    codex_storage_doctor.Effects.return codex_storage_doctor.Effects.pure
state_example = refl

rollback_commit_outcome-opposite_example :
    (c : CommitOutcome) × ((apply_commit_outcome machine database "a" "s" zeros answers start).0
      ≡ ok c)
    × ((rollback_commit_outcome machine database "a" "s" zeros answers start).0 ≡ ok (opposite c))
rollback_commit_outcome-opposite_example =
    rollback_commit_outcome-opposite machine "a" "s" zeros database answers start

is_doctor-doctor_row : is_doctor doctor_row ≡ true
unfolding doctor_row
is_doctor-doctor_row = refl

fingerprint-doctor_example :
    fingerprint machine (logs_table ∷ doctor_row ∷ []) ≡ fingerprint machine (logs_table ∷ [])
fingerprint-doctor_example =
    fingerprint-doctor machine doctor_row (logs_table ∷ []) [] is_doctor-doctor_row

type_reason-local_example :
    (type_reason (some "ext4") ≡ none)
    ↔ ((fs : String) × (some "ext4" ≡ some fs) × (contains local_filesystems fs ≡ true))
type_reason-local_example = type_reason-local (some "ext4")

abbrev manifest_path : Option String
manifest_path =
    some "/d/.codex-storage-doctor/rollback/20260101T000000Z-00000000/rollback-manifest.json"

unfoldable removal : Outcome RollbackResult × World
unfolding rollback removal_answers manifest
removal =
    rollback machine manifest (text_of (get "rollback_token" manifest)) manifest_path
      removal_answers start

-- The manifest of the run above is rolled back: one DROP and one COMMIT.
rollback-RollbackContract_example : mutations removal.1.trace ≡ commit_done ∷ dropped ∷ []
unfolding removal manifest run manifest_digest codex_storage_doctor.Json.without rollback_token
    codex_storage_doctor.Effects.set_token codex_storage_doctor.Effects.◌>>=◌
    codex_storage_doctor.Planning.Modes.first_refusal codex_storage_doctor.Json.is_text get
    codex_storage_doctor.Effects.call codex_storage_doctor.Effects.refuse_if
    codex_storage_doctor.Effects.catch codex_storage_doctor.Effects.attempt
    codex_storage_doctor.Effects.return codex_storage_doctor.Json.put
    codex_storage_doctor.Json.is_natural codex_storage_doctor.Effects.update_manifest
    codex_storage_doctor.Effects.set_open codex_storage_doctor.Effects.set_committed
    codex_storage_doctor.Effects.set_closed codex_storage_doctor.Effects.gets
rollback-RollbackContract_example =
    rollback-RollbackContract machine removal_answers manifest
      (text_of (get "rollback_token" manifest)) manifest_path start refl

apply_plan-Ordered_example :
    Ordered
      (apply_plan machine plan (text_of (get "confirmation_token" plan)) answers start).1.trace
apply_plan-Ordered_example =
    apply_plan-Ordered machine answers plan (text_of (get "confirmation_token" plan)) start tt

plan_accepted : validate_plan_document machine plan ≡ ok tt
unfolding plan validate_plan_document calculate_plan_digest manifest_digest
    codex_storage_doctor.Json.without rollback_token codex_storage_doctor.Effects.◌>>=◌
    codex_storage_doctor.Planning.Modes.first_refusal codex_storage_doctor.Json.is_text get
    codex_storage_doctor.Effects.call codex_storage_doctor.Effects.refuse_if
    codex_storage_doctor.Effects.catch codex_storage_doctor.Effects.attempt
    codex_storage_doctor.Effects.return codex_storage_doctor.Json.put
    codex_storage_doctor.Json.is_natural codex_storage_doctor.Effects.update_manifest
    codex_storage_doctor.Effects.set_open codex_storage_doctor.Effects.set_committed
    codex_storage_doctor.Effects.set_closed codex_storage_doctor.Effects.gets
plan_accepted = refl

-- The plan that `create_plan` makes on the machine is accepted.
validate_plan_document_sound_example :
    let database = machine.path (text_of (get "database" plan)) in
    (machine.is_absolute database ≡ true)
    × (is_log_db_name (machine.base_name database) ≡ true)
    × (get "plan_digest" plan ≡ str (calculate_plan_digest machine plan))
    × (get "confirmation_token" plan
        ≡ str (confirmation_token machine (calculate_plan_digest machine plan)))
    × ((mode : Mode) × (mode_of (text_of (get "mode" plan)) ≡ some mode)
        × (get "trigger_name" plan ≡ str (trigger_names mode))
        × (get "trigger_sql_sha256" plan ≡ str (machine.sha256 (normalize_sql (trigger_sql mode)))))
validate_plan_document_sound_example = validate_plan_document_sound machine plan plan_accepted

rollback-Ordered_example :
    Ordered
      (rollback machine manifest
        (text_of (get "rollback_token" manifest))
        manifest_path
        removal_answers
        start).1.trace
rollback-Ordered_example =
    rollback-Ordered machine removal_answers manifest (text_of (get "rollback_token" manifest))
      manifest_path start tt
