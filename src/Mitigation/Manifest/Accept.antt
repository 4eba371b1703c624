-- ===== src/Mitigation/Manifest/Accept.antt =====
-- What `validate_manifest` has checked of a manifest that it accepts.
use codex_storage_doctor.Prelude.{◌≡◌, some}
use codex_storage_doctor.Json.{Fields, str, get, text_of}
use codex_storage_doctor.Host.{Host}
use codex_storage_doctor.Effects.{ok}
use codex_storage_doctor.Planning.Modes.{Mode, mode_of, trigger_names, trigger_sql, normalize_sql}
use codex_storage_doctor.Planning.Accept.{accepted_head, accepted_tail, accepted_text, mode_facts}
use codex_storage_doctor.Mitigation.Manifest.{
  manifest_digest, rollback_token, manifest_tests, validate_manifest,
}

module _ (host : Host) (m : Fields) where
  -- A manifest that `validate_manifest` accepts holds the digest of its other keys and the token of
  -- that digest, it has one of the two modes, and its trigger name and SQL hash are those of the
  -- program's trigger of that mode.
  pub validate_manifest_sound :
      validate_manifest host m ≡ ok tt
      → (get "manifest_digest" m ≡ str (manifest_digest host m))
        × (get "rollback_token" m ≡ str (rollback_token host (manifest_digest host m)))
        × ((mode : Mode) × (mode_of (text_of (get "mode" m)) ≡ some mode)
            × (get "trigger_name" m ≡ str (trigger_names mode))
            × (get "trigger_sql_sha256" m ≡ str (host.sha256 (normalize_sql (trigger_sql mode)))))
  unfolding validate_manifest manifest_tests
  validate_manifest_sound h =
      let t1 = accepted_tail _ _ _ h in
      let t2 = accepted_tail _ _ _ t1 in
      let t3 = accepted_tail _ _ _ t2 in
      let t4 = accepted_tail _ _ _ t3 in
      let t5 = accepted_tail _ _ _ t4 in
      (
        accepted_text _ _ (accepted_head _ _ _ t1),
        accepted_text _ _ (accepted_head _ _ _ t2),
        mode_facts host (mode_of (text_of (get "mode" m))) _ _ (accepted_head _ _ _ t3)
            (accepted_text _ _ (accepted_head _ _ _ t4))
            (accepted_text _ _ (accepted_head _ _ _ t5)),
      )
