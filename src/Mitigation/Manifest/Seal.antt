-- ===== src/Mitigation/Manifest/Seal.antt =====
-- `_seal_manifest` against the digest tests of `validate_manifest`.
use codex_storage_doctor.Prelude.{
  String, ◌==◌, Bool, true, false, ◌||◌, ◌≡◌, contains, refl, sym, ap, ◌∙◌,
}
use codex_storage_doctor.Json.{Fields, str, get, put, without}
use codex_storage_doctor.Json.Laws.{get-put, get-put_other, without-put}
use codex_storage_doctor.Host.{Host}
use codex_storage_doctor.Mitigation.Manifest.{
  sealed_keys, manifest_digest, rollback_token, seal_manifest,
}

or_left : (a b : Bool) → (a || (b || false)) ≡ false → a ≡ false
or_left true b h = cc
or_left false b h = refl

or_right : (a b : Bool) → (a || (b || false)) ≡ false → b ≡ false
or_right true b h = cc
or_right false true h = cc
or_right false false h = refl

module _ (host : Host) where
  without-seal : (m : Fields) → without sealed_keys (seal_manifest host m) ≡ without sealed_keys m
  unfolding seal_manifest
  without-seal m =
      let digest = manifest_digest host m in
      without-put sealed_keys "rollback_token" _ (put "manifest_digest" (str digest) m) refl
      ∙ without-put sealed_keys "manifest_digest" (str digest) m refl

  -- Sealing does not change the digest.
  pub digest-seal :
      (m : Fields) → manifest_digest host (seal_manifest host m) ≡ manifest_digest host m
  unfolding manifest_digest
  digest-seal m = ap (λ f. host.sha256 (host.dumps f)) (without-seal m)

  -- A sealed manifest holds the digest of its other keys and the token of that digest, and it keeps
  -- the value of every other key.
  pub seal-verifies :
      (m : Fields)
      → let s = seal_manifest host m in
        let digest = manifest_digest host s in
        (get "manifest_digest" s ≡ str digest)
        × (get "rollback_token" s ≡ str (rollback_token host digest))
        × ((k : String) → contains sealed_keys k ≡ false → get k s ≡ get k m)
  unfolding seal_manifest
  seal-verifies m =
      let digest = manifest_digest host m in
      let marked = put "manifest_digest" (str digest) m in
      let same = sym (digest-seal m) in
      (
        get-put_other "manifest_digest" "rollback_token" _ marked refl
            ∙ get-put "manifest_digest" (str digest) m
            ∙ ap (λ d. str d) same,
        get-put "rollback_token" (str (rollback_token host digest)) marked
            ∙ ap (λ d. str (rollback_token host d)) same,
        λ k h.
            get-put_other k "rollback_token" _ marked (or_right ("manifest_digest" == k) _ h)
            ∙ get-put_other k "manifest_digest" _ m (or_left ("manifest_digest" == k) _ h),
      )
