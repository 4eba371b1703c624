-- ===== src/Processes/Scan/Verdict.antt =====
-- The scanners fail closed: what their scans claim, and on which platforms a scan can pass the
-- process gate.
use codex_storage_doctor.Prelude.{
  ℕ, String, ◌≡◌, refl, sym, subst, ◌⊎◌, inl, inr, Bool, true, false, not, List, [], ◌∷◌,
  starts_with, if◌then◌else◌,
}
use codex_storage_doctor.Text.{lower}
use codex_storage_doctor.Json.{null, bool, num, str, arr, obj, Json}
use codex_storage_doctor.Effects.{ok, World, Env}
use codex_storage_doctor.Effects.Yields.{
  Yields, Yields-pure, Yields-if, Yields-option, Yields-bind, Yields-if_known, Yields-weaken,
}
use codex_storage_doctor.Host.{Host}
use codex_storage_doctor.Models.{Finding}
use codex_storage_doctor.Models.Scan.{ProcessScan, scan_to_dict}
use codex_storage_doctor.Models.Scan.Gate.{gate_verdict-scan_to_dict}
use codex_storage_doctor.Mitigation.Gate.{gate_verdict}
use codex_storage_doctor.Mitigation.Gate.Verdict.{true_false}
use codex_storage_doctor.Processes.{evidence_partial}
use codex_storage_doctor.Processes.Linux.{Tally, result_of, unavailable_scan}
use codex_storage_doctor.Processes.Linux.Fds.{scan_linux}
use codex_storage_doctor.Processes.Linux.Fds.Tallies.{scan_linux-Yields}
use codex_storage_doctor.Processes.Macos.{Survey, scan_macos}
use codex_storage_doctor.Processes.Macos as Macos
use codex_storage_doctor.Processes.Windows.{scan_of, scan_windows}
use codex_storage_doctor.Processes.Scan.{unsupported_scan, scan_platform}

-- A partial finding that says why the evidence is incomplete.
abbrev pub Warned : List Finding → Type 0
Warned [] = ⊥
Warned (f ∷ fs) = (f.partial ≡ true) × (fs ≡ [])

-- The scan claims complete evidence and warns of nothing, or it denies complete evidence and gives
-- the one finding that says so.
unfoldable pub Honest : ProcessScan → Type 0
Honest s =
    ((s.status ≡ "ok") × (s.handle_evidence_supported ≡ true) × (s.findings ≡ []))
    ⊎ (((s.status ≡ "partial") ⊎ (s.status ≡ "unsupported"))
        × (s.handle_evidence_supported ≡ false)
        × Warned s.findings)

unfoldable pub Denies : ProcessScan → Type 0
Denies s = s.handle_evidence_supported ≡ false

unfoldable Denying : ProcessScan → Type 0
Denying s = Honest s × Denies s

unavailable-Denying : (text : String) → Denying (unavailable_scan text)
unfolding unavailable_scan Honest Denies Denying
unavailable-Denying text = (inr (inl refl, refl, (refl, refl)), refl)

unavailable-Honest : (text : String) → Honest (unavailable_scan text)
unfolding unavailable_scan Honest
unavailable-Honest text = inr (inl refl, refl, (refl, refl))

by_partial :
    (b : Bool) (s : ProcessScan)
    → s.status ≡ (if b then "partial" else "ok")
    → s.handle_evidence_supported ≡ not b
    → s.findings ≡ (if b then evidence_partial ∷ [] else [])
    → Honest s
unfolding Honest
by_partial true s p q r = inr (inl p, q, subst Warned (sym r) (refl, refl))
by_partial false s p q r = inl (p, q, r)

linux-Honest : (t : Tally) → Honest (result_of t)
unfolding result_of
linux-Honest t = by_partial t.partial (result_of t) refl refl refl

macos-Honest : (v : Survey) → Honest (Macos.result_of v)
unfolding Macos.result_of
macos-Honest v = by_partial v.partial (Macos.result_of v) refl refl refl

module _ (host : Host) where
  scan_linux-Honest :
      (paths : List String) (root : String) → Yields Honest (scan_linux host paths root)
  scan_linux-Honest paths root =
      scan_linux-Yields host Honest paths root unavailable-Honest linux-Honest

  scan_macos-Honest : (paths : List String) → Yields Honest (scan_macos host paths)
  unfolding scan_macos
  scan_macos-Honest paths = Yields-bind Honest _ _ (λ answer.
      Yields-option Honest answer _ _ (Yields-pure Honest _ (unavailable-Honest _)) (λ c.
        Yields-if Honest _ _ _ (Yields-pure Honest _ (unavailable-Honest _)) (
          Yields-bind Honest _ _ (λ databases.
            Yields-bind Honest _ _
              (λ v. Yields-bind Honest _ _ (λ u. Yields-pure Honest _ (macos-Honest u)))))))

  scan_of-Honest : (payload : Json) → Denying (scan_of host payload)
  unfolding scan_of unavailable_scan Honest Denies Denying
  scan_of-Honest null = (inr (inl refl, refl, (refl, refl)), refl)
  scan_of-Honest (bool b) = (inr (inl refl, refl, (refl, refl)), refl)
  scan_of-Honest (num n) = (inr (inl refl, refl, (refl, refl)), refl)
  scan_of-Honest (str s) = (inr (inl refl, refl, (refl, refl)), refl)
  scan_of-Honest (arr xs) = (inr (inl refl, refl, (refl, refl)), refl)
  scan_of-Honest (obj fs) = (inr (inl refl, refl, (refl, refl)), refl)

  scan_windows_denies : (paths : List String) → Yields Denying (scan_windows host paths)
  unfolding scan_windows
  scan_windows_denies paths = Yields-bind Denying _ _ (λ answer.
      Yields-option Denying answer _ _ (Yields-pure Denying _ (unavailable-Denying _)) (λ c.
        Yields-if Denying _ _ _ (Yields-pure Denying _ (unavailable-Denying _))
          (Yields-pure Denying _ (scan_of-Honest _))))

module _ (host : Host) (platform : String) where
  -- The platforms with evidence of open databases
  abbrev pub HasEvidence : Type 0
  HasEvidence =
      (starts_with (lower platform) "linux" ≡ true) ⊎ (starts_with (lower platform) "darwin" ≡ true)

  record Claims (s : ProcessScan) : Type 0 where
    honest : Honest s
    supported : s.handle_evidence_supported ≡ true → HasEvidence

  denied : (s : ProcessScan) → Denying s → Claims s
  unfolding Denying Denies
  denied s (h, d) = record { honest = h; supported = λ e. true_false d e }

  unsupported-Denying : Denying unsupported_scan
  unfolding Honest Denies Denying
  unsupported-Denying = (inr (inr refl, refl, (refl, refl)), refl)

  scan_platform-Claims :
      (paths : List String) (root : String) → Yields Claims (scan_platform host platform paths root)
  unfolding scan_platform
  scan_platform-Claims paths root =
      Yields-if_known Claims _ _ _
        (λ linux.
          Yields-weaken Honest Claims _ (λ s h. record { honest = h; supported = λ _. inl linux })
            (scan_linux-Honest host paths root))
        (λ _.
          Yields-if_known Claims _ _ _
            (λ darwin.
              Yields-weaken Honest Claims _
                (λ s h. record { honest = h; supported = λ _. inr darwin })
                (scan_macos-Honest host paths))
            (λ _.
              Yields-if Claims _ _ _
                (Yields-weaken Denying Claims _ denied (scan_windows_denies host paths))
                (Yields-pure Claims _ (denied unsupported_scan unsupported-Denying))))

  module _ (paths : List String) (root : String) (env : Env) (w : World) (s : ProcessScan) where
    -- A scan by the platform's own scanner either claims complete evidence and has no finding, or
    -- denies it and has the one partial finding that says why. There is no third case.
    pub scan_platform-Honest : (scan_platform host platform paths root env w).0 ≡ ok s → Honest s
    scan_platform-Honest e = ((scan_platform-Claims paths root).at env w s e).honest

    -- Only on Linux and macOS does a scan by the platform's own scanner pass the process gate.
    pub gate_verdict-scan_platform :
        (allowed : List ℕ)
        → (scan_platform host platform paths root env w).0 ≡ ok s
        → gate_verdict allowed (scan_to_dict s) ≡ ok tt
        → HasEvidence
    gate_verdict-scan_platform allowed e g =
        ((scan_platform-Claims paths root).at env w s e).supported
          (gate_verdict-scan_to_dict allowed s g).0.1
