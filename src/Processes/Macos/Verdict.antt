-- ===== src/Processes/Macos/Verdict.antt =====
-- x
