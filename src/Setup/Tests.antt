-- ===== src/Setup/Tests.antt =====
-- The theorems on crates/openfrag-setup/src/setup_flow.rs at concrete facts.
use openfrag.Common.{All}
use openfrag.Common.Text.{ascii}
use openfrag.Setup.{SetupFact, fact_ready, fact_blocked, SetupFacts, evaluate_steps}
use openfrag.Setup.Blocking.{IsExplained, evaluate_steps-IsExplained}

abbrev fine : SetupFact
fine = fact_ready (ascii "found")

abbrev facts : SetupFacts
facts = record {
  storage = fine;
  local_steam_identity = fine;
  gsi_config = fact_blocked (ascii "no game") (ascii "install it");
  capture_recorder = fine;
  ffprobe = fact_blocked (ascii "no ffprobe") (ascii "install ffmpeg");
  test_capture = fine;
  local_demo_validation = fine;
  manual_flag = fine;
}

evaluate_steps-IsExplained_example :
    All (IsExplained facts (evaluate_steps facts)) (evaluate_steps facts)
evaluate_steps-IsExplained_example = evaluate_steps-IsExplained facts
