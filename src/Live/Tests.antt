-- ===== src/Live/Tests.antt =====
-- The theorems on crates/openfrag-live/src/lib.rs at a concrete coordinator, with an outside that is
-- the time on its clock and takes all that it is given.
use openfrag.Common.{ℕ, ◌≡◌, refl, true, false, none, some, [], ◌∷◌, ok}
use openfrag.Common.Text.{ascii}
use openfrag.Common.Map
use openfrag.Gsi.Wire.{EvidenceReceipt, healthy, round_end}
use openfrag.Capture.Supervisor.State.{auto_round_end as auto_provenance, signalled}
use openfrag.Live.Records.{duration_ms, CaptureRecord, auto_round_end, scheduled, World, receipt_id}
use openfrag.Highlight.Candidate.{new_candidate}
use openfrag.Live.Coordinator.{Live}
use openfrag.Live.Coordinator.Ingest.{IngestOutcome, nothing, on_facts, apply_receipt, ingest}
use openfrag.Live.Coordinator.Captures.{schedule_round_capture}
use openfrag.Live.Coordinator.Captures.Rounds.{schedule_round_capture-once}
use openfrag.Live.Coordinator.Ingest.Once.{IsMarked, ingest-marks, ingest-twice}

abbrev world : World ℕ
world = record {
  persist_receipt = λ receipt at. (at, ok tt);
  upsert_candidate = λ candidate at. (at, ok tt);
  upsert_capture = λ capture at. (at, ok tt);
  available_from_ms = λ at. (at, 0);
  request_save =
      λ id provenance at. (at, ok (record { recorder_request_id = id; disposition = signalled }));
  now_ms = λ at. (at, at);
  schedule = λ timer deadline_ms at. (at, ok tt);
  cancel = λ timer at. (at, ok tt);
}

abbrev receipt : EvidenceReceipt
receipt = record {
  sequence = 7;
  received_at = 80_000_000_000;
  payload_hash = ascii "h";
  presence = record {
    provider = true;
    provider_timestamp = false;
    map = true;
    map_round = true;
    player = true;
    player_state = true;
    player_health = true;
    player_round_kills = true;
    player_weapons = false;
    match_stats = true;
    auth = true;
    auth_token = true;
    player_steamid = true;
  };
  context = record {
    map_hash = some (ascii "m");
    observed_round = some 4;
    provider_timestamp = none;
    round_kills = none;
    health = none;
  };
  output = healthy;
  facts = round_end 3 4 ∷ [];
}

abbrev fresh : Live ℕ
fresh = record {
  core = record {
    capture_session_id = ascii "s";
    processed_receipts = [];
    candidates = [];
    captures = [];
    timers = [];
    manual_ordinal = 0;
  };
  world = 80_000;
}

ingest-marks_example : IsMarked world [] (receipt_id receipt) (ingest world receipt fresh)
ingest-marks_example = ingest-marks world receipt fresh refl refl

abbrev one_capture : IngestOutcome
one_capture = record { candidates_created = 0; captures_scheduled = 1; captures_cancelled = 0 }

ingest-twice_example :
    ingest world receipt (ingest world receipt fresh).0
    ≡ (record { core = (ingest world receipt fresh).0.core; world = 80_000 }, ok nothing)
unfolding ingest apply_receipt on_facts schedule_round_capture Map.get new_candidate duration_ms
ingest-twice_example = ingest-twice world receipt fresh one_capture refl refl refl

abbrev later_receipt : EvidenceReceipt
later_receipt = record receipt { sequence = 8; received_at = 81_000_000_000 }

schedule_round_capture-once_example :
    schedule_round_capture world later_receipt
      (ascii "h:8")
      3
      (schedule_round_capture world receipt (ascii "h:7") 3 fresh).0
    ≡ ((schedule_round_capture world receipt (ascii "h:7") 3 fresh).0, ok false)
unfolding schedule_round_capture Map.get new_candidate duration_ms
schedule_round_capture-once_example =
    schedule_round_capture-once world receipt later_receipt (ascii "h:7") (ascii "h:8") 3 fresh refl
      refl

abbrev capture : CaptureRecord
capture = record {
  id = ascii "auto:m:3";
  kind = auto_round_end;
  round_id = some (ascii "m:3");
  provenance = auto_provenance;
  source_receipt_ids = [];
  candidate = none;
  final_labels = [];
  round_end_ms = some 80_000;
  deadline_ms = some 90_000;
  timer = some (ascii "t");
  window = none;
  raw_coverage = none;
  status = scheduled;
}

abbrev waiting : ℕ → Live ℕ
waiting now = record {
  core = record fresh.core {
    captures = (ascii "auto:m:3", capture) ∷ [];
    timers = (ascii "t", ascii "auto:m:3") ∷ [];
  };
  world = now;
}
