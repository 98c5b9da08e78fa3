-- ===== src/Live/Coordinator/Ingest/Once.antt =====
-- A receipt is applied once.
use openfrag.Common.{
  ℕ, ◌≡◌, refl, ap, true, false, List, [], ◌∷◌, arith, Result, ok, err, inl, inr, Bool-cases,
}
use openfrag.Common.Text.{Text, text_eq_refl}
use openfrag.Gsi.Wire.{
  EvidenceReceipt, StateOutput, TransitionFact, cumulative_kill_delta, cumulative_death_delta,
  round_kill_delta, health_depleted, round_end,
}
use openfrag.Live.Records.{World, receipt_id, LiveDiagnostic}
use openfrag.Live.Coordinator.{Live, Exec, pure, modify, continue, ◌>>=◌, ◌>>◌, continue-keeps}
use openfrag.Common.Int.{ℤ}
use openfrag.Live.Records.{CancelReason, stale, session_reset}
use openfrag.Live.Coordinator.Captures.{
  create_candidate, schedule_round_capture, cancel_capture, cancel_each, unsaved_ids,
  cancel_unsaved,
}
use openfrag.Live.Coordinator.Ingest.{
  on_facts, on_fact, on_output, IngestOutcome, nothing, is_processed, apply_receipt, ingest,
}

abbrev pub persisted : {W : Type 0} → World W → EvidenceReceipt → W → W
persisted w receipt world = (w.persist_receipt receipt world).0

module _ {W : Type 0} (w : World W) (receipt : EvidenceReceipt) (s : Live W) where
  -- A receipt that was processed before is stored again and nothing else: no candidate and no
  -- capture comes of it, and the coordinator stays as it was.
  pub ingest-again :
      is_processed (receipt_id receipt) s.core.processed_receipts ≡ true
      → (w.persist_receipt receipt s.world).1 ≡ ok tt
      → ingest w receipt s
        ≡ (record { core = s.core; world = (w.persist_receipt receipt s.world).0 }, ok nothing)
  unfolding ingest
  ingest-again before stored = ground arith

  -- If the receipt cannot be stored, the coordinator stays as it was.
  ingest-unstored :
      (e : LiveDiagnostic)
      → (w.persist_receipt receipt s.world).1 ≡ err e
      → ((ingest w receipt s).0.core ≡ s.core) × ((ingest w receipt s).1 ≡ err e)
  unfolding ingest
  ingest-unstored e failed = ground arith

-- What a step leaves of the processed receipts.
abbrev pub HasProcessed : {W : Type 0} → List Text → Live W → Type 0
HasProcessed processed t = t.core.processed_receipts ≡ processed

module _ {W : Type 0} (w : World W) (processed : List Text) where
  create_candidate-keeps :
      (receipt : EvidenceReceipt) (id : Text) (kills : ℤ) (s : Live W)
      → HasProcessed processed s
      → HasProcessed processed (create_candidate w receipt id kills s).0
  unfolding create_candidate
  create_candidate-keeps receipt id kills s h = ground arith

  schedule_round_capture-keeps :
      (receipt : EvidenceReceipt) (id : Text) (completed : ℕ) (s : Live W)
      → HasProcessed processed s
      → HasProcessed processed (schedule_round_capture w receipt id completed s).0
  unfolding schedule_round_capture
  schedule_round_capture-keeps receipt id completed s h = ground arith

  cancel_capture-keeps :
      (reason : CancelReason) (id : Text) (s : Live W)
      → HasProcessed processed s
      → HasProcessed processed (cancel_capture w reason id s).0
  unfolding cancel_capture
  cancel_capture-keeps reason id s h = ground arith

  cancel_each-keeps :
      (reason : CancelReason) (ids : List Text) (s : Live W)
      → HasProcessed processed s
      → HasProcessed processed (cancel_each w reason ids s).0
  cancel_each-keeps reason [] s h = unfold cancel_each in h
  cancel_each-keeps reason (id ∷ ids) s h = rest (λ t k. cancel_each-keeps reason ids t k)
    where
      rest :
          ((t : Live W)
            → HasProcessed processed t
            → HasProcessed processed (cancel_each w reason ids t).0)
          → HasProcessed processed (cancel_each w reason (id ∷ ids) s).0
      rest ih =
          unfold cancel_each in
          continue-keeps (λ _. cancel_each w reason ids) (HasProcessed processed)
            (cancel_capture w reason id s) (cancel_capture-keeps reason id s h) (λ a t k. ih t k)

  on_output-keeps :
      (output : StateOutput) (s : Live W)
      → HasProcessed processed s
      → HasProcessed processed (on_output w output s).0
  unfolding cancel_unsaved
  on_output-keeps output s h = ground (
    arith,
    cancel_each-keeps stale (unsaved_ids w s.core.captures) s,
    cancel_each-keeps session_reset (unsaved_ids w s.core.captures) s,
  )

  on_fact-keeps :
      (receipt : EvidenceReceipt) (id : Text) (fact : TransitionFact) (outcome : IngestOutcome)
      (s : Live W)
      → HasProcessed processed s
      → HasProcessed processed (on_fact w receipt id fact outcome s).0
  on_fact-keeps receipt id (round_kill_delta previous current delta) outcome s h =
      ground (arith, create_candidate-keeps receipt id current s h)
  on_fact-keeps receipt id (round_end completed next) outcome s h =
      ground (arith, schedule_round_capture-keeps receipt id completed s h)
  on_fact-keeps receipt id (cumulative_kill_delta previous current delta) outcome s h = h
  on_fact-keeps receipt id (cumulative_death_delta previous current delta) outcome s h = h
  on_fact-keeps receipt id (health_depleted previous current) outcome s h = h

  on_facts-keeps :
      (receipt : EvidenceReceipt) (id : Text) (facts : List TransitionFact)
      (outcome : IngestOutcome) (s : Live W)
      → HasProcessed processed s
      → HasProcessed processed (on_facts w receipt id facts outcome s).0
  on_facts-keeps receipt id [] outcome s h = unfold on_facts in h
  on_facts-keeps receipt id (fact ∷ facts) outcome s h =
      rest (λ next t k. on_facts-keeps receipt id facts next t k)
    where
      rest :
          ((next : IngestOutcome) (t : Live W)
            → HasProcessed processed t
            → HasProcessed processed (on_facts w receipt id facts next t).0)
          → HasProcessed processed (on_facts w receipt id (fact ∷ facts) outcome s).0
      rest ih =
          unfold on_facts in
          continue-keeps (λ next. on_facts w receipt id facts next) (HasProcessed processed)
            (on_fact w receipt id fact outcome s) (on_fact-keeps receipt id fact outcome s h) ih

  -- What ends with success has marked the receipt as processed, what fails has not.
  abbrev pub IsMarked : Text → Live W × Result LiveDiagnostic IngestOutcome → Type 0
  IsMarked id (t, ok outcome) = HasProcessed (id ∷ processed) t
  IsMarked id (t, err e) = HasProcessed processed t

  abbrev mark : Text → IngestOutcome → Exec W IngestOutcome
  mark id outcome = do
    modify (λ c. record c { processed_receipts = id ∷ c.processed_receipts })
    pure outcome

  mark-IsMarked :
      (id : Text) (m : Live W × Result LiveDiagnostic IngestOutcome)
      → HasProcessed processed m.0
      → IsMarked id (continue (mark id) m)
  mark-IsMarked id (t, ok outcome) h = ap (λ ids. id ∷ ids) h
  mark-IsMarked id (t, err e) h = h

  steps-IsMarked :
      (id : Text) (m : Live W × Result LiveDiagnostic ℕ) (f : ℕ → Exec W IngestOutcome)
      → HasProcessed processed m.0
      → ((n : ℕ) (t : Live W) → HasProcessed processed t → HasProcessed processed (f n t).0)
      → IsMarked id (continue (λ n. f n >>= mark id) m)
  steps-IsMarked id (t, ok n) f h k = mark-IsMarked id (f n t) (k n t h)
  steps-IsMarked id (t, err e) f h k = h

  apply_receipt-IsMarked :
      (receipt : EvidenceReceipt) (id : Text) (s : Live W)
      → HasProcessed processed s
      → IsMarked id (apply_receipt w receipt id s)
  unfolding apply_receipt
  apply_receipt-IsMarked receipt id s h =
      steps-IsMarked id (on_output w receipt.output s)
        (λ n. on_facts w receipt id receipt.facts (record nothing { captures_cancelled = n }))
        (on_output-keeps receipt.output s h)
        (λ n t k. on_facts-keeps receipt id receipt.facts _ t k)

module _ {W : Type 0} (w : World W) (receipt : EvidenceReceipt) (s : Live W) where
  -- The first ingestion of a receipt that the store takes ends in one of two ways. If it returns
  -- an outcome, the receipt's id is put before the processed ones, and nothing else is. If it
  -- fails, the processed receipts stay as they were, so that they do not keep the receipt from
  -- being ingested again.
  pub ingest-marks :
      is_processed (receipt_id receipt) s.core.processed_receipts ≡ false
      → (w.persist_receipt receipt s.world).1 ≡ ok tt
      → IsMarked w s.core.processed_receipts (receipt_id receipt) (ingest w receipt s)
  unfolding ingest
  ingest-marks new stored = ground (
    arith,
    apply_receipt-IsMarked w s.core.processed_receipts receipt (receipt_id receipt)
        (record { core = s.core; world = (w.persist_receipt receipt s.world).0 }) refl,
  )

  is_processed-ingest :
      (outcome : IngestOutcome)
      → (w.persist_receipt receipt s.world).1 ≡ ok tt
      → (ingest w receipt s).1 ≡ ok outcome
      → is_processed (receipt_id receipt) (ingest w receipt s).0.core.processed_receipts ≡ true
  is_processed-ingest outcome stored done =
      elim (Bool-cases (is_processed (receipt_id receipt) s.core.processed_receipts)) [
        | inl before ↦ rw (ingest-again w receipt s before stored) before
        | inr new ↦ marked (ingest w receipt s) done (ingest-marks new stored)
      ]
    where
      marked :
          (m : Live W × Result LiveDiagnostic IngestOutcome)
          → m.1 ≡ ok outcome
          → IsMarked w s.core.processed_receipts (receipt_id receipt) m
          → is_processed (receipt_id receipt) m.0.core.processed_receipts ≡ true
      marked (t, ok _) e h = rw h (rw (text_eq_refl (receipt_id receipt)))
      marked (t, err _) e h = cc

  -- A receipt counts once. When its ingestion has returned an outcome, ingesting it again, with the
  -- store taking it again, creates no candidate and no capture: the coordinator stays as it was,
  -- and what lies outside has seen the second storing and nothing else.
  pub ingest-twice :
      (outcome : IngestOutcome)
      → (w.persist_receipt receipt s.world).1 ≡ ok tt
      → (ingest w receipt s).1 ≡ ok outcome
      → (w.persist_receipt receipt (ingest w receipt s).0.world).1 ≡ ok tt
      → ingest w receipt (ingest w receipt s).0 ≡ (
        record {
          core = (ingest w receipt s).0.core;
          world = (w.persist_receipt receipt (ingest w receipt s).0.world).0;
        },
        ok nothing,
      )
  ingest-twice outcome stored done stored_again =
      ingest-again w receipt (ingest w receipt s).0 (is_processed-ingest outcome stored done)
        stored_again
