-- ===== src/Clips/Model/Durable.antt =====
-- What a stored clip must satisfy to be loaded.
use openfrag.Common.{◌≤◌, ◌<◌, ◌≡◌, ◌≢◌, false, Option, none, some, [], All}
use openfrag.Common.Text.{Text}
use openfrag.Clips.Model.{
  ClipOrigin, auto_highlight, manual_flag, ReviewState, provisional, reviewed, rejected, Clip,
  DerivativeProvenance, ArtifactProvenance,
}

abbrev pub IsReceipt : Text → Type 0
IsReceipt receipt = receipt ≢ []

-- A highlight has a trigger and evidence, a flag its own receipt, and no receipt is empty.
abbrev pub IsEvidenced : ClipOrigin → Type 0
IsEvidenced (auto_highlight trigger_receipts evidence_receipts) =
    (trigger_receipts ≢ [])
    × (evidence_receipts ≢ [])
    × All IsReceipt trigger_receipts
    × All IsReceipt evidence_receipts
IsEvidenced (manual_flag flag_receipt_id flag_time_ms overlapping_auto_receipts) =
    (flag_receipt_id ≢ []) × All IsReceipt overlapping_auto_receipts

-- A provisional clip is at revision 0 with nothing of a review in it; any other is past revision 0.
abbrev pub IsReviewedRight : ReviewState → Clip → Type 0
IsReviewedRight provisional c =
    (c.revision ≡ 0) × (c.note ≡ []) × (c.tags ≡ []) × (c.favorite ≡ false) × (c.derivative ≡ none)
IsReviewedRight (reviewed at) c = 0 < c.revision
IsReviewedRight (rejected at) c = 0 < c.revision

-- A derivative comes from the source capture, is another artifact, and is cut from within it.
abbrev pub IsDerivativeRight : Option DerivativeProvenance → ArtifactProvenance → Type 0
IsDerivativeRight none source = Unit
IsDerivativeRight (some d) source =
    (d.source_artifact_id ≡ source.artifact_id)
    × (d.artifact.artifact_id ≢ source.artifact_id)
    × (d.trim.end_ms ≤ source.duration_ms)

pub record IsDurable (c : Clip) : Type 0 where
  pub session : c.capture_session_id ≢ []
  pub evidence : IsEvidenced c.origin
  pub review : IsReviewedRight c.review_state c
  pub derivative : IsDerivativeRight c.derivative c.source_capture
