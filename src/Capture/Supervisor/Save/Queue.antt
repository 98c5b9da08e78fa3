-- ===== src/Capture/Supervisor/Save/Queue.antt =====
-- At most one save is under way and at most one more is queued behind it.
use mathlib.Core.Path.{subst}
use openfrag.Common.{◌≡◌, Bool, true, false, Option, none, some, List, [], ◌∷◌, arith, ◌||◌}
use openfrag.Common.Text.{Text}
use openfrag.Common.FilePath.{FilePath}
use openfrag.Capture.Supervisor.State.{
  SaveProvenance, manual_flag, auto_round_end, PendingSave, Supervisor, SignalEnv,
}
use openfrag.Capture.Supervisor.Save.{enqueue, request_save, acknowledge, OutputEnv}

-- A save is queued only behind one that is under way.
pub record IsOrdered (s : Supervisor) : Type 0 where
  pub behind : s.in_flight ≡ none → s.queued ≡ none

pub request_save-IsOrdered :
    (env : SignalEnv) (id : Text) (p : SaveProvenance) (s : Supervisor)
    → IsOrdered s
    → IsOrdered (request_save env id p s).0
unfolding request_save
request_save-IsOrdered env id p s h = ground arith

pub acknowledge-IsOrdered :
    (env : OutputEnv) (path : FilePath) (s : Supervisor)
    → IsOrdered s
    → IsOrdered (acknowledge env path s).0
unfolding acknowledge
acknowledge-IsOrdered env path s h = ground arith

abbrev pub Request : Type 0
Request = Text × SaveProvenance

-- The requests that come one after another, each with its own answers of process and clock.
unfoldable pub request_all : Supervisor → List (SignalEnv × Request) → Supervisor
request_all s [] = s
request_all s ((env, (id, p)) ∷ rest) = request_all (request_save env id p s).0 rest

abbrev pub is_manual : SaveProvenance → Bool
is_manual manual_flag = true
is_manual auto_round_end = false

abbrev pub any_manual : List (SignalEnv × Request) → Bool
any_manual [] = false
any_manual ((env, (id, p)) ∷ rest) = is_manual p || any_manual rest

-- One follow-up, under that identity, manual or not.
abbrev pub IsFollowUp : Text → Bool → Option PendingSave → Type 0
IsFollowUp id manual queued =
    (pending : PendingSave) × (queued ≡ some pending)
    × (pending.recorder_request_id ≡ id)
    × (is_manual pending.provenance ≡ manual)

-- The busy supervisor after one more request.
abbrev IsBusyAfter : PendingSave → Text → Bool → Supervisor → Type 0
IsBusyAfter busy id manual s =
    (s.running ≡ true) × (s.in_flight ≡ some busy) × IsFollowUp id manual s.queued

request_save-busy :
    (env : SignalEnv) (id : Text) (p : SaveProvenance) (s : Supervisor) (busy pending : PendingSave)
    → s.running ≡ true
    → s.in_flight ≡ some busy
    → s.queued ≡ some pending
    → IsBusyAfter busy pending.recorder_request_id
        (is_manual pending.provenance || is_manual p)
        (request_save env id p s).0
unfolding request_save
request_save-busy env id manual_flag s busy pending r f q = (
  ground arith,
  ground arith,
  (enqueue id manual_flag (some pending), ground arith, ground arith, ground arith),
)
request_save-busy env id auto_round_end s busy pending r f q = (
  ground arith,
  ground arith,
  (enqueue id auto_round_end (some pending), ground arith, ground arith, ground arith),
)

request_save-first :
    (env : SignalEnv) (id : Text) (p : SaveProvenance) (s : Supervisor) (busy : PendingSave)
    → s.running ≡ true
    → s.in_flight ≡ some busy
    → s.queued ≡ none
    → IsBusyAfter busy id (is_manual p) (request_save env id p s).0
unfolding request_save
request_save-first env id p s busy r f q =
    (ground arith, ground arith, (enqueue id p none, ground arith, ground arith, ground arith))

request_all-busy :
    (s : Supervisor) (requests : List (SignalEnv × Request)) (busy : PendingSave) (id : Text)
    (manual : Bool)
    → IsBusyAfter busy id manual s
    → IsBusyAfter busy id (manual || any_manual requests) (request_all s requests)
unfolding request_all
request_all-busy s [] busy id manual (r, f, (pending, q, same, is)) =
    (r, f, (pending, q, same, ground arith))
request_all-busy s ((env, (id', p)) ∷ rest) busy id manual (r, f, (pending, q, same, is)) =
    subst (λ (b : Bool). IsBusyAfter busy id b (request_all (request_save env id' p s).0 rest))
      (ground arith)
      (request_all-busy (request_save env id' p s).0 rest busy id (manual || is_manual p)
        (rw (← same, ← is) (request_save-busy env id' p s busy pending r f q)))

-- Requests that come while a save is under way, the recorder runs and nothing is queued yet leave
-- that save alone and share one follow-up: it has the identity of the first of them, and counts as
-- manual exactly if one of them is.
pub request_all-coalesces :
    (s : Supervisor) (env : SignalEnv) (id : Text) (p : SaveProvenance)
    (later : List (SignalEnv × Request)) (busy : PendingSave)
    → s.running ≡ true
    → s.in_flight ≡ some busy
    → s.queued ≡ none
    → let after = request_all s ((env, (id, p)) ∷ later) in
      (after.in_flight ≡ some busy)
      × IsFollowUp id (any_manual ((env, (id, p)) ∷ later)) after.queued
unfolding request_all
request_all-coalesces s env id p later busy r f q =
    let h =
      request_all-busy (request_save env id p s).0 later busy id (is_manual p)
        (request_save-first env id p s busy r f q) in
    (h.1, h.2)
