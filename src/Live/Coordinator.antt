-- ===== src/Live/Coordinator.antt =====
-- `Coordinator` of crates/openfrag-live/src/lib.rs: its state, what lies outside, and errors that
-- keep what was done before them.
pub mod Saves
pub mod Captures
pub mod Ingest
pub mod Timers
use openfrag.Common.{
  ◌≡◌, refl, ℕ, Bool, true, false, Option, none, some, List, [], ◌∷◌, Result, ok, err,
  if◌then◌else◌,
}
use openfrag.Common.Text.{Text}
use openfrag.Common.Map
use openfrag.Live.Records.{CandidateRecord, CaptureRecord, TimerId, LiveDiagnostic, World}

pub record Coordinator : Type 0 where
  pub capture_session_id : Text
  pub processed_receipts : List Text
  pub candidates : List (Text × CandidateRecord)
  pub captures : List (Text × CaptureRecord)
  pub timers : List (TimerId × Text)
  pub manual_ordinal : ℕ

unfoldable pub new : Text → Coordinator
new capture_session_id = record {
  capture_session_id = capture_session_id;
  processed_receipts = [];
  candidates = [];
  captures = [];
  timers = [];
  manual_ordinal = 0;
}

pub record Live (W : Type 0) : Type 0 where
  pub core : Coordinator
  pub world : W

abbrev pub Exec : Type 0 → Type 0 → Type 0
Exec W A = Live W → Live W × Result LiveDiagnostic A

module _ {W A : Type 0} where
  abbrev pub pure : A → Exec W A
  pure a s = (s, ok a)

  abbrev pub raise : LiveDiagnostic → Exec W A
  raise e s = (s, err e)

  abbrev in_world : Coordinator → W × Result LiveDiagnostic A → Live W × Result LiveDiagnostic A
  in_world core (world, result) = (record { core = core; world = world }, result)

  -- A call of a trait's method.
  abbrev pub call : (W → W × Result LiveDiagnostic A) → Exec W A
  call f s = in_world s.core (f s.world)

  abbrev keep_core : Coordinator → W × A → Live W × Result LiveDiagnostic A
  keep_core core (world, a) = (record { core = core; world = world }, ok a)

  -- A reading, of a clock for one, which may differ the next time.
  abbrev pub read : (W → W × A) → Exec W A
  read f s = keep_core s.core (f s.world)

abbrev pub modify : {W : Type 0} → (Coordinator → Coordinator) → Exec W (Unit {0})
modify f s = (record s { core = f s.core }, ok tt)

module _ {W A B : Type 0} where
  abbrev pub continue :
      (A → Exec W B) → Live W × Result LiveDiagnostic A → Live W × Result LiveDiagnostic B
  continue f (s, ok a) = f a s
  continue f (s, err e) = (s, err e)

infixl 5 ◌>>=◌ ◌>>◌
abbrev pub ◌>>=◌ : {W A B : Type 0} → Exec W A → (A → Exec W B) → Exec W B
◌>>=◌ m f s = continue f (m s)

abbrev pub ◌>>◌ : {W B : Type 0} → Exec W (Unit {0}) → Exec W B → Exec W B
m >> k = m >>= λ _. k

abbrev pub with_capture : Text → CaptureRecord → Coordinator → Coordinator
with_capture id capture c = record c { captures = Map.insert id capture c.captures }

module _ {W A B : Type 0} (f : A → Exec W B) where
  -- What the rest guarantees where it returns `b` holds of a block that returns `b`.
  pub continue-returns {ℓ} :
      (P : Live W → Type ℓ) (m : Live W × Result LiveDiagnostic A) {b : B}
      → ((a : A) (t : Live W) → (f a t).1 ≡ ok b → P (f a t).0)
      → (continue f m).1 ≡ ok b
      → P (continue f m).0
  continue-returns P (s, ok a) k h = k a s h
  continue-returns P (s, err e) k h = cc

  -- What holds of the state behind the first action, and is kept by the rest, holds at the end.
  pub continue-keeps {ℓ} :
      (P : Live W → Type ℓ) (m : Live W × Result LiveDiagnostic A)
      → P m.0
      → ((a : A) (t : Live W) → P t → P (f a t).0)
      → P (continue f m).0
  continue-keeps P (s, ok a) h k = k a s h
  continue-keeps P (s, err e) h k = h
