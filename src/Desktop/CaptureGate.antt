-- ===== src/Desktop/CaptureGate.antt =====
-- `CaptureGate` of apps/desktop/src/generation.rs: one capture at a time, one current query, one
-- flight per content. An `Instant` is a number of milliseconds; a cancellation token is the number
-- of its creation, and the tokens that were cancelled are kept in a list.
pub mod Latest
use lvos.Base.{
  ℕ, ◌+◌, ◌-◌, Bool, true, false, ◌||◌, Option, none, some, List, [], ◌∷◌, ltb, ◌==◌, nat_eq,
  list_eq, if◌then◌else◌,
}
use lvos.Base.Table.{Table, get, insert, remove}
use lvos.Base.{saturating_add}

pub record QueryTicket : Type 0 where
  pub generation : ℕ
  pub cancellation : ℕ

pub data CaptureAdmission : Type 0 where
  admitted busy debounced : CaptureAdmission

pub record CaptureState : Type 0 where
  pub capture_active : Bool
  pub last_trigger : Option ℕ

pub record GenerationState : Type 0 where
  pub current : ℕ
  pub current_cancellation : ℕ
  pub in_flight_content : Table (List ℕ) (Unit {0})
  pub cancelled : List ℕ

pub record CaptureGate : Type 0 where
  pub debounce : ℕ
  pub capture : CaptureState
  pub generation : GenerationState

abbrev pub new_gate : ℕ → CaptureGate
new_gate debounce = record {
  debounce = debounce;
  capture = record { capture_active = false; last_trigger = none };
  generation = record {
    current = 0;
    current_cancellation = 0;
    in_flight_content = [];
    cancelled = [];
  };
}

-- `now.saturating_duration_since(previous) < debounce`
abbrev pub is_early : Option ℕ → ℕ → ℕ → Bool
is_early none debounce now = false
is_early (some previous) debounce now = ltb (now - previous) debounce

unfoldable pub admit_capture : CaptureGate → ℕ → CaptureAdmission × CaptureGate
admit_capture gate now =
    if gate.capture.capture_active
    then (busy, gate)
    else if is_early gate.capture.last_trigger gate.debounce now
    then (debounced, gate)
    else (
      admitted,
      record gate { capture = record { capture_active = true; last_trigger = some now } },
    )

-- The drop of a `CapturePermit`.
unfoldable pub drop_capture : CaptureGate → CaptureGate
drop_capture gate = record gate { capture = record gate.capture { capture_active = false } }

unfoldable pub begin_query : CaptureGate → QueryTicket × CaptureGate
begin_query gate =
    let state = gate.generation in
    let current = saturating_add state.current 1 in
    let token = state.current_cancellation + 1 in
    (
      record { generation = current; cancellation = token },
      record gate {
        generation = record {
          current = current;
          current_cancellation = token;
          in_flight_content = state.in_flight_content;
          cancelled = state.current_cancellation ∷ state.cancelled;
        };
      },
    )

unfoldable pub is_current : CaptureGate → ℕ → Bool
is_current gate generation = gate.generation.current == generation

-- Whether the token of a ticket was cancelled.
unfoldable pub is_cancelled : List ℕ → ℕ → Bool
is_cancelled [] token = false
is_cancelled (other ∷ tokens) token = other == token || is_cancelled tokens token

-- `HashSet::insert` refuses a key that is there.
unfoldable pub begin_content_flight : CaptureGate → List ℕ → Option CaptureGate
begin_content_flight gate key = elim (insert gate.generation.in_flight_content key tt) [
  | none ↦ none
  | some flights ↦
      some (record gate { generation = record gate.generation { in_flight_content = flights } })
]

-- The drop of a `ContentFlightPermit`.
unfoldable pub drop_flight : CaptureGate → List ℕ → CaptureGate
drop_flight gate key = record gate {
  generation = record gate.generation {
    in_flight_content = remove gate.generation.in_flight_content key;
  };
}
