-- ===== src/Desktop/Examples.antt =====
-- Runs of the desktop's state machines.
pub mod Pulling
use lvos.Base.{
  ℕ, ◌+◌, ◌≤◌, ◌≡◌, refl, ap, Result, ok, err, true, false, none, some, List, [], ◌∷◌, All, arith,
  nat_eq, String, string_eq, if◌then◌else◌, ◌==◌,
}
use lvos.Base.Int.{pos}
use lvos.Base.Table.{get, put}
use lvos.Protocol
use lvos.Protocol.{PushEvent, PushAck, applied}
use lvos.Storage.Model.{OutboxEvent, AcknowledgedEvent, favorite_delete}
use lvos.Desktop.SyncEngine.{
  collect, match_events, match_acknowledgements, retry_timestamp, retry_delay, max_attempt, jitter,
  byte_at,
}
use lvos.Desktop.SyncEngine.Matching.{
  matched_events, match_acknowledgements_sound, retry_timestamp-bounds,
}
use lvos.Desktop.LookupCard.{generation, apply_all, loading, error, unsupported_input}
use lvos.Desktop.LookupCard.Current.{apply_all-generation}
use lvos.Desktop.CaptureGate.{
  CaptureGate, QueryTicket, new_gate, begin_query, admit_capture, is_current, is_cancelled,
}
use lvos.Desktop.CaptureGate.Latest
use lvos.Desktop.CaptureGate.Latest.{IsStale, Reaches-latest}
use mathlib.Core.List.{Memᴰ}
use lvos.Desktop.Confirmation.{State, initial, begin, resolve, invalidate}
use lvos.Desktop.Confirmation.Invalidated
use lvos.Desktop.Confirmation.Invalidated.{invalidate-refused}
use lvos.Desktop.Confirmation.Single
use lvos.Desktop.Confirmation.Single.{IsFalling, bound_of, Reaches-IsFalling}

abbrev captured_gate : CaptureGate
captured_gate = (admit_capture (new_gate 250) 7).1

abbrev first_query : QueryTicket × CaptureGate
first_query = begin_query captured_gate

abbrev second_query : QueryTicket × CaptureGate
second_query = begin_query first_query.1

Reaches-latest_example :
    (is_current second_query.1 second_query.0.generation ≡ true)
    × (is_cancelled second_query.1.generation.cancelled second_query.0.cancellation ≡ false)
    × All (IsStale second_query.1) (first_query.0 ∷ [])
Reaches-latest_example =
    Reaches-latest second_query.0 (first_query.0 ∷ [])
      (Latest.queried (Latest.queried (Latest.captured 7 Latest.created))) (omega arith)

abbrev asked : State
asked = (begin initial 0).1

abbrev answered : State
answered = (resolve asked 1 true).1

Reaches-IsFalling_example : IsFalling (bound_of answered answered.pending) answered.sent
Reaches-IsFalling_example =
    Reaches-IsFalling (Single.resolved 1 true (Single.begun 0 Single.started))

asked_run : asked.pending ≡ some 1
unfolding begin
asked_run = refl

-- The answer comes after the invalidation.
abbrev late : State
late = (resolve (invalidate asked) 1 true).1

invalidate-refused_example :
    Memᴰ (1, false) late.sent × (¬ Memᴰ (1, true) late.sent) × (resolve late 1 true ≡ (false, late))
invalidate-refused_example =
    invalidate-refused true (Single.begun 0 Single.started) asked_run
      (Invalidated.resolved 1 true Invalidated.same)

-- A UUID is printed by some function; here by one that keeps its first byte.
abbrev printed : List ℕ → String
printed [] = ""
printed (byte ∷ bytes) = if byte == 1 then "e1" else "e2"

abbrev deleted : OutboxEvent
deleted = record {
  event_id = 1 ∷ [];
  content_key = 7 ∷ [];
  operation = favorite_delete;
  payload_json = "{}";
  coalesce_key = "favorite:07";
  base_entity_revision = some 1;
  created_at = pos 900;
  updated_at = pos 900;
  attempt_count = 3;
  next_retry_at = none;
  last_error = none;
  conflict_replay_count = 0;
}

abbrev outbox : List OutboxEvent
outbox = deleted ∷ []

abbrev push : PushEvent
push = record {
  event_id = "e1";
  operation = lvos.Protocol.favorite_delete;
  content_key = "key";
  key_version = 1;
  base_entity_revision = 1;
  favorite = none;
  query_stats = none;
}

abbrev answer : PushAck
answer = record {
  event_id = "e1";
  status = applied;
  entity_revision = some 2;
  user_revision = 2;
  aggregate_query_stats = none;
}

abbrev matched : List AcknowledgedEvent
matched = record { event = deleted; acknowledgement = answer; sent_query_count = none } ∷ []

match_acknowledgements_sound_example :
    (matched_events matched ≡ outbox)
    × All (λ (a : AcknowledgedEvent). a.acknowledgement.event_id ≡ printed a.event.event_id) matched
unfolding match_acknowledgements match_events collect get put
match_acknowledgements_sound_example =
    match_acknowledgements_sound printed outbox (push ∷ []) (answer ∷ []) {matched = matched} refl

retry_timestamp-bounds_example : (1000 + 0 + 2 ≤ 1016 + 0) × (1016 + 0 ≤ 1000 + 0 + 300)
unfolding retry_timestamp retry_delay max_attempt jitter byte_at
retry_timestamp-bounds_example = retry_timestamp-bounds outbox (pos 1000) {at = pos 1016} refl

apply_all-generation_example :
    generation
      (apply_all (loading 4 "run") (error 3 "old" unsupported_input ∷ loading 4 "run" ∷ []))
    ≡ generation (loading 4 "run")
apply_all-generation_example =
    apply_all-generation (loading 4 "run") (error 3 "old" unsupported_input ∷ loading 4 "run" ∷ [])
