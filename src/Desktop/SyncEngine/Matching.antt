-- ===== src/Desktop/SyncEngine/Matching.antt =====
-- What the matching and the retry give.
use native.Mathlib.Nat.{pow-suc, one-le-pow}
use lvos.Base.{
  ℕ, suc, ◌+◌, ◌^◌, ◌≤◌, min, String, ◌≡◌, refl, ap, inl, inr, some, List, [], ◌∷◌, ◌==◌, nat_eq,
  string_eq, length, arith, ok, ok_or, guard, >>=-eq-ok, ==_cases, All,
}
use lvos.Base.Int.{ℤ, pos, negsuc, pos_part, neg_part}
use lvos.Base.Table.{Table, get, put, get-put}
use lvos.Protocol.{PushEvent, PushAck}
use lvos.Storage.Model.{OutboxEvent, AcknowledgedEvent}
use lvos.Desktop.SyncEngine.{
  collect, match_events, match_acknowledgements, invalid_response, retry_timestamp, retry_delay,
  max_attempt, sent_count,
}

-- Every entry of the table stands under its own identifier.
IsKeyed : Table String PushAck → Type 0
IsKeyed table = (id : String) (ack : PushAck) → get table id ≡ some ack → ack.event_id ≡ id

none-IsKeyed : IsKeyed []
unfolding IsKeyed get
none-IsKeyed id ack found = absurd (ground (arith, found))

collect-IsKeyed :
    (acks : List PushAck) (table : Table String PushAck)
    → IsKeyed table
    → IsKeyed (collect acks table)
unfolding collect IsKeyed
collect-IsKeyed [] table h = h
collect-IsKeyed (ack ∷ acks) table h =
    collect-IsKeyed acks (put table ack.event_id ack) (λ id other found.
      elim (==_cases ack.event_id id) [
        | inl (hit, same) ↦ ground (arith, get-put table ack.event_id id ack, hit, same, found)
        | inr (hit, _) ↦ h id other (ground (arith, get-put table ack.event_id id ack, hit, found))
      ])

-- The events of the result, in its order.
abbrev pub matched_events : List AcknowledgedEvent → List OutboxEvent
matched_events [] = []
matched_events (a ∷ rest) = a.event ∷ matched_events rest

match_events_sound :
    (to_string : List ℕ → String) (table : Table String PushAck) (events : List OutboxEvent)
    (sent : List PushEvent) {matched : List AcknowledgedEvent}
    → IsKeyed table
    → length events ≡ length sent
    → match_events to_string table events sent ≡ ok matched
    → (matched_events matched ≡ events)
      × All
          (λ (a : AcknowledgedEvent). a.acknowledgement.event_id ≡ to_string a.event.event_id)
          matched
unfolding match_events IsKeyed
match_events_sound to_string table [] sent {matched} keyed same h =
    let empty : matched ≡ [] = ground (arith, h) in rw empty (refl, tt)
match_events_sound to_string table (event ∷ events) [] keyed same h = absurd (ground (arith, same))
match_events_sound to_string table (event ∷ events) (push ∷ sent) {matched} keyed same h =
    let (ack, found, h1) =
      >>=-eq-ok (ok_or (get table (to_string event.event_id)) invalid_response) _ h in
    let (rest, tail, h2) = >>=-eq-ok (match_events to_string table events sent) _ h1 in
    let (order, own) =
      match_events_sound to_string table events sent keyed (ground (arith, same)) tail in
    let first : AcknowledgedEvent = record {
      event = event;
      acknowledgement = ack;
      sent_query_count = sent_count push;
    } in
    let whole : matched ≡ first ∷ rest = ground (arith, h2) in
    rw whole (
      ap (λ l. event ∷ l) order,
      (keyed (to_string event.event_id) ack (ground (arith, found)), own),
    )

-- When acknowledgements are accepted, there is one for each event that was sent, in the order of the
-- events, and it carries the event's own identifier.
pub match_acknowledgements_sound :
    (to_string : List ℕ → String) (events : List OutboxEvent) (sent : List PushEvent)
    (acknowledgements : List PushAck) {matched : List AcknowledgedEvent}
    → match_acknowledgements to_string events sent acknowledgements ≡ ok matched
    → (matched_events matched ≡ events)
      × All
          (λ (a : AcknowledgedEvent). a.acknowledgement.event_id ≡ to_string a.event.event_id)
          matched
unfolding match_acknowledgements
match_acknowledgements_sound to_string events sent acknowledgements h =
    let (_, sizes, h1) = >>=-eq-ok (guard (length events == length sent) invalid_response) _ h in
    let (_, all, h2) =
      >>=-eq-ok (guard (length events == length acknowledgements) invalid_response) _ h1 in
    let table = collect acknowledgements [] in
    let (_, unique, h3) = >>=-eq-ok (guard (length table == length events) invalid_response) _ h2 in
    match_events_sound to_string table events sent
      (collect-IsKeyed acknowledgements [] none-IsKeyed) (ground (arith, sizes)) h3

power_bounds : (k : ℕ) → 2 ≤ 2 ^ (k + 1)
power_bounds k =
    let next : k + 1 ≡ suc k = omega arith in
    omega (arith, ap (λ n. 2 ^ n) next, pow-suc 2 k, one-le-pow k 2 (omega arith))

retry_delay-bounds :
    (events : List OutboxEvent) → (2 ≤ retry_delay events) × (retry_delay events ≤ 300)
unfolding retry_delay
retry_delay-bounds events = ground (arith, power_bounds (min (max_attempt events) 8))

-- A failed push is tried again between 2 and 300 seconds later, whatever the events and their
-- attempts are.
pub retry_timestamp-bounds :
    (events : List OutboxEvent) (now : ℤ) {at : ℤ}
    → retry_timestamp events now ≡ ok at
    → (pos_part now + neg_part at + 2 ≤ pos_part at + neg_part now)
      × (pos_part at + neg_part now ≤ pos_part now + neg_part at + 300)
unfolding retry_timestamp
retry_timestamp-bounds events (pos n) h = ground (arith, retry_delay-bounds events)
retry_timestamp-bounds events (negsuc n) h = ground (arith, retry_delay-bounds events)
