-- ===== src/Server/Push/Answers.antt =====
-- A push answers each of its events, in their order.
use lvos.Base.{
  String, true, ◌≡◌, refl, sym, ap, ◌∙◌, inl, inr, some, List, [], ◌∷◌, ◌++◌, arith, ok, >>=-eq-ok,
  ℕ, string_eq, pair_eq,
}
use lvos.Base.Int.{ℤ}
use lvos.Protocol.{PushEvent, PushAck, PushResponse}
use lvos.Server.Database.{Database}
use lvos.Server.Rows.{user_revision}
use lvos.Server.Ack.{Digest, processed_ack, read_ack, stored_aggregate}
use lvos.Server.Apply.{EventOutcome}
use lvos.Server.Inversion.{apply_event-Applied}
use lvos.Server.Push.{
  MutationResult, Batch, opened, push_event, push_loop, push_events, push_transaction, transact-ok,
}
use lvos.Server.Push.Inversion.{push_event-Pushed}

abbrev pub ack_ids : List PushAck → List String
ack_ids [] = []
ack_ids (ack ∷ acks) = ack.event_id ∷ ack_ids acks

abbrev pub event_ids : List PushEvent → List String
event_ids [] = []
event_ids (event ∷ events) = event.event_id ∷ event_ids events

ack_ids-append :
    (acks : List PushAck) (ack : PushAck) (ids : List String)
    → ack_ids (acks ++ ack ∷ []) ++ ids ≡ ack_ids acks ++ ack.event_id ∷ ids
ack_ids-append [] ack ids = refl
ack_ids-append (a ∷ acks) ack ids = ap (λ rest. a.event_id ∷ rest) (ack_ids-append acks ack ids)

append-nil : (ids : List String) → ids ++ [] ≡ ids
append-nil [] = refl
append-nil (id ∷ ids) = ap (λ rest. id ∷ rest) (append-nil ids)

processed_ack-id :
    (db : Database) (user_id : String) (event : PushEvent) (fingerprint : List ℕ) {ack : PushAck}
    → processed_ack db user_id event fingerprint ≡ ok (some ack)
    → ack.event_id ≡ event.event_id
unfolding processed_ack read_ack stored_aggregate
processed_ack-id db user_id event fingerprint h = ground arith

module _ (digest : Digest) (user_id device_id : String) (now : ℤ) where
  push_event-id :
      (db : Database) (event : PushEvent) {pushed : EventOutcome × Database}
      → push_event digest db user_id device_id event now ≡ ok pushed
      → pushed.0.ack.event_id ≡ event.event_id
  push_event-id db event {pushed} h =
      let p = push_event-Pushed digest db user_id device_id event now h in
      elim p.ways [
        | inl (known, _, _) ↦ processed_ack-id db user_id event p.fingerprint known
        | inr (_, done) ↦
            let a = apply_event-Applied db user_id device_id event now done.accepted in
            ap (λ (x : EventOutcome × Database). x.0.ack.event_id) a.outcome
      ]

  push_loop-ids :
      (events : List PushEvent) (batch : Batch) {done : Batch}
      → push_loop digest user_id device_id events now batch ≡ ok done
      → ack_ids done.acknowledgements ≡ ack_ids batch.acknowledgements ++ event_ids events
  unfolding push_loop
  push_loop-ids [] batch {done} h =
      let kept : done.acknowledgements ≡ batch.acknowledgements = ground (arith, h) in
      ap ack_ids kept ∙ sym (append-nil (ack_ids batch.acknowledgements))
  push_loop-ids (event ∷ events) batch h =
      let (pushed, p, rest) =
        >>=-eq-ok (push_event digest batch.db user_id device_id event now) _ h in
      push_loop-ids events _ rest
      ∙ ack_ids-append batch.acknowledgements pushed.0.ack (event_ids events)
      ∙ ap (λ id. ack_ids batch.acknowledgements ++ id ∷ event_ids events)
          (push_event-id batch.db event p)

-- A push that succeeds answers every event of its batch, in the order of the batch, whether the
-- event is new or was answered before.
pub push_events-answers :
    (digest : Digest) (db : Database) (user_id device_id : String) (events : List PushEvent)
    (now : ℤ) {r : MutationResult PushResponse} {db' : Database}
    → push_events digest true db user_id device_id events now ≡ (ok r, db')
    → ack_ids r.value.acknowledgements ≡ event_ids events
unfolding push_events push_transaction
push_events-answers digest db user_id device_id events now {r} h =
    let (done, looped, h1) =
      >>=-eq-ok (push_loop digest user_id device_id events now (opened db)) _
        (transact-ok db _ h) in
    let (latest, found, h2) = >>=-eq-ok (user_revision done.db user_id) _ h1 in
    let same : r.value.acknowledgements ≡ done.acknowledgements = ground (arith, h2) in
    ap ack_ids same ∙ push_loop-ids digest user_id device_id now events (opened db) looped
