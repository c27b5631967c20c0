-- ===== src/Storage/Examples/Syncing.antt =====
-- Runs of the synchronization of a profile.
use lvos.Base.{◌≡◌, refl, true, false, none, some, [], ◌∷◌, ok, nat_eq, string_eq}
use lvos.Base.Int.{pos}
use lvos.Protocol.{applied}
use lvos.Storage.Model.{ProfileDatabase, OutboxEvent, AcknowledgedEvent, favorite_upsert}
use lvos.Storage.Outbox.{exists_row, is_event, find_row, favorite_coalesce_key}
use lvos.Storage.Page.{apply_remote_page}
use lvos.Storage.Page.Cursor.{Synced, apply_remote_page-Synced, apply_remote_page_no_event}
use lvos.Storage.Sync.{
  acknowledge_events, acknowledge_transaction, acknowledge_loop, acknowledge_event,
  acknowledge_revision, acknowledge_stats,
}
use lvos.Storage.Sync.Acknowledged.{acknowledge_events-found, unbased}
use lvos.Storage.Examples.{libraries, key, queued, empty_profile, favored, change}

apply_remote_page-Synced_example :
    Synced empty_profile
      (change ∷ [])
      1
      (pos 9)
      (apply_remote_page libraries true empty_profile (change ∷ []) 1 (pos 9))
apply_remote_page-Synced_example =
    apply_remote_page-Synced libraries true empty_profile (change ∷ []) 1 (pos 9)

no_event : exists_row (is_event "e2") favored.sync_outbox ≡ false
unfolding exists_row
no_event = refl

apply_remote_page_no_event_example :
    exists_row
      (is_event "e2")
      (apply_remote_page libraries true favored (change ∷ []) 1 (pos 9)).1.sync_outbox
    ≡ false
apply_remote_page_no_event_example =
    apply_remote_page_no_event libraries true favored (change ∷ []) 1 (pos 9) "e2" no_event

abbrev pub event : OutboxEvent
event = record {
  event_id = 1 ∷ [];
  content_key = key;
  operation = favorite_upsert;
  payload_json = "{}";
  coalesce_key = favorite_coalesce_key key;
  base_entity_revision = some 0;
  created_at = pos 3;
  updated_at = pos 3;
  attempt_count = 0;
  next_retry_at = none;
  last_error = none;
  conflict_replay_count = 0;
}

abbrev item : AcknowledgedEvent
item = record {
  event = event;
  acknowledgement = record {
    event_id = "e1";
    status = applied;
    entity_revision = some 1;
    user_revision = 1;
    aggregate_query_stats = none;
  };
  sent_query_count = none;
}

-- A newer intent replaced the one that was sent.
abbrev renewed : ProfileDatabase
renewed = record favored {
  sync_outbox = record queued { event_id = "e2"; operation = "favorite_delete" } ∷ [];
}

abbrev settled : ProfileDatabase
settled = (acknowledge_events libraries true renewed (item ∷ []) (pos 9)).1

settled_run : acknowledge_events libraries true renewed (item ∷ []) (pos 9) ≡ (ok tt, settled)
unfolding acknowledge_events acknowledge_transaction acknowledge_loop acknowledge_event
    acknowledge_revision acknowledge_stats
settled_run = refl

acknowledge_events-found_example :
    unbased (find_row (is_event "e2") settled.sync_outbox)
    ≡ unbased (find_row (is_event "e2") renewed.sync_outbox)
acknowledge_events-found_example =
    acknowledge_events-found libraries true renewed (item ∷ []) (pos 9) "e2" settled_run
