-- ===== src/Storage/Examples/Batches.antt =====
-- The only event that waits is sent, and fails.
use lvos.Base.{
  ◌≡◌, refl, [], ◌∷◌, ok, some, true, false, arith, ◌==◌, ◌≤◌, nat_eq, string_eq, int_eq,
}
use lvos.Base.Int.{pos}
use lvos.Base.Text.{chars, utf8, encode_all, ascii}
use lvos.Core.ContentKey.{to_hex, hex_digit, from_str, decode_pairs, decode_hex}
use lvos.Core.Content.{key_text}
use lvos.Storage.Codec.{parse_outbox, parse_content_key, parse_outbox_operation}
use lvos.Storage.Outbox.{favorite_coalesce_key, find_row, is_event}
use lvos.Storage.Remote.{conflict_error}
use lvos.Storage.Sync.Retry.{Retried, mark_retry-Retried, times_sent}
use lvos.Storage.Sync.{
  ready_rows, insert_row, order_rows, parse_rows, ready_outbox_events, bounded_error, mark_retry,
}
use lvos.Storage.Sync.Ready.{Batch, ready_outbox_events-Batch}
use lvos.Storage.Examples.{libraries, favored, queued}
use lvos.Storage.Examples.Syncing.{event}

batch_run : ready_outbox_events libraries favored (pos 9) 5 ≡ ok (event ∷ [])
unfolding ready_outbox_events ready_rows insert_row order_rows parse_rows parse_outbox
    parse_content_key parse_outbox_operation favorite_coalesce_key key_text to_hex hex_digit
    from_str decode_pairs decode_hex chars utf8 encode_all ascii
batch_run = refl

ready_outbox_events-Batch_example : Batch libraries favored (pos 9) 5 (event ∷ [])
ready_outbox_events-Batch_example = ready_outbox_events-Batch libraries favored (pos 9) 5 batch_run

found_run : find_row (is_event "e1") favored.sync_outbox ≡ some queued
unfolding find_row
found_run = refl

sent_run : 1 ≤ times_sent libraries "e1" (event ∷ [])
unfolding times_sent
sent_run = omega arith

retries_run : (bounded_error "timeout" == conflict_error) ≡ false
unfolding bounded_error
retries_run = refl

mark_retry-Retried_example : Retried (pos 20) (times_sent libraries "e1" (event ∷ [])) queued (
    find_row
      (is_event "e1")
      (mark_retry libraries true favored (event ∷ []) (pos 20) "timeout" (pos 9)).1.sync_outbox)
mark_retry-Retried_example =
    mark_retry-Retried libraries favored (event ∷ []) (pos 20) "timeout" (pos 9) "e1" found_run
      sent_run retries_run
