-- ===== src/Lib.antt =====
-- LVOS translates what the user selects on the desktop, keeps the favorites and query counters of a
-- profile, and synchronizes them over a server. This library models the parts of it that decide
-- what is stored and who may read it.
--
-- The program's parts and their files:
--
-- * Core models crates/core. Core/ContentKey is the hexadecimal form of a content key and
--   Core/Content the preparation of captured text (content.rs), Core/LanguageCode the parsing of
--   language codes (language.rs). Keys and codes are lists of bytes there (Base/Text has the UTF-8
--   bytes of a text); Unicode holds what Rust's char methods, the Unicode crates and SHA-256 answer.
-- * Protocol is crates/sync/src/lib.rs: the messages that the desktop and the server exchange.
-- * Server models apps/server. Server/Database holds the tables of src/storage.rs, each as the list
--   of its rows under their primary key, and the errors. The functions of src/sync_repository.rs are
--   spread over Server/Rows (reads, record_change), Server/Stats (merge_query_stats), Server/Ack
--   (processed_ack, store_ack), Server/Apply (apply_event, upsert_favorite), Server/Push
--   (push_events), Server/Changes (changes_since) and Server/FavoriteState (set_favorite_state). A
--   transaction is a function to an error or to a result with the new database; `transact` gives
--   the database after its commit or its rollback, and an argument says whether SQLite's COMMIT
--   succeeds. Server/Sessions and its child Operations are the users, devices and sessions of
--   src/repository.rs; Server/Limiter is LoginRateLimiter of src/lib.rs.
-- * Storage models crates/storage, the SQLite file of a desktop profile. Storage/Model holds the
--   types of src/model.rs and the tables of src/profile.rs, Storage/Codec the reading of rows,
--   Storage/Outbox upsert_outbox and the statements on sync_outbox. The operations of
--   src/profile.rs are in Storage/Profile (record_successful_query, favorite), Storage/Removal
--   (unfavorite, acknowledge_favorite, clear_history) and Storage/Identity (bind_user,
--   update_account_identity, replace_device_identity); those of src/sync.rs in Storage/Remote
--   (validate_remote, write_remote_favorite), Storage/Page (apply_remote_page), Storage/Sync (the
--   batch, acknowledgements, retries, diagnostics) and Storage/Conflict (resolve_conflict).
--   Libraries holds what the UUID and JSON crates do.
-- * Desktop models apps/desktop: CaptureGate (src/generation.rs), Confirmation (the State of
--   src/confirmation.rs), SyncEngine (the pure parts of src/sync_engine.rs), SyncEngine/Cycle
--   (synchronize_once, push_events and pull_all of the same file over the profile storage) and
--   LookupCard (LookupCardState of src/ui_state.rs).
--
-- The parts meet in the protocol: the desktop's outbox is sent as a list of PushEvent, which
-- push_events answers with a list of PushAck, which match_acknowledgements takes and
-- acknowledge_events applies; changes_since gives the pages that pull_all hands to
-- apply_remote_page. SyncEngine/Cycle/Ends joins the two sides.
--
-- How the source is read: a u64 and an i64 column with a CHECK that it is not negative are natural
-- numbers, and a conversion to i64 is written out with its failure (Base/Word); a timestamp is an
-- integer (Base/Int). A statement that SQLite refuses, for a primary key that is taken, a foreign
-- key with no row, a CHECK or a UNIQUE that fails or a sum past i64, is the error that the code maps
-- it to. The bytes of an event and SHA-256 are the argument Digest; fresh UUIDs, the printing of a
-- UUID, password hashes and the clock are arguments. All loops are structural recursion, but for
-- pull_all, which is bounded by fuel: one round more than the profile is behind is enough, since
-- each page of the server advances the cursor.
--
-- The proofs: Base is what all modules share. Inversion, Grows and Touches say what a successful
-- step went through and what it leaves alone; Server/Invariant defines the consistency of a user's
-- rows, and its children keep it. In Storage, Remote/Keeps, Page/Applies, Conflict/Keeps,
-- Outbox/Unique, Outbox/Upsert and Outbox/Pending play these parts; Page/Mirror, Conflict/Decision
-- and Sync/Ready say in their own words what a row, a resolution and a batch are held against. The
-- Examples modules run the models on concrete data.
--
-- Not modelled: I/O errors of SQLite other than at a COMMIT, poisoned locks, the HTTP layer,
-- configuration and backups of the server, the opening, migration, search, import and export of a
-- profile, the worker that repeats the cycle, the translation providers, the platform layer, the
-- agent, and the user interface: they do input and output, call libraries, or keep a state of their
-- own that meets the modelled parts only through the functions named above.
pub mod Base
pub mod Core
pub mod Protocol
pub mod Server
pub mod Storage
pub mod Desktop
