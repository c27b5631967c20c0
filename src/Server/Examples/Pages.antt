-- ===== src/Server/Examples/Pages.antt =====
-- The rows of a user before and after a push, and a page of them.
use lvos.Base.{
  ◌+◌, ◌-◌, min, ◌≡◌, refl, inl, inr, true, false, some, none, [], ◌∷◌, arith, ok, length, ltb, All,
  ==_cases, string_eq, pair_eq, nat_eq,
}
use lvos.Base.Int.{pos}
use lvos.Protocol.{ChangesResponse, favorite_upsert}
use lvos.Server.Database.{UserRow}
use lvos.Server.Changes.{changes_since, user_changes}
use lvos.Server.Changes.Page.{changes_since-IsPage, IsPage}
use lvos.Server.Invariant.{IsConsistent, IsDense, IsSound, Fits}
use lvos.Server.Invariant.Preserved.{push_events-IsConsistent}
use lvos.Server.Invariant.State.{set_favorite_state-IsConsistent}
use lvos.Server.FavoriteState.{set_favorite_state}
use lvos.Server.Push.{push_events}
use lvos.Base.Table.{get}
use lvos.Server.Rows.{
  operation_name, has_favorite, aggregate_stats, content_stats, summarize, checked_total,
}
use lvos.Server.Examples.{digest, start, after, added, key, user}

start_consistent : IsConsistent start "ada"
unfolding get user_changes aggregate_stats content_stats summarize checked_total
start_consistent = record {
  user = user;
  found = refl;
  bounded = omega arith;
  dense = tt;
  counted = refl;
  sound = tt;
  fits = λ k. (none, refl);
}

push_events-IsConsistent_example :
    IsConsistent (push_events digest true start "ada" "laptop" (added ∷ []) (pos 5)).1 "ada"
push_events-IsConsistent_example =
    push_events-IsConsistent digest true start "ada" "laptop" (added ∷ []) (pos 5) start_consistent

abbrev later_user : UserRow
later_user = record user { sync_revision = 1 }

pub after_found : get after.users "ada" ≡ some later_user
unfolding get
after_found = refl

pub after-IsDense : IsDense 0 (user_changes after.change_log "ada")
unfolding user_changes has_favorite get operation_name
after-IsDense = (refl, tt)

pub after_counted : length (user_changes after.change_log "ada") ≡ 1
unfolding user_changes has_favorite get operation_name
after_counted = refl

pub after-IsSound : All (IsSound after "ada") (user_changes after.change_log "ada")
unfolding user_changes has_favorite get operation_name
after-IsSound = ((refl, (favorite_upsert, refl)), tt)

pub after-Fits : Fits after "ada"
unfolding aggregate_stats content_stats summarize checked_total
after-Fits k = elim (==_cases key k) [
  | inl (_, same) ↦
      rw (← same)
        (some (record { query_count = 3; first_queried_at = pos 1; last_queried_at = pos 2 }), refl)
  | inr (differ, _) ↦ (none, ground (arith, differ))
]

abbrev pub after_consistent : IsConsistent after "ada"
after_consistent = record {
  user = later_user;
  found = after_found;
  bounded = omega arith;
  dense = after-IsDense;
  counted = after_counted;
  sound = after-IsSound;
  fits = after-Fits;
}

changes_since-IsPage_example :
    (page : ChangesResponse) × (changes_since after "ada" 0 10 ≡ ok page)
    × IsPage after "ada" 0 page.changes
    × (length page.changes ≡ min 10 (1 - 0))
    × (page.next_revision ≡ 0 + length page.changes)
    × (page.latest_revision ≡ 1)
    × (page.has_more ≡ ltb page.next_revision page.latest_revision)
changes_since-IsPage_example =
    changes_since-IsPage after "ada" 0 10 after_consistent (omega arith) (omega arith)

set_favorite_state-IsConsistent_example :
    IsConsistent (set_favorite_state true after "ada" key false 1 (pos 8)).1 "ada"
set_favorite_state-IsConsistent_example =
    set_favorite_state-IsConsistent true after "ada" key false 1 (pos 8) after_consistent
