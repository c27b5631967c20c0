-- ===== src/Desktop/Confirmation.antt =====
-- The `State` of apps/desktop/src/confirmation.rs: at most one pending confirmation. A oneshot
-- channel is named by the number of its request; what was sent is kept in a list.
pub mod Single
pub mod Invalidated
use lvos.Base.{
  ℕ, ◌+◌, Bool, true, false, ◌&&◌, ◌||◌, not, Option, none, some, List, [], ◌∷◌, ltb, ◌==◌, nat_eq,
  if◌then◌else◌, saturating_add,
}

-- 2^31 - 1, the last `i32`.
abbrev pub i32_max : ℕ
i32_max = 2147483647

pub record State : Type 0 where
  pub epoch : ℕ
  pub next_id : ℕ
  pub presented : Bool
  pub pending : Option ℕ
  -- The answers that the senders gave, the latest first.
  pub sent : List (ℕ × Bool)

abbrev pub initial : State
initial = record { epoch = 0; next_id = 0; presented = false; pending = none; sent = [] }

abbrev pub has_pending : Option ℕ → Bool
has_pending none = false
has_pending (some id) = true

-- The number of the new request, or a refusal; a refusal changes nothing.
unfoldable pub begin : State → ℕ → Option ℕ × State
begin state epoch =
    if not (epoch == state.epoch) || (has_pending state.pending || state.presented)
    then (none, state)
    else if ltb state.next_id i32_max
    then (
      some (state.next_id + 1),
      record state { next_id = state.next_id + 1; pending = some (state.next_id + 1) },
    )
    else (none, state)

-- The answer of a request: only the pending one is taken.
abbrev pub resolve_pending : State → ℕ → Bool → Option ℕ → Bool × State
resolve_pending state id accepted none = (false, state)
resolve_pending state id accepted (some pending) =
    if pending == id
    then (true, record state { pending = none; sent = (pending, accepted) ∷ state.sent })
    else (false, state)

unfoldable pub resolve : State → ℕ → Bool → Bool × State
resolve state id accepted = resolve_pending state id accepted state.pending

abbrev pub drop_pending : Option ℕ → List (ℕ × Bool) → List (ℕ × Bool)
drop_pending none sent = sent
drop_pending (some pending) sent = (pending, false) ∷ sent

unfoldable pub invalidate : State → State
invalidate state = record state {
  epoch = saturating_add state.epoch 1;
  pending = none;
  sent = drop_pending state.pending state.sent;
}

-- The observer of the dialog's visibility.
unfoldable pub present : State → Bool → State
present state shown = record state { presented = shown }
