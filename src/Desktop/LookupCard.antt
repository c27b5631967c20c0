-- ===== src/Desktop/LookupCard.antt =====
-- `LookupCardState` of apps/desktop/src/ui_state.rs: what the card of a lookup shows. A content key
-- is the list of its bytes.
pub mod Current
use lvos.Base.{
  ℕ, String, Bool, true, false, Option, none, some, List, [], ◌∷◌, ◌==◌, nat_eq, if◌then◌else◌,
}

-- `LookupCardErrorKind` of crates/translation/src/lib.rs.
pub data LookupCardErrorKind : Type 0 where
  provider_configuration_required provider_unauthorized : LookupCardErrorKind
  translation_unavailable unsupported_input : LookupCardErrorKind

pub data LookupCardState : Type 0 where
  hidden : LookupCardState
  loading : ℕ → String → LookupCardState
  ready : ℕ → List ℕ → String → String → Bool → ℕ → LookupCardState
  error : ℕ → String → LookupCardErrorKind → LookupCardState

unfoldable pub generation : LookupCardState → Option ℕ
generation hidden = none
generation (loading generation' source) = some generation'
generation (ready generation' content_key source translation favorite count) = some generation'
generation (error generation' source kind) = some generation'

-- `self.generation().is_some() && self.generation() == completion.generation()`
abbrev pub same_generation : Option ℕ → Option ℕ → Bool
same_generation (some a) (some b) = a == b
same_generation _ _ = false

-- Whether the completion was taken, and the state after.
unfoldable pub apply_if_current : LookupCardState → LookupCardState → Bool × LookupCardState
apply_if_current state completion =
    if same_generation (generation state) (generation completion)
    then (true, completion)
    else (false, state)

-- The completions that arrive, one after the other.
unfoldable pub apply_all : LookupCardState → List LookupCardState → LookupCardState
apply_all state [] = state
apply_all state (completion ∷ completions) =
    apply_all (apply_if_current state completion).1 completions
