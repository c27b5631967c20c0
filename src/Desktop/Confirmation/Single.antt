-- ===== src/Desktop/Confirmation/Single.antt =====
-- Every confirmation is answered at most once.
use lvos.Base.{
  ℕ, ◌+◌, ◌≤◌, ◌<◌, ◌≡◌, ap, inl, inr, ◌⊎◌, Bool, Option, none, some, List, [], ◌∷◌, arith, nat_eq,
  Option-cases,
}
use lvos.Desktop.Confirmation.{State, initial, begin, resolve, invalidate, present}

-- The states that the calls lead to.
pub data Reaches : State → Type 0 where
  started : Reaches initial
  begun : {state : State} (epoch : ℕ) → Reaches state → Reaches (begin state epoch).1
  resolved :
      {state : State} (id : ℕ) (accepted : Bool)
      → Reaches state
      → Reaches (resolve state id accepted).1
  invalidated : {state : State} → Reaches state → Reaches (invalidate state)
  shown : {state : State} (visible : Bool) → Reaches state → Reaches (present state visible)

-- No request below the bound was answered twice: the numbers fall, and lie below the bound.
abbrev pub IsFalling : ℕ → List (ℕ × Bool) → Type 0
IsFalling bound [] = Unit
IsFalling bound ((id, accepted) ∷ sent) = (id < bound) × IsFalling id sent

-- The first number that no answer has been given to.
abbrev pub bound_of : State → Option ℕ → ℕ
bound_of state none = state.next_id + 1
bound_of state (some pending) = pending

record Settled (state : State) : Type 0 where
  pub falling : IsFalling (bound_of state state.pending) state.sent
  pub latest : (id : ℕ) → state.pending ≡ some id → id ≡ state.next_id

IsFalling-weaken : {a b : ℕ} (sent : List (ℕ × Bool)) → a ≤ b → IsFalling a sent → IsFalling b sent
IsFalling-weaken [] le h = tt
IsFalling-weaken ((id, accepted) ∷ sent) le h = (omega (arith, h.0), h.1)

unfoldable pub begun_state : State → State
begun_state state = record state { next_id = state.next_id + 1; pending = some (state.next_id + 1) }

pub begin-cases :
    (state : State) (epoch : ℕ)
    → ((begin state epoch).1 ≡ state)
      ⊎ (state.pending ≡ none) × ((begin state epoch).1 ≡ begun_state state)
unfolding begin begun_state
begin-cases state epoch = ground arith

pub resolve-cases :
    (state : State) (id : ℕ) (accepted : Bool)
    → ((resolve state id accepted).1 ≡ state)
      ⊎ (state.pending ≡ some id)
        × ((resolve state id accepted).1
            ≡ record state { pending = none; sent = (id, accepted) ∷ state.sent })
unfolding resolve
resolve-cases state id accepted = ground arith

begin-Settled : (state : State) (epoch : ℕ) → Settled state → Settled (begin state epoch).1
unfolding begun_state
begin-Settled state epoch s = elim (begin-cases state epoch) [
  | inl kept ↦ rw kept s
  | inr (free, new) ↦ rw new (record {
    falling = IsFalling-weaken state.sent (ground (arith, free)) s.falling;
    latest = λ id h. ground (arith, h);
  })
]

resolve-Settled :
    (state : State) (id : ℕ) (accepted : Bool)
    → Settled state
    → Settled (resolve state id accepted).1
resolve-Settled state id accepted s = elim (resolve-cases state id accepted) [
  | inl kept ↦ rw kept s
  | inr (asked, new) ↦
      let bound : bound_of state state.pending ≡ id = ap (bound_of state) asked in
      let last = s.latest id asked in
      rw new (record {
        falling = (omega (arith, last), rw bound at s.falling);
        latest = λ other h. absurd (ground (arith, h));
      })
]

invalidate-Settled : (state : State) → Settled state → Settled (invalidate state)
unfolding invalidate
invalidate-Settled state s = elim (Option-cases state.pending) [
  | inl free ↦ record {
    falling = rw free (rw free at s.falling);
    latest = λ id h. absurd (ground (arith, h));
  }
  | inr (id, asked) ↦
      let last = s.latest id asked in
      record {
        falling = rw asked (omega (arith, last), rw asked at s.falling);
        latest = λ other h. absurd (ground (arith, h));
      }
]

Reaches-Settled : {state : State} → Reaches state → Settled state
unfolding present
Reaches-Settled started = record { falling = tt; latest = λ id h. absurd (ground (arith, h)) }
Reaches-Settled (begun {state} epoch r) = begin-Settled state epoch (Reaches-Settled r)
Reaches-Settled (resolved {state} id accepted r) =
    resolve-Settled state id accepted (Reaches-Settled r)
Reaches-Settled (invalidated {state} r) = invalidate-Settled state (Reaches-Settled r)
Reaches-Settled (shown {state} visible r) =
    let s = Reaches-Settled r in record { falling = s.falling; latest = s.latest }

-- However requests, answers, invalidations and changes of the visibility follow each other, no
-- confirmation is answered twice: the numbers of the answers that were sent fall strictly, from the
-- latest to the first, and all lie below the number of the pending request, or, where none is
-- pending, below the number of the next one.
pub Reaches-IsFalling :
    {state : State} → Reaches state → IsFalling (bound_of state state.pending) state.sent
Reaches-IsFalling r = (Reaches-Settled r).falling
