-- ===== src/Desktop/Confirmation/Invalidated.antt =====
-- A request that is pending when the confirmations are invalidated is not accepted later.
use lvos.Base.{
  ℕ, ◌<◌, ◌≡◌, refl, ap, inl, inr, Bool, true, false, some, List, [], ◌∷◌, arith, nat_eq,
  Option-cases,
}
use mathlib.Core.List.{Memᴰ}
use lvos.Desktop.Confirmation.{State, begin, resolve, invalidate, present}
use lvos.Desktop.Confirmation.Single.{
  Reaches, IsFalling, bound_of, Reaches-IsFalling, begin-cases, begun_state, resolve-cases,
}
use lvos.Desktop.Confirmation.Single

-- The calls that follow a state.
pub data Follows (start : State) : State → Type 0 where
  same : Follows start start
  begun : {state : State} (epoch : ℕ) → Follows start state → Follows start (begin state epoch).1
  resolved :
      {state : State} (id : ℕ) (accepted : Bool)
      → Follows start state
      → Follows start (resolve state id accepted).1
  invalidated : {state : State} → Follows start state → Follows start (invalidate state)
  shown :
      {state : State} (visible : Bool) → Follows start state → Follows start (present state visible)

Follows-Reaches : {start later : State} → Reaches start → Follows start later → Reaches later
Follows-Reaches r same = r
Follows-Reaches r (begun epoch f) = Single.begun epoch (Follows-Reaches r f)
Follows-Reaches r (resolved id accepted f) = Single.resolved id accepted (Follows-Reaches r f)
Follows-Reaches r (invalidated f) = Single.invalidated (Follows-Reaches r f)
Follows-Reaches r (shown visible f) = Single.shown visible (Follows-Reaches r f)

-- What was sent stays sent.
Follows-sent :
    {start later : State} (answer : ℕ × Bool)
    → Follows start later
    → Memᴰ answer start.sent
    → Memᴰ answer later.sent
unfolding invalidate present begun_state
Follows-sent answer same m = m
Follows-sent answer (begun {state} epoch f) m = elim (begin-cases state epoch) [
  | inl kept ↦ rw kept (Follows-sent answer f m)
  | inr (free, new) ↦ rw new (Follows-sent answer f m)
]
Follows-sent answer (resolved {state} id accepted f) m = elim (resolve-cases state id accepted) [
  | inl kept ↦ rw kept (Follows-sent answer f m)
  | inr (asked, new) ↦ rw new (Memᴰ.tail (Follows-sent answer f m))
]
Follows-sent answer (invalidated {state} f) m = elim (Option-cases state.pending) [
  | inl free ↦ rw free (Follows-sent answer f m)
  | inr (id, asked) ↦ rw asked (Memᴰ.tail (Follows-sent answer f m))
]
Follows-sent answer (shown visible f) m = Follows-sent answer f m

-- An answer below a bound, and the only one of its number.
Memᴰ-below :
    (bound : ℕ) {answer : ℕ × Bool} (sent : List (ℕ × Bool))
    → IsFalling bound sent
    → Memᴰ answer sent
    → answer.0 < bound
Memᴰ-below bound [] h m = elim m [ ]
Memᴰ-below bound ((id, accepted) ∷ sent) h (Memᴰ.head e) = rw (ap (λ (a : ℕ × Bool). a.0) e) h.0
Memᴰ-below bound ((id, accepted) ∷ sent) h (Memᴰ.tail m) =
    let below = Memᴰ-below id sent h.1 m in omega (arith, below, h.0)

Memᴰ-once :
    (bound : ℕ) {id : ℕ} {a b : Bool} (sent : List (ℕ × Bool))
    → IsFalling bound sent
    → Memᴰ (id, a) sent
    → Memᴰ (id, b) sent
    → a ≡ b
Memᴰ-once bound [] h m m' = elim m [ ]
Memᴰ-once bound ((n, c) ∷ sent) h (Memᴰ.head e) (Memᴰ.head e') = ground (arith, e, e')
Memᴰ-once bound ((n, c) ∷ sent) h (Memᴰ.head e) (Memᴰ.tail m) =
    let below = Memᴰ-below n sent h.1 m in absurd (ground (arith, e, below))
Memᴰ-once bound ((n, c) ∷ sent) h (Memᴰ.tail m) (Memᴰ.head e) =
    let below = Memᴰ-below n sent h.1 m in absurd (ground (arith, e, below))
Memᴰ-once bound ((n, c) ∷ sent) h (Memᴰ.tail m) (Memᴰ.tail m') = Memᴰ-once n sent h.1 m m'

invalidate-sent :
    (state : State) {id : ℕ} → state.pending ≡ some id → Memᴰ (id, false) (invalidate state).sent
unfolding invalidate
invalidate-sent state asked = rw asked (Memᴰ.head refl)

resolve-below :
    (state : State) (id : ℕ) (accepted : Bool)
    → id < bound_of state state.pending
    → resolve state id accepted ≡ (false, state)
unfolding resolve
resolve-below state id accepted below = elim (Option-cases state.pending) [
  | inl free ↦ ground (arith, free)
  | inr (other, asked) ↦ ground (arith, below, asked)
]

-- A request that is pending when the confirmations are invalidated is answered with a refusal, and
-- whatever calls follow, it has no other answer, and an attempt to resolve it changes nothing.
pub invalidate-refused :
    {state later : State} {id : ℕ} (accepted : Bool)
    → Reaches state
    → state.pending ≡ some id
    → Follows (invalidate state) later
    → Memᴰ (id, false) later.sent
      × (¬ Memᴰ (id, true) later.sent)
      × (resolve later id accepted ≡ (false, later))
invalidate-refused {state} {later} {id} accepted r asked f =
    let sent = Follows-sent (id, false) f (invalidate-sent state asked) in
    let falling = Reaches-IsFalling (Follows-Reaches (Single.invalidated r) f) in
    (
      sent,
      λ twice.
          absurd (
            ground (arith, Memᴰ-once (bound_of later later.pending) later.sent falling sent twice)),
      resolve-below later id accepted
          (Memᴰ-below (bound_of later later.pending) later.sent falling sent),
    )
