-- ===== src/Desktop/CaptureGate/Latest.antt =====
-- Only the latest query is current, however the other calls of the gate are interleaved with it.
use lvos.Base.{
  ℕ, suc, ◌<◌, ◌≤◌, ◌≡◌, refl, ◌∙◌, true, false, some, List, [], ◌∷◌, length, All, arith, nat_eq,
  list_eq, u64_limit,
}
use lvos.Desktop.CaptureGate.{
  CaptureGate, QueryTicket, new_gate, admit_capture, drop_capture, begin_query, is_current,
  is_cancelled, begin_content_flight, drop_flight,
}

-- The gates that the calls lead to, with the tickets that were given out, the latest one first.
pub data Reaches (debounce : ℕ) : CaptureGate → List QueryTicket → Type 0 where
  created : Reaches debounce (new_gate debounce) []
  captured :
      {gate : CaptureGate} {tickets : List QueryTicket} (now : ℕ)
      → Reaches debounce gate tickets
      → Reaches debounce (admit_capture gate now).1 tickets
  released :
      {gate : CaptureGate} {tickets : List QueryTicket}
      → Reaches debounce gate tickets
      → Reaches debounce (drop_capture gate) tickets
  queried :
      {gate : CaptureGate} {tickets : List QueryTicket}
      → Reaches debounce gate tickets
      → Reaches debounce (begin_query gate).1 ((begin_query gate).0 ∷ tickets)
  departed :
      {gate gate' : CaptureGate} {tickets : List QueryTicket} (key : List ℕ)
      → begin_content_flight gate key ≡ some gate'
      → Reaches debounce gate tickets
      → Reaches debounce gate' tickets
  landed :
      {gate : CaptureGate} {tickets : List QueryTicket} (key : List ℕ)
      → Reaches debounce gate tickets
      → Reaches debounce (drop_flight gate key) tickets

-- The tickets have the generations and tokens `n`, ..., 1.
abbrev IsNumbered : List QueryTicket → Type 0
IsNumbered [] = Unit
IsNumbered (ticket ∷ tickets) =
    (ticket.generation ≡ suc (length tickets))
    × (ticket.cancellation ≡ suc (length tickets))
    × IsNumbered tickets

-- The tokens that were cancelled are those below `n`.
abbrev IsBelow : List ℕ → ℕ → Type 0
IsBelow cancelled n =
    (token : ℕ)
    → (token < n → is_cancelled cancelled token ≡ true)
      × (n ≤ token → is_cancelled cancelled token ≡ false)

record Numbered (gate : CaptureGate) (tickets : List QueryTicket) : Type 0 where
  pub current : gate.generation.current ≡ length tickets
  pub token : gate.generation.current_cancellation ≡ length tickets
  pub cancelled : IsBelow gate.generation.cancelled (length tickets)
  pub numbered : IsNumbered tickets

Numbered-same :
    {gate gate' : CaptureGate} {tickets : List QueryTicket}
    → gate'.generation.current ≡ gate.generation.current
    → gate'.generation.current_cancellation ≡ gate.generation.current_cancellation
    → gate'.generation.cancelled ≡ gate.generation.cancelled
    → Numbered gate tickets
    → Numbered gate' tickets
Numbered-same c t k n = record {
  current = c ∙ n.current;
  token = t ∙ n.token;
  cancelled = rw k n.cancelled;
  numbered = n.numbered;
}

IsBelow-next : (cancelled : List ℕ) (n : ℕ) → IsBelow cancelled n → IsBelow (n ∷ cancelled) (suc n)
unfolding is_cancelled
IsBelow-next cancelled n h token =
    (λ less. ground (arith, h token), λ more. ground (arith, h token))

begin_query-Numbered :
    (gate : CaptureGate) (tickets : List QueryTicket)
    → suc (length tickets) < u64_limit
    → Numbered gate tickets
    → Numbered (begin_query gate).1 ((begin_query gate).0 ∷ tickets)
unfolding begin_query
begin_query-Numbered gate tickets fits n = record {
  current = omega (arith, n.current);
  token = omega (arith, n.token);
  cancelled = rw n.token (IsBelow-next gate.generation.cancelled (length tickets) n.cancelled);
  numbered = (omega (arith, n.current), omega (arith, n.token), n.numbered);
}

Reaches-Numbered :
    {debounce : ℕ} {gate : CaptureGate} {tickets : List QueryTicket}
    → Reaches debounce gate tickets
    → length tickets < u64_limit
    → Numbered gate tickets
unfolding admit_capture drop_capture begin_content_flight drop_flight is_cancelled
Reaches-Numbered created fits = record {
  current = refl;
  token = refl;
  cancelled = λ token. (λ less. absurd (omega arith), λ more. refl);
  numbered = tt;
}
Reaches-Numbered (captured {gate} now r) fits =
    Numbered-same (ground arith) (ground arith) (ground arith) (Reaches-Numbered r fits)
Reaches-Numbered (released {gate} r) fits = Numbered-same refl refl refl (Reaches-Numbered r fits)
Reaches-Numbered (queried {gate} {tickets} r) fits =
    begin_query-Numbered gate tickets fits (Reaches-Numbered r (omega arith))
Reaches-Numbered (departed {gate} {gate'} key started r) fits =
    Numbered-same (ground (arith, started)) (ground (arith, started)) (ground (arith, started))
      (Reaches-Numbered r fits)
Reaches-Numbered (landed {gate} key r) fits = Numbered-same refl refl refl (Reaches-Numbered r fits)

-- A ticket that a later query replaced.
abbrev pub IsStale : CaptureGate → QueryTicket → Type 0
IsStale gate ticket =
    (is_current gate ticket.generation ≡ false)
    × (is_cancelled gate.generation.cancelled ticket.cancellation ≡ true)

older-IsStale :
    (gate : CaptureGate) (n : ℕ) (tickets : List QueryTicket)
    → gate.generation.current ≡ n
    → IsBelow gate.generation.cancelled n
    → length tickets < n
    → IsNumbered tickets
    → All (IsStale gate) tickets
unfolding is_current
older-IsStale gate n [] c below less numbered = tt
older-IsStale gate n (ticket ∷ tickets) c below less numbered = (
  (
    ground (arith, c, less, numbered.0),
    (below ticket.cancellation).0 (omega (arith, less, numbered.1)),
  ),
  older-IsStale gate n tickets c below (omega (arith, less)) numbered.2,
)

-- However captures, queries and flights are interleaved, the latest ticket is current and its token
-- is not cancelled, and every older ticket is not current and its token is cancelled. This holds
-- until the counter of the queries reaches its limit.
pub Reaches-latest :
    {debounce : ℕ} {gate : CaptureGate} (ticket : QueryTicket) (older : List QueryTicket)
    → Reaches debounce gate (ticket ∷ older)
    → suc (length older) < u64_limit
    → (is_current gate ticket.generation ≡ true)
      × (is_cancelled gate.generation.cancelled ticket.cancellation ≡ false)
      × All (IsStale gate) older
unfolding is_current
Reaches-latest {gate = gate} ticket older r fits =
    let n = Reaches-Numbered r fits in
    (
      ground (arith, n.current, n.numbered.0),
      (n.cancelled ticket.cancellation).1 (omega (arith, n.numbered.1)),
      older-IsStale gate (suc (length older)) older n.current n.cancelled (omega arith)
          n.numbered.2,
    )
