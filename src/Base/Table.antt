-- ===== src/Base/Table.antt =====
-- A SQL table with a primary key, as the list of its rows in insertion order.
use mathlib.Core.Path.{◌≡◌, refl, ap, ◌∙◌}
use mathlib.Core.Option
use mathlib.Core.Option.{Option, none, some}
use mathlib.Core.Logic.{inl, inr}
use mathlib.Core.List.{List, [], ◌∷◌}
use native.Mathlib.Omega.{arith}
use lvos.Base.Tests.{if◌then◌else◌, Option-cases}
use lvos.Base.Equality.{Eq, ◌==◌, ==_cases, ==_refl}

abbrev pub Table {ℓ κ} : Type ℓ → Type κ → Type (ℓ ⊔ κ)
Table K V = List (K × V)

module _ {ℓ κ} {K : Type ℓ} {V : Type κ} ⦃e : Eq K⦄ where
  -- SELECT ... WHERE key = k
  unfoldable pub get : Table K V → K → Option V
  get [] k = none
  get ((j, v) ∷ t) k = if j == k then some v else get t k

  -- INSERT ... ON CONFLICT(key) DO UPDATE: the row of `k` is replaced, or added at the end.
  unfoldable pub put : Table K V → K → V → Table K V
  put [] k v = (k, v) ∷ []
  put ((j, w) ∷ t) k v = if j == k then (j, v) ∷ t else (j, w) ∷ put t k v

  -- `HashMap::remove`, and `HashSet::remove` where the values are units.
  unfoldable pub remove : Table K V → K → Table K V
  remove [] k = []
  remove ((j, v) ∷ t) k = let rest = remove t k in if j == k then rest else (j, v) ∷ rest

  pub get-remove :
      (t : Table K V) (k j : K) → get (remove t k) j ≡ (if k == j then none else get t j)
  unfolding get remove
  get-remove [] k j = ground arith
  get-remove ((i, w) ∷ t) k j =
      ground (arith, get-remove t k j, e.beq_iff i k, e.beq_iff i j, e.beq_iff k j)

  pub get-put :
      (t : Table K V) (k j : K) (v : V) → get (put t k v) j ≡ (if k == j then some v else get t j)
  unfolding get put
  get-put [] k j v = refl
  get-put ((i, w) ∷ t) k j v =
      ground (arith, get-put t k j v, e.beq_iff i k, e.beq_iff i j, e.beq_iff k j)

  -- INSERT INTO: a row whose primary key is taken is refused.
  unfoldable pub insert : Table K V → K → V → Option (Table K V)
  insert [] k v = some ((k, v) ∷ [])
  insert ((j, w) ∷ t) k v = if j == k then none else Option.map (λ r. (j, w) ∷ r) (insert t k v)

  pub get-insert :
      (t : Table K V) (k j : K) (v : V) {t' : Table K V}
      → insert t k v ≡ some t'
      → get t' j ≡ (if k == j then some v else get t j)
  unfolding get insert
  get-insert [] k j v h = ground arith
  get-insert ((i, w) ∷ t) k j v {t'} h = elim (Option-cases (insert t k v)) [
    | inl clash ↦ ground arith
    | inr (r, found) ↦
        ground (arith, get-insert t k j v found, e.beq_iff i k, e.beq_iff i j, e.beq_iff k j)
  ]

  -- An insertion succeeds exactly when the key is free.
  pub insert-none :
      (t : Table K V) (k : K) (v : V) → get t k ≡ none → (t' : Table K V) × (insert t k v ≡ some t')
  unfolding get insert
  insert-none [] k v h = ((k, v) ∷ [], refl)
  insert-none ((i, w) ∷ t) k v h = elim (==_cases i k) [
    | inl p ↦ absurd (ground arith)
    | inr p ↦ rw p.0 (let (r, q) = insert-none t k v (ground arith) in ((i, w) ∷ r, rw q))
  ]

  pub get-put_other : (t : Table K V) (k j : K) (v : V) → ¬ (k ≡ j) → get (put t k v) j ≡ get t j
  get-put_other t k j v h = ground (arith, get-put t k j v, e.beq_iff k j)

  pub get-put_self : (t : Table K V) (k : K) (v : V) → get (put t k v) k ≡ some v
  get-put_self t k v = ground (arith, get-put t k k v, ==_refl k)

  pub get-insert_other :
      (t : Table K V) (k j : K) (v : V) {t' : Table K V}
      → insert t k v ≡ some t'
      → ¬ (k ≡ j)
      → get t' j ≡ get t j
  get-insert_other t k j v i h = ground (arith, get-insert t k j v i, e.beq_iff k j)

  pub get-insert_self :
      (t : Table K V) (k : K) (v : V) {t' : Table K V} → insert t k v ≡ some t' → get t' k ≡ some v
  get-insert_self t k v i = ground (arith, get-insert t k k v i, ==_refl k)

  pub insert-fresh :
      (t : Table K V) (k : K) (v : V) {t' : Table K V} → insert t k v ≡ some t' → get t k ≡ none
  unfolding get insert
  insert-fresh [] k v h = refl
  insert-fresh ((i, w) ∷ t) k v h = elim (Option-cases (insert t k v)) [
    | inl clash ↦ ground arith
    | inr (r, found) ↦ ground (arith, insert-fresh t k v found)
  ]

  -- A row that is there stays as it is when another is inserted.
  pub get-insert_kept :
      (t : Table K V) (k j : K) (v : V) {w : V} {t' : Table K V}
      → insert t k v ≡ some t'
      → get t j ≡ some w
      → get t' j ≡ some w
  get-insert_kept t k j v i g =
      let differ : ¬ (k ≡ j) = λ p. cc (insert-fresh t k v i, ap (get t) p) in
      get-insert_other t k j v i differ ∙ g

pub ruleset table_laws = (get-put)
