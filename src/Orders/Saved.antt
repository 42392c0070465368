-- ===== src/Orders/Saved.antt =====
-- The rows after the new orders are inserted.
use saga_orchestrator_patter.Base.{
  ℕ, suc, ◌<◌, ◌≡◌, refl, ap, String, Bool, true, false, ◌||◌, Option, none, some, inl, inr, List,
  [], ◌∷◌, arith, any, keep, str_eq, str_eq_iff, str_eq_refl, Bool-cases,
}
use saga_orchestrator_patter.Models.Order.{Order}
use saga_orchestrator_patter.Table.{OrderTable}
use saga_orchestrator_patter.Table.Rows.{keyed, Distinct}
use saga_orchestrator_patter.Orders.Request.{OrderCreate, new_order}
use saga_orchestrator_patter.Orders.{insert_all, new_orders, has_key, unseen}

-- No row has the id of one of the orders.
abbrev pub Unused : (T : OrderTable) → List Order → T.Rows → Type 0
Unused T [] rows = Unit
Unused T (o ∷ rest) rows = (T.find o.id rows ≡ none) × Unused T rest rows

module _ (T : OrderTable) where
  Unused-insert :
      (o : Order) (os : List Order) (rows : T.Rows)
      → T.find o.id rows ≡ none
      → keyed o.id os ≡ none
      → Unused T os rows
      → Unused T os (T.insert o rows)
  Unused-insert o [] rows free other u = tt
  Unused-insert o (x ∷ os) rows free other u = (
    ground (arith, T.find-insert o x.id rows free, u.0),
    Unused-insert o os rows free (ground arith) u.1,
  )

  -- The new rows are found, and the old ones still are.
  pub find-insert_all :
      (os : List Order) (rows : T.Rows) (i : ℕ)
      → Distinct os
      → Unused T os rows
      → T.find i (insert_all T os rows)
        ≡ (elim (keyed i os) [ none ↦ T.find i rows | some o ↦ some o ])
  unfolding insert_all
  find-insert_all [] rows i d u = refl
  find-insert_all (o ∷ os) rows i d u = ground (
    arith,
    find-insert_all os (T.insert o rows) i d.1 (Unused-insert o os rows u.0 d.0 u.1),
    T.find-insert o i rows u.0,
    d.0,
  )

  pub Unused-keyed :
      (os : List Order) (rows : T.Rows) (i : ℕ) (o : Order)
      → Unused T os rows
      → keyed i os ≡ some o
      → T.find i rows ≡ none
  Unused-keyed [] rows i o u h = ground arith
  Unused-keyed (x ∷ os) rows i o u h = ground (arith, Unused-keyed os rows i o u.1, u.0)

  pub Unused-keep :
      (p : Order → Bool) (os : List Order) (rows : T.Rows)
      → Unused T os rows
      → Unused T (keep p os) rows
  Unused-keep p [] rows u = tt
  Unused-keep p (o ∷ os) rows u = ground (arith, u.0, Unused-keep p os rows u.1)

  pub Unused-new_orders :
      (uuid : ℕ → ℕ) (n now : ℕ) (buyer : Option ℕ) (ds : List OrderCreate) (rows : T.Rows)
      → ((m : ℕ) → T.find (uuid m) rows ≡ none)
      → Unused T (new_orders uuid n now buyer ds) rows
  unfolding new_order
  Unused-new_orders uuid n now buyer [] rows free = tt
  Unused-new_orders uuid n now buyer (d ∷ ds) rows free =
      (free n, Unused-new_orders uuid (suc n) now buyer ds rows free)

module _ (uuid : ℕ → ℕ) (differ : (m n : ℕ) → uuid m ≡ uuid n → m ≡ n) (now : ℕ)
    (buyer : Option ℕ) where
  keyed-new_orders :
      (n m : ℕ) (ds : List OrderCreate)
      → m < n
      → keyed (uuid m) (new_orders uuid n now buyer ds) ≡ none
  unfolding new_order
  keyed-new_orders n m [] below = refl
  keyed-new_orders n m (d ∷ ds) below =
      ground (arith, differ n m, keyed-new_orders (suc n) m ds (omega arith))

  pub Distinct-new_orders :
      (n : ℕ) (ds : List OrderCreate) → Distinct (new_orders uuid n now buyer ds)
  unfolding new_order
  Distinct-new_orders n [] = tt
  Distinct-new_orders n (d ∷ ds) =
      (keyed-new_orders (suc n) n ds (omega arith), Distinct-new_orders (suc n) ds)

-- The keys of the orders are those of the requests.
abbrev pub asks_for : String → List OrderCreate → Bool
asks_for k = any (λ d. str_eq d.idempotency_key k)

pub has_key-new_orders :
    (k : String) (uuid : ℕ → ℕ) (n now : ℕ) (buyer : Option ℕ) (ds : List OrderCreate)
    → has_key k (new_orders uuid n now buyer ds) ≡ asks_for k ds
unfolding new_order
has_key-new_orders k uuid n now buyer [] = refl
has_key-new_orders k uuid n now buyer (d ∷ ds) =
    ap (λ b. str_eq d.idempotency_key k || b) (has_key-new_orders k uuid (suc n) now buyer ds)

-- A row that satisfies a condition, in a list with distinct ids, and the other way round.
pub keyed_of_any :
    (p : Order → Bool) (os : List Order)
    → Distinct os
    → any p os ≡ true
    → (o : Order) × (keyed o.id os ≡ some o) × (p o ≡ true)
keyed_of_any p [] d h = absurd (ground arith)
keyed_of_any p (x ∷ os) d h = elim (Bool-cases (p x)) [
  | inl yes_x ↦ (x, ground arith, yes_x)
  | inr no_x ↦
      let (o, found, good) = keyed_of_any p os d.1 (ground arith) in
      (o, ground (arith, d.0, found), good)
]

pub any_of_keyed :
    (p : Order → Bool) (os : List Order) (i : ℕ) (o : Order)
    → keyed i os ≡ some o
    → p o ≡ true
    → any p os ≡ true
any_of_keyed p [] i o found good = ground arith
any_of_keyed p (x ∷ os) i o found good = ground (arith, any_of_keyed p os i o)

-- A requested key that no existing order has is the key of a new order.
pub has_key-unseen :
    (k : String) (existing os : List Order)
    → has_key k os ≡ true
    → has_key k existing ≡ false
    → has_key k (unseen existing os) ≡ true
has_key-unseen k existing [] asked free = asked
has_key-unseen k existing (o ∷ os) asked free = elim (Bool-cases (str_eq o.idempotency_key k)) [
  | inl same ↦
      let key : o.idempotency_key ≡ k = (str_eq_iff o.idempotency_key k).0 same in
      let unknown : has_key o.idempotency_key existing ≡ false = rw key free in
      ground (arith, unknown, same)
  | inr other ↦ ground (arith, has_key-unseen k existing os (ground arith) free)
]

-- If every key of the orders is known, none of them is new.
pub unseen-nil :
    (existing os : List Order)
    → ((k : String) → has_key k os ≡ true → has_key k existing ≡ true)
    → unseen existing os ≡ []
unseen-nil existing [] known = refl
unseen-nil existing (o ∷ os) known =
    let self : has_key o.idempotency_key existing ≡ true =
      known o.idempotency_key (rw (str_eq_refl o.idempotency_key) refl) in
    rw self (unseen-nil existing os (λ k asked. known k (ground (arith, asked))))
