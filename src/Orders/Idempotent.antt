-- ===== src/Orders/Idempotent.antt =====
-- The same request sent twice.
use saga_orchestrator_patter.Base.{
  ℕ, ◌≡◌, refl, sym, ap, ◌∙◌, String, Bool, true, false, Option, none, some, inl, inr, List, [],
  ◌∷◌, ◌||◌, arith, str_eq, str_eq_iff, Bool-cases, Option-cases,
}
use mathlib.Core.Path.{fun_ext}
use saga_orchestrator_patter.Models.Order.{Order}
use saga_orchestrator_patter.Table.{OrderTable}
use saga_orchestrator_patter.Table.Rows.{keyed, matching, Distinct, Distinct-keep}
use saga_orchestrator_patter.World.Effects.{committed, World}
use saga_orchestrator_patter.Orders.Request.{OrderCreate}
use saga_orchestrator_patter.Orders.Saved.{
  Unused, find-insert_all, Unused-keyed, Unused-keep, Unused-new_orders, Distinct-new_orders,
  asks_for, has_key-new_orders, keyed_of_any, any_of_keyed, has_key-unseen, unseen-nil,
}
use saga_orchestrator_patter.Orders.{
  CreateEnv, created, create_bulk, create_orders, enqueue_billing, has_big_id, misses_goods,
  has_key, new_orders, is_requested, unseen, insert_all,
}

pub matching-some :
    (p : Order → Bool) (row : Option Order) (o : Order)
    → matching p row ≡ some o
    → (row ≡ some o) × (p o ≡ true)
matching-some p none o h = ground arith
matching-some p (some x) o h = ground arith

module _ (T : OrderTable) (orders : List Order) (rows : T.Rows) (d : Distinct orders)
    (u : Unused T orders rows) where
  existing : List Order
  existing = T.select (is_requested orders) rows

  saved : List Order
  unfolding existing
  saved = unseen existing orders

  after : T.Rows
  unfolding saved
  after = insert_all T saved rows

  found_after :
      (i : ℕ) → T.find i after ≡ (elim (keyed i saved) [ none ↦ T.find i rows | some o ↦ some o ])
  unfolding after
  found_after i =
      find-insert_all T saved rows i (Distinct-keep _ orders d) (Unused-keep T _ orders rows u)

  selected_after :
      (k : String) (i : ℕ) (o : Order)
      → T.find i after ≡ some o
      → is_requested orders o ≡ true
      → str_eq o.idempotency_key k ≡ true
      → has_key k (T.select (is_requested orders) after) ≡ true
  selected_after k i o found asked same =
      any_of_keyed (λ x. str_eq x.idempotency_key k) (T.select (is_requested orders) after) i o
        (T.keyed-select (is_requested orders) i after
          ∙ ap (matching (is_requested orders)) found
          ∙ ground (arith, asked))
        same

  kept_after : (i : ℕ) (o : Order) → T.find i rows ≡ some o → T.find i after ≡ some o
  kept_after i o found = elim (Option-cases (keyed i saved)) [
    | inl no_new ↦ ground (arith, found_after i)
    | inr (x, new) ↦ absurd (
        ground (
          arith,
          Unused-keyed T saved rows i x (unfold saved in Unused-keep T _ orders rows u) new,
        ))
  ]

  -- Every requested key is the key of a row.
  covered :
      (k : String)
      → has_key k orders ≡ true
      → has_key k (T.select (is_requested orders) after) ≡ true
  unfolding existing saved
  covered k asked = elim (Bool-cases (has_key k existing)) [
    | inl old ↦
        let (o, found, same) =
          keyed_of_any (λ x. str_eq x.idempotency_key k) existing
            (T.select-Distinct (is_requested orders) rows) old in
        let (row, good) =
          matching-some (is_requested orders) (T.find o.id rows) o
            (sym (T.keyed-select (is_requested orders) o.id rows) ∙ found) in
        selected_after k o.id o (kept_after o.id o row) good same
    | inr fresh ↦
        let (o, found, same) =
          keyed_of_any (λ x. str_eq x.idempotency_key k) saved (Distinct-keep _ orders d)
            (has_key-unseen k existing orders asked fresh) in
        let key : o.idempotency_key ≡ k = (str_eq_iff o.idempotency_key k).0 same in
        let wanted : is_requested orders o ≡ true = rw key asked in
        selected_after k o.id o (ground (arith, found_after o.id, found)) wanted same
  ]

-- The ids that `uuid7` makes for a request are new, and differ.
pub record IsFresh {T : OrderTable} (env : CreateEnv) (w : World T) : Type 0 where
  pub differ : (m n : ℕ) → env.uuid m ≡ env.uuid n → m ≡ n
  pub unused : (n : ℕ) → T.find (env.uuid n) w.rows ≡ none

module _ {T : OrderTable} (env : CreateEnv) where
  enqueue_billing-rows : (os : List Order) (w : World T) → (enqueue_billing env os w).rows ≡ w.rows
  unfolding enqueue_billing
  enqueue_billing-rows [] w = refl
  enqueue_billing-rows (o ∷ os) w = enqueue_billing-rows os _ ∙ ground arith

  pub rows_of_created :
      (orders : List Order) (w : World T) (new old : List Order)
      → (create_orders env orders w).0 ≡ created new old
      → (create_orders env orders w).1.rows
        ≡ insert_all T (unseen (T.select (is_requested orders) w.rows) orders) w.rows
  unfolding create_orders
  rows_of_created orders w new old h =
      let saved = unseen (T.select (is_requested orders) w.rows) orders in
      ground (arith, enqueue_billing-rows saved (record w { rows = insert_all T saved w.rows }))

  created_of_known :
      (orders : List Order) (w : World T)
      → env.committed ≡ committed
      → unseen (T.select (is_requested orders) w.rows) orders ≡ []
      → create_orders env orders w ≡ (created [] (T.select (is_requested orders) w.rows), w)
  unfolding create_orders
  created_of_known orders w c none_new = rw (none_new, c)

-- The orders that a request stands for.
abbrev pub requested : CreateEnv → Option ℕ → List OrderCreate → List Order
requested env buyer ds = new_orders env.uuid 0 env.now buyer ds

-- The condition on a row does not depend on the ids.
is_requested-requested :
    (env env' : CreateEnv) (buyer buyer' : Option ℕ) (ds : List OrderCreate)
    → is_requested (requested env buyer ds) ≡ is_requested (requested env' buyer' ds)
is_requested-requested env env' buyer buyer' ds = fun_ext λ o.
    has_key-new_orders o.idempotency_key env.uuid 0 env.now buyer ds
    ∙ sym (has_key-new_orders o.idempotency_key env'.uuid 0 env'.now buyer' ds)

module _ {T : OrderTable} (env : CreateEnv) (buyer : Option ℕ) (ds : List OrderCreate)
    (w : World T) where
  pub create_bulk_known :
      (has_big_id ds || misses_goods env.good_exists ds) ≡ false
      → create_bulk env buyer ds w ≡ create_orders env (requested env buyer ds) w
  unfolding create_bulk
  create_bulk_known known = ground arith

  pub known_of_created :
      (new old : List Order)
      → (create_bulk env buyer ds w).0 ≡ created new old
      → (has_big_id ds || misses_goods env.good_exists ds) ≡ false
  unfolding create_bulk
  known_of_created new old first =
      elim (Bool-cases (has_big_id ds || misses_goods env.good_exists ds)) [
        | inl missing ↦ absurd (ground arith)
        | inr known ↦ known
      ]

  -- After a successful request, every key that it asked for is the key of a row.
  covered_by_created :
      (new old : List Order)
      → IsFresh env w
      → (create_bulk env buyer ds w).0 ≡ created new old
      → (k : String) → asks_for k ds ≡ true
      → has_key k
          (T.select (is_requested (requested env buyer ds)) (create_bulk env buyer ds w).1.rows)
        ≡ true
  unfolding after saved existing
  covered_by_created new old fresh first k asked =
      let orders = requested env buyer ds in
      let same = create_bulk_known (known_of_created new old first) in
      let rows = rows_of_created env orders w new old (ap (λ r. r.0) (sym same) ∙ first) in
      rw (same, rows)
        (covered T orders w.rows (Distinct-new_orders env.uuid fresh.differ env.now buyer 0 ds)
          (Unused-new_orders T env.uuid 0 env.now buyer ds w.rows fresh.unused) k
          (has_key-new_orders k env.uuid 0 env.now buyer ds ∙ asked))

module _ {T : OrderTable} (env env' : CreateEnv) (buyer buyer' : Option ℕ) (ds : List OrderCreate)
    (w : World T) where
  -- If the ids made for a request are new and the request has succeeded, and the catalogue and the
  -- database then answer as before, a second request with the same data, by any buyer, creates
  -- nothing, changes nothing and enqueues nothing, and its answer holds an order for every key
  -- that the request asks for.
  pub create_bulk_again :
      (new old : List Order)
      → IsFresh env w
      → (create_bulk env buyer ds w).0 ≡ created new old
      → ((g : ℕ) → env'.good_exists g ≡ env.good_exists g)
      → env'.committed ≡ committed
      → (again : List Order) × (create_bulk env' buyer' ds (create_bulk env buyer ds w).1
          ≡ (created [] again, (create_bulk env buyer ds w).1))
        × ((k : String) → asks_for k ds ≡ true → has_key k again ≡ true)
  create_bulk_again new old fresh first goods c =
      let orders' = requested env' buyer' ds in
      let w1 = (create_bulk env buyer ds w).1 in
      let again = T.select (is_requested orders') w1.rows in
      let covers : (k : String) → asks_for k ds ≡ true → has_key k again ≡ true = λ k asked.
        rw (is_requested-requested env' env buyer' buyer ds)
          (covered_by_created env buyer ds w new old fresh first k asked) in
      let known : (has_big_id ds || misses_goods env'.good_exists ds) ≡ false =
        rw (fun_ext goods) (known_of_created env buyer ds w new old first) in
      let none_new : unseen again orders' ≡ [] =
        unseen-nil again orders' (λ k asked.
          covers k (sym (has_key-new_orders k env'.uuid 0 env'.now buyer' ds) ∙ asked)) in
      (
        again,
        create_bulk_known env' buyer' ds w1 known ∙ created_of_known env' orders' w1 c none_new,
        covers,
      )
