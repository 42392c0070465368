-- ===== src/Orders/Answers.antt =====
-- What POST /orders/ answers to a request for one order.
use saga_orchestrator_patter.Base.{
  ℕ, ◌≡◌, sym, ap, ◌∙◌, Bool, true, ◌⊎◌, Option, some, inl, inr, List, [], ◌∷◌, arith, str_eq,
}
use saga_orchestrator_patter.Models.Order.{Order}
use saga_orchestrator_patter.Table.{OrderTable}
use saga_orchestrator_patter.Table.Rows.{keyed}
use saga_orchestrator_patter.World.Effects.{World}
use saga_orchestrator_patter.Orders.Request.{OrderCreate, new_order}
use saga_orchestrator_patter.Orders.Endpoint.{one, single, answer, create}
use saga_orchestrator_patter.Orders.Idempotent.{matching-some, create_bulk_known, known_of_created}
use saga_orchestrator_patter.Orders.{
  CreateEnv, created, create_bulk, create_orders, is_requested, unseen,
}

-- The first row of a SELECT satisfies its condition.
select-head :
    (T : OrderTable) (p : Order → Bool) (rows : T.Rows) (e : Order) (rest : List Order)
    → T.select p rows ≡ e ∷ rest
    → p e ≡ true
select-head T p rows e rest h =
    let found : keyed e.id (T.select p rows) ≡ some e = rw h (ground arith) in
    (matching-some p (T.find e.id rows) e (sym (T.keyed-select p e.id rows) ∙ found)).1

module _ {T : OrderTable} (env : CreateEnv) (o : Order) (w : World T) where
  -- The lists that a successful request for the order `o` returns.
  created_lists :
      (new old : List Order)
      → (create_orders env (o ∷ []) w).0 ≡ created new old
      → (old ≡ T.select (is_requested (o ∷ [])) w.rows) × (new ≡ unseen old (o ∷ []))
  unfolding create_orders
  created_lists new old first = ground arith

  answered :
      (new old : List Order)
      → (old ≡ T.select (is_requested (o ∷ [])) w.rows)
      → new ≡ unseen old (o ∷ [])
      → (d : OrderCreate)
      → (answer (single d) (created new old) ≡ one 201 o)
        ⊎ ((e : Order) × (answer (single d) (created new old) ≡ one 200 e)
            × (str_eq o.idempotency_key e.idempotency_key ≡ true))
  unfolding answer
  answered new [] e f d = inl (ground (arith, f))
  answered new (x ∷ rest) e f d =
      inr (
        x,
        ground arith,
        ground (arith, select-head T (is_requested (o ∷ [])) w.rows x rest (sym e)),
      )

module _ {T : OrderTable} (env : CreateEnv) (buyer : Option ℕ) (d : OrderCreate) (w : World T) where
  -- A request for one order that succeeds is answered by 201 with the order made from it, or by
  -- 200 with an order of the same idempotency key.
  pub create_single_answers :
      (new old : List Order)
      → (create_bulk env buyer (d ∷ []) w).0 ≡ created new old
      → ((create env buyer (single d) w).0 ≡ one 201 (new_order (env.uuid 0) env.now buyer d))
        ⊎ ((e : Order) × ((create env buyer (single d) w).0 ≡ one 200 e)
            × (str_eq d.idempotency_key e.idempotency_key ≡ true))
  unfolding create new_order
  create_single_answers new old first =
      let o = new_order (env.uuid 0) env.now buyer d in
      let same =
        create_bulk_known env buyer (d ∷ []) w
          (known_of_created env buyer (d ∷ []) w new old first) in
      let (e, f) = created_lists env o w new old (ap (λ r. r.0) (sym same) ∙ first) in
      rw first (answered env o w new old e f d)
