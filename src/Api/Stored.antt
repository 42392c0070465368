-- ===== src/Api/Stored.antt =====
-- POST /orders/ on a valid request for one order, from the endpoint to the columns of the table.
use saga_orchestrator_patter.Base.{
  ℕ, ◌≡◌, refl, String, ◌||◌, ◌&&◌, ◌∙◌, Bool, true, false, inl, inr, Option, none, some, [], ◌∷◌,
  arith, if◌then◌else◌, Bool-cases, ltb,
}
use saga_orchestrator_patter.Table.{OrderTable}
use saga_orchestrator_patter.Models.Enums.{pending, processing}
use saga_orchestrator_patter.Models.Order.{Order}
use saga_orchestrator_patter.World.Jobs.{Function, JobId, saga_tasks, billing_job}
use saga_orchestrator_patter.World.Effects.{Commit, World}
use saga_orchestrator_patter.Orders.Request.{OrderCreate, new_order}
use saga_orchestrator_patter.Orders.{
  CreateEnv, created, CreateResult, create_bulk, create_orders, is_requested, has_big_id,
  misses_goods, has_buyer, insert_all, enqueue_billing,
}
use saga_orchestrator_patter.Orders.Endpoint.{single, Answer, one, answer, create}
use saga_orchestrator_patter.Orders.Validation.{is_valid, new_order-fits}
use saga_orchestrator_patter.Orders.Columns.{fits_columns, is_storable}
use saga_orchestrator_patter.Auth.{Crypto, ok}
use saga_orchestrator_patter.Auth.Bearer.{get_optional_current_user}
use saga_orchestrator_patter.Api.{post_orders}

-- The table takes the row of the order: its quantity and its texts can be stored, and its buyer, if
-- it has one, is in the table of users.
abbrev pub is_acceptable : CreateEnv → Option ℕ → OrderCreate → Bool
is_acceptable call buyer d =
    ltb d.quantity 2147483648 && is_storable d.order_details && has_buyer call.buyer_exists buyer

module _ {T : OrderTable} (K : Crypto) (now : ℕ) (token : Option K.Token) (is_email : String → Bool)
    (call : CreateEnv) (buyer : Option ℕ) (d : OrderCreate) (w : World T) where
  -- The flush of the only order of the request is refused.
  create_bulk_refused :
      (has_buyer call.buyer_exists buyer && fits_columns (new_order (call.uuid 0) call.now buyer d))
        ≡ false
      → T.select (is_requested (new_order (call.uuid 0) call.now buyer d ∷ [])) w.rows ≡ []
      → (has_big_id (d ∷ []) || misses_goods call.good_exists (d ∷ [])) ≡ false
      → create_bulk call buyer (d ∷ []) w ≡ (CreateResult.raised, w)
  unfolding create_bulk create_orders new_order
  create_bulk_refused refused unknown goods = ground arith

  -- The only order of the request is accepted.
  create_bulk_stored :
      let o = new_order (call.uuid 0) call.now buyer d in
      (has_buyer call.buyer_exists buyer && fits_columns o) ≡ true
      → T.select (is_requested (o ∷ [])) w.rows ≡ []
      → (has_big_id (d ∷ []) || misses_goods call.good_exists (d ∷ [])) ≡ false
      → call.key_taken ≡ false
      → call.committed ≡ Commit.committed
      → call.sent (call.uuid 0) ≡ true
      → create_bulk call buyer (d ∷ []) w ≡ (
        created (o ∷ []) [],
        record w { rows = T.insert o w.rows; jobs = billing_job (call.uuid 0) ∷ w.jobs },
      )
  unfolding create_bulk create_orders insert_all enqueue_billing new_order
  create_bulk_stored taken unknown goods free commits sends = ground arith

  taken-is_acceptable :
      is_valid is_email d ≡ true
      → (has_buyer call.buyer_exists buyer
          && fits_columns (new_order (call.uuid 0) call.now buyer d))
        ≡ is_acceptable call buyer d
  taken-is_acceptable valid =
      let fits = new_order-fits is_email d (call.uuid 0) call.now buyer valid in
      ground (arith, fits)

  -- Let a valid request for one order come with a new id and a key that no order has, for a good
  -- that exists, let its token, if it has one, pass, let no other request take the key meanwhile,
  -- and let the commit and the broker work. If its quantity is below 2 ^ 31, no text of its
  -- shipping details has the code point 0 and its buyer, if it has one, is in the table of users,
  -- then it is answered by 201 with the order of the request, whose row, PENDING in all steps and
  -- in PROCESSING, is then in the table, and a job of billing is enqueued for it; else it is
  -- answered by 500, no row has its id, and nothing is changed.
  pub post_orders_stored :
      get_optional_current_user K now token ≡ ok buyer
      → is_valid is_email d ≡ true
      → T.find (call.uuid 0) w.rows ≡ none
      → T.select (is_requested (new_order (call.uuid 0) call.now buyer d ∷ [])) w.rows ≡ []
      → (has_big_id (d ∷ []) || misses_goods call.good_exists (d ∷ [])) ≡ false
      → call.key_taken ≡ false
      → call.committed ≡ Commit.committed
      → call.sent (call.uuid 0) ≡ true
      → let o : Order = record {
        id = call.uuid 0;
        buyer_id = buyer;
        good_id = d.good_id;
        idempotency_key = d.idempotency_key;
        billing_status = pending;
        inventory_status = pending;
        logistics_status = pending;
        global_status = processing;
        payment_type = d.payment_type;
        quantity = d.quantity;
        created_at = call.now;
        updated_at = call.now;
        shipping_detail = some d.order_details;
      } in
        let r = post_orders K now token is_email call (single d) w in
        (r ≡ (
          if is_acceptable call buyer d
          then (
            one 201 o,
            record w {
              rows = T.insert o w.rows;
              jobs =
                  record {
                    function = Function.process_billing;
                    order_id = call.uuid 0;
                    retry_count = 0;
                    job_id = JobId.billing (call.uuid 0);
                    queue = saga_tasks;
                    defer_by = 0;
                  }
                  ∷ w.jobs;
            },
          )
          else (Answer.error 500, w)))
        × (T.find (call.uuid 0) r.1.rows ≡ (if is_acceptable call buyer d then some o else none))
  unfolding post_orders create answer new_order
  post_orders_stored who valid fresh unknown goods free commits sends =
      let o = new_order (call.uuid 0) call.now buyer d in
      let same = taken-is_acceptable valid in
      elim (Bool-cases (is_acceptable call buyer d)) [
        | inl accepted ↦
            let stored = create_bulk_stored (same ∙ accepted) unknown goods free commits sends in
            rw (who, valid, accepted, stored) (refl, ground (arith, T.find-insert o o.id w.rows))
        | inr turned_away ↦
            rw (who, valid, turned_away, create_bulk_refused (same ∙ turned_away) unknown goods)
              (refl, fresh)
      ]
