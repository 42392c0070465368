-- ===== src/Tasks/Compensation/Rows.antt =====
-- The rows that a compensation may leave, whatever fails, when nothing else happens meanwhile.
use saga_orchestrator_patter.Base.{
  ℕ, ◌≡◌, ◌≢◌, refl, ap, ◌∙◌, false, ◌⊎◌, inl, inr, none, some, arith, Option-cases,
}
use saga_orchestrator_patter.Models.Order.{Order, flush, flush-id}
use saga_orchestrator_patter.Table.{OrderTable, find-write_self, find-write_other}
use saga_orchestrator_patter.World.Effects.{Outcome, returned, raised, World, commit, measure}
use saga_orchestrator_patter.World.Metrics.{compensation_attempted, record_execution}
use saga_orchestrator_patter.Tasks.Compensation.Row.{
  Undo, has_pending, undo_of, begin_row, end_row, close_row,
}
use saga_orchestrator_patter.Tasks.Compensation.{
  CompensationEnv, compensation, end_phase, call_services, go_on,
}

-- The row after the first session, and the row after the last one.
abbrev pub begun_row : ℕ → Order → Order
begun_row now o = flush now o (begin_row now o)

module _ {T : OrderTable} (env : CompensationEnv T) (retry : ℕ) (u : Undo) (o : Order) where
  unfoldable pub ended_row : Order
  ended_row = flush env.finished_at o (close_row retry (end_row u env.replies o))

  pub ended_row-id : ended_row.id ≡ o.id
  unfolding ended_row end_row close_row
  ended_row-id =
      ground (arith, flush-id env.finished_at o (close_row retry (end_row u env.replies o)))

module _ {T : OrderTable} (env : CompensationEnv T) (id retry : ℕ) (u : Undo) (w : World T) where
  end_phase_atomic :
      (o : Order)
      → T.find id w.rows ≡ some o
      → ((end_phase env id retry u w).1.rows ≡ w.rows)
        ⊎ ((end_phase env id retry u w).1.rows ≡ T.write (ended_row env retry u o) w.rows)
  unfolding end_phase commit ended_row close_row
  end_phase_atomic o found = ground arith

  end_phase_missing : T.find id w.rows ≡ none → (end_phase env id retry u w).1.rows ≡ w.rows
  unfolding end_phase
  end_phase_missing missing = ground arith

module _ {T : OrderTable} (env : CompensationEnv T) (id retry : ℕ)
    (alone : (rows : T.Rows) → env.meanwhile rows ≡ rows) where
  call_services-rows : (u : Undo) (w : World T) → (call_services env id u w).rows ≡ w.rows
  unfolding call_services
  call_services-rows u w = ground (arith, alone w.rows)

  go_on_atomic :
      (u : Undo) (r : Outcome × World T) (o : Order)
      → T.find id r.1.rows ≡ some o
      → ((go_on env id retry u r).1.rows ≡ r.1.rows)
        ⊎ ((go_on env id retry u r).1.rows ≡ T.write (ended_row env retry u o) r.1.rows)
  unfolding go_on
  go_on_atomic u (raised, w) o found = inl refl
  go_on_atomic u (returned, w) o found =
      let w' = call_services env id u w in
      let same = call_services-rows u w in
      elim (end_phase_atomic env id retry u w' o (ap (T.find id) same ∙ found)) [
        | inl kept ↦ inl (kept ∙ same)
        | inr wrote ↦ inr (wrote ∙ ap (T.write (ended_row env retry u o)) same)
      ]

  module _ (w : World T) (o : Order) (found : T.find id w.rows ≡ some o) where
    began : Outcome × World T
    began =
        commit env.began env.started_at o (begin_row env.started_at o)
          (measure (record_execution compensation_attempted) w)

    began_rows :
        ((began.0 ≡ raised) × (began.1.rows ≡ w.rows))
        ⊎ (began.1.rows ≡ T.write (begun_row env.started_at o) w.rows)
    unfolding began commit
    began_rows = ground arith

    compensation_defers_or :
        ((compensation env id retry w).1.rows ≡ w.rows)
        ⊎ ((has_pending o ≡ false)
            × ((compensation env id retry w).1.rows
                ≡ (go_on env id retry (undo_of o) began).1.rows))
    unfolding compensation began
    compensation_defers_or = ground arith

    go_on_raised :
        (u : Undo) → began.0 ≡ raised → (go_on env id retry u began).1.rows ≡ began.1.rows
    unfolding go_on
    go_on_raised u h = ground arith

    begun : Order
    begun = begun_row env.started_at o

    begun-id : begun.id ≡ o.id
    unfolding begun
    begun-id = ground (arith, flush-id env.started_at o (begin_row env.started_at o))

    found_begun : T.find id (T.write begun w.rows) ≡ some begun
    found_begun = find-write_self T o begun id w.rows found begun-id

    -- The row is as before, or as one session left it, or as both did.
    compensation_rows :
        ((compensation env id retry w).1.rows ≡ w.rows)
        ⊎ ((has_pending o ≡ false) × ((compensation env id retry w).1.rows ≡ T.write begun w.rows))
        ⊎ ((has_pending o ≡ false)
            × ((compensation env id retry w).1.rows
                ≡ T.write (ended_row env retry (undo_of o) begun) (T.write begun w.rows)))
    unfolding begun
    compensation_rows = elim compensation_defers_or [
      | inl kept ↦ inl kept
      | inr (ready, goes) ↦ elim began_rows [
        | inl (failed, kept) ↦ inl (goes ∙ go_on_raised (undo_of o) failed ∙ kept)
        | inr wrote ↦
            elim (go_on_atomic (undo_of o) began begun (ap (T.find id) wrote ∙ found_begun)) [
              | inl kept ↦ inr (inl (ready, goes ∙ kept ∙ wrote))
              | inr both ↦ inr (
                  inr (
                    ready,
                    goes ∙ both ∙ ap (T.write (ended_row env retry (undo_of o) begun)) wrote,
                  ))
            ]
      ]
    ]

    -- The row of the order itself.
    pub compensation_row :
        (T.find id (compensation env id retry w).1.rows ≡ some o)
        ⊎ ((has_pending o ≡ false)
            × (T.find id (compensation env id retry w).1.rows ≡ some (begun_row env.started_at o)))
        ⊎ ((has_pending o ≡ false)
            × (T.find id (compensation env id retry w).1.rows
                ≡ some (ended_row env retry (undo_of o) (begun_row env.started_at o))))
    unfolding begun
    compensation_row = elim compensation_rows [
      | inl kept ↦ inl (ap (T.find id) kept ∙ found)
      | inr (inl (ready, wrote)) ↦ inr (inl (ready, ap (T.find id) wrote ∙ found_begun))
      | inr (inr (ready, wrote)) ↦
          let last = ended_row env retry (undo_of o) begun in
          inr (
            inr (
              ready,
              ap (T.find id) wrote
                  ∙ find-write_self T begun last id (T.write begun w.rows) found_begun
                      (ended_row-id env retry (undo_of o) begun),
            ))
    ]

    compensation-other_found :
        (i : ℕ) → i ≢ id → T.find i (compensation env id retry w).1.rows ≡ T.find i w.rows
    compensation-other_found i other =
        let same : begun.id ≡ id = begun-id ∙ T.find_id id w.rows o found in
        let last = ended_row env retry (undo_of o) begun in
        let first = find-write_other T begun i w.rows (λ e. other (e ∙ same)) in
        elim compensation_rows [
          | inl kept ↦ ap (T.find i) kept
          | inr (inl (ready, wrote)) ↦ ap (T.find i) wrote ∙ first
          | inr (inr (ready, wrote)) ↦
              ap (T.find i) wrote
              ∙ find-write_other T last i (T.write begun w.rows)
                  (λ e. other (e ∙ ended_row-id env retry (undo_of o) begun ∙ same))
              ∙ first
        ]

  compensation_missing :
      (w : World T) → T.find id w.rows ≡ none → (compensation env id retry w).1.rows ≡ w.rows
  unfolding compensation
  compensation_missing w missing = ground arith

  pub compensation-other_rows :
      (w : World T) (i : ℕ)
      → i ≢ id
      → T.find i (compensation env id retry w).1.rows ≡ T.find i w.rows
  compensation-other_rows w i other = elim (Option-cases (T.find id w.rows)) [
    | inl missing ↦ ap (T.find i) (compensation_missing w missing)
    | inr (o, found) ↦ compensation-other_found w o found i other
  ]
