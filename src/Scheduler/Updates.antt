-- ===== src/Scheduler/Updates.antt =====
-- The UPDATE statements of the scheduler, each by primary key, and what a list of them does to a
-- row of the table.
use mathlib.Core.Option
use saga_orchestrator_patter.Base.{
  ℕ, ◌≡◌, refl, Bool, true, false, Option, none, some, inl, inr, List, [], ◌∷◌, arith, ◌==◌, ◌&&◌,
  if◌then◌else◌, Option-cases,
}
use saga_orchestrator_patter.Models.Enums.{manual_intervention_required}
use saga_orchestrator_patter.Models.Order.{Order}
use saga_orchestrator_patter.Table.{OrderTable}
use saga_orchestrator_patter.Table.Rows.{keyed}

-- The row with a new `updated_at`, and the row that needs an admin.
abbrev pub touched : ℕ → Order → Order
touched stamp o = record o { updated_at = stamp }

abbrev pub marked : ℕ → Order → Order
marked now o = record o { global_status = manual_intervention_required; updated_at = now }

abbrev pub is_some {ℓ} : {A : Type ℓ} → Option A → Bool
is_some none = false
is_some (some a) = true

module _ (T : OrderTable) where
  -- `UPDATE orders SET … WHERE id = i`
  unfoldable pub update : (Order → Order) → ℕ → T.Rows → T.Rows
  update f i rows = elim (T.find i rows) [ none ↦ rows | some o ↦ T.write (f o) rows ]

  -- `order.updated_at = now` for each order whose job was enqueued; the stuck ones are older than
  -- the stamp, so each is a change.
  unfoldable pub touch_all : (ℕ → Bool) → (ℕ → ℕ) → List Order → T.Rows → T.Rows
  touch_all sent stamp [] rows = rows
  touch_all sent stamp (o ∷ rest) rows =
      touch_all sent stamp rest
        (if sent o.id then update (touched (stamp o.id)) o.id rows else rows)

  -- `order.global_status = MANUAL_INTERVENTION_REQUIRED`, and `onupdate` for `updated_at`
  unfoldable pub mark_all : ℕ → List Order → T.Rows → T.Rows
  mark_all now [] rows = rows
  mark_all now (o ∷ rest) rows = mark_all now rest (update (marked now) o.id rows)

  pub find-update :
      (f : Order → Order) (same : (o : Order) → (f o).id ≡ o.id) (i j : ℕ) (rows : T.Rows)
      → T.find j (update f i rows)
        ≡ (if i == j then Option.map f (T.find j rows) else T.find j rows)
  unfolding update
  find-update f same i j rows = elim (Option-cases (T.find i rows)) [
    | inl missing ↦ ground arith
    | inr (o, found) ↦ ground (arith, T.find-write (f o) j rows, same o, T.find_id i rows o found)
  ]

  -- One row, when the updates are applied to all rows of a list.
  pub find-touch_all :
      (sent : ℕ → Bool) (stamp : ℕ → ℕ) (os : List Order) (i : ℕ) (rows : T.Rows)
      → T.find i (touch_all sent stamp os rows) ≡ (
          if is_some (keyed i os) && sent i
          then Option.map (touched (stamp i)) (T.find i rows)
          else T.find i rows)
  unfolding touch_all
  find-touch_all sent stamp [] i rows = refl
  find-touch_all sent stamp (o ∷ rest) i rows =
      let rows' = if sent o.id then update (touched (stamp o.id)) o.id rows else rows in
      ground (
        arith,
        find-touch_all sent stamp rest i rows',
        find-update (touched (stamp o.id)) (λ _. refl) o.id i rows,
      )

  pub find-mark_all :
      (now : ℕ) (os : List Order) (i : ℕ) (rows : T.Rows)
      → T.find i (mark_all now os rows)
        ≡ (if is_some (keyed i os) then Option.map (marked now) (T.find i rows) else T.find i rows)
  unfolding mark_all
  find-mark_all now [] i rows = refl
  find-mark_all now (o ∷ rest) i rows = ground (
    arith,
    find-mark_all now rest i (update (marked now) o.id rows),
    find-update (marked now) (λ _. refl) o.id i rows,
  )
