-- ===== src/World/Scrape.antt =====
-- What Prometheus reads of the metrics: the value of each counter by its labels, the number of
-- observations of the histogram, and the gauge. The order of the increments is forgotten.
use mathlib.Core.Quot.{Quot}
use saga_orchestrator_patter.Base.{ℕ, ◌+◌, ◌≡◌, Bool, List, [], ◌∷◌, if◌then◌else◌}
use saga_orchestrator_patter.Models.Enums.{SagaStepStatus}
use saga_orchestrator_patter.World.Metrics.{Execution, Step, Metrics}

-- The increments whose labels pass the test.
abbrev pub value {ℓ} : {A : Type ℓ} → (A → Bool) → List A → ℕ
value p [] = 0
value p (a ∷ rest) = (if p a then 1 else 0) + value p rest

abbrev pub SameValues : Metrics → Metrics → Type 0
SameValues m n =
    ((p : Execution → Bool) → value p m.executions ≡ value p n.executions)
    × ((p : Step × SagaStepStatus → Bool) → value p m.steps ≡ value p n.steps)
    × ((p : Step → Bool) → value p m.durations ≡ value p n.durations)
    × (m.stuck_current ≡ n.stuck_current)

abbrev pub Scrape : Type 0
Scrape = Quot SameValues

abbrev pub scrape : Metrics → Scrape
scrape m = Quot.mk m
