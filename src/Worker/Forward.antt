-- ===== src/Worker/Forward.antt =====
-- The jobs of the three forward tasks, counted, and what each task adds to them.
use saga_orchestrator_patter.Base.{
  ℕ, zero, suc, inl, inr, Option-cases, ◌+◌, ◌≡◌, Bool, true, false, ◌&&◌, some, List, [], ◌∷◌,
  arith, ◌==◌, if◌then◌else◌,
}
use saga_orchestrator_patter.World.Jobs.{
  Function, Job, process_billing, process_inventory, process_logistic,
}
use saga_orchestrator_patter.Worker.{take_job}

abbrev pub same_forward : Function → Function → Bool
same_forward process_billing process_billing = true
same_forward process_inventory process_inventory = true
same_forward process_logistic process_logistic = true
same_forward _ _ = false

abbrev pub is_forward_of : Function → ℕ → Job → Bool
is_forward_of f id job = same_forward job.function f && job.order_id == id

-- The forward jobs `f` of the order `id`.
abbrev pub count : Function → ℕ → List Job → ℕ
count f id [] = 0
count f id (job ∷ jobs) = (if is_forward_of f id job then 1 else 0) + count f id jobs

-- Taking a job takes it out of the count.
pub count-take :
    (f : Function) (id n : ℕ) (jobs : List Job) (job : Job) (rest : List Job)
    → take_job n jobs ≡ some (job, rest)
    → count f id jobs ≡ (if is_forward_of f id job then 1 else 0) + count f id rest
count-take f id n [] job rest h = absurd (ground arith)
count-take f id zero (j ∷ jobs) job rest h = ground arith
count-take f id (suc n) (j ∷ jobs) job rest h = elim (Option-cases (take_job n jobs)) [
  | inl missing ↦ absurd (ground arith)
  | inr ((taken, left), found) ↦ ground (arith, found, count-take f id n jobs taken left found)
]
