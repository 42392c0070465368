-- ===== src/Goods/Lookup.antt =====
-- The lookup of the goods of a request, and what the seeding gives it.
use saga_orchestrator_patter.Base.{
  ℕ, ◌==◌, ==_iff, ◌≡◌, ◌≤◌, refl, Bool, true, false, not, List, [], ◌∷◌, arith, Bool-cases, inl,
  inr,
}
use saga_orchestrator_patter.World.Effects.{Commit}
use saga_orchestrator_patter.Scheduler.Updates.{is_some}
use saga_orchestrator_patter.Orders.Request.{OrderCreate}
use saga_orchestrator_patter.Orders.{misses_goods}
use saga_orchestrator_patter.Goods.{
  Good, get, contains, get_many, ids_of, missing_goods, seed_goods, seeded, skipped,
}

-- `{d.good_id for d in data_list}`, as a list that may repeat an id.
abbrev pub good_ids : List OrderCreate → List ℕ
good_ids [] = []
good_ids (d ∷ ds) = d.good_id ∷ good_ids ds

abbrev pub is_empty {ℓ} : {A : Type ℓ} → List A → Bool
is_empty [] = true
is_empty (a ∷ rest) = false

-- The catalogue as a test on ids.
abbrev pub exists_in : List Good → ℕ → Bool
exists_in gs id = is_some (get id gs)

-- An id of the request is found by the one query if a good has it.
contains-get_many :
    (i : ℕ) (ids : List ℕ) (gs : List Good)
    → contains i ids ≡ true
    → contains i (ids_of (get_many ids gs)) ≡ exists_in gs i
contains-get_many i ids [] asked = refl
contains-get_many i ids (g ∷ gs) asked = elim (Bool-cases (g.id == i)) [
  | inl same ↦
      let e : g.id ≡ i = (==_iff g.id i).0 same in
      let here : contains g.id ids ≡ true = rw e asked in ground (arith, here, same)
  | inr other ↦ ground (arith, contains-get_many i ids gs asked, other)
]

missing-suffix :
    (all : List ℕ) (gs : List Good) (ds : List OrderCreate)
    → ((i : ℕ) → contains i (good_ids ds) ≡ true → contains i all ≡ true)
    → misses_goods (exists_in gs) ds
      ≡ not (is_empty (missing_goods (good_ids ds) (get_many all gs)))
missing-suffix all gs [] asked = refl
missing-suffix all gs (d ∷ ds) asked = ground (
  arith,
  contains-get_many d.good_id all gs (asked d.good_id (ground arith)),
  missing-suffix all gs ds (λ i h. asked i (ground arith)),
)

-- The one query for all goods of a request and the difference of the two sets find a missing good
-- exactly if some order of the request has a good that is not in the catalogue.
misses_goods-get_many :
    (gs : List Good) (ds : List OrderCreate)
    → misses_goods (exists_in gs) ds
      ≡ not (is_empty (missing_goods (good_ids ds) (get_many (good_ids ds) gs)))
misses_goods-get_many gs ds = missing-suffix (good_ids ds) gs ds (λ i h. h)

-- Once seeded, the catalogue has the five test goods, and no later start changes it.
seed_goods_once :
    (c c' : Commit) (meanwhile meanwhile' : List Good → List Good) (i : ℕ)
    → (seed_goods c meanwhile []).0 ≡ seeded
    → 1 ≤ i
    → i ≤ 5
    → (exists_in (seed_goods c meanwhile []).1 i ≡ true)
      × (seed_goods c' meanwhile' (seed_goods c meanwhile []).1
          ≡ (skipped, (seed_goods c meanwhile []).1))
unfolding seed_goods
seed_goods_once c c' meanwhile meanwhile' i done low high = ground arith
