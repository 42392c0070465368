-- ===== src/Goods.antt =====
-- The catalogue: src/services/good.py, src/db/repositories/good.py and src/core/seed.py. A price is
-- in cents, as its column has two decimals.
pub mod Lookup
use saga_orchestrator_patter.Base.{
  ℕ, ◌==◌, String, Bool, true, false, not, ◌||◌, Option, none, some, List, [], ◌∷◌, ◌++◌, any, keep,
  if◌then◌else◌,
}
use saga_orchestrator_patter.World.Effects.{Commit, committed, rolled_back, lost}

pub record Good : Type 0 where
  pub id : ℕ
  pub name : String
  pub price : ℕ

-- `GoodRepository.get`, by the primary key
abbrev pub get : ℕ → List Good → Option Good
get id [] = none
get id (g ∷ gs) = if g.id == id then some g else get id gs

-- `id in ids`
abbrev pub contains : ℕ → List ℕ → Bool
contains id = any (λ i. i == id)

-- `select(Good).where(Good.id.in_(good_ids))`
abbrev pub get_many : List ℕ → List Good → List Good
get_many ids = keep (λ g. contains g.id ids)

abbrev pub ids_of : List Good → List ℕ
ids_of [] = []
ids_of (g ∷ gs) = g.id ∷ ids_of gs

-- `good_ids - set(good_map.keys())`, as a list that may repeat an id
abbrev pub missing_goods : List ℕ → List Good → List ℕ
missing_goods ids found = keep (λ i. not (contains i (ids_of found))) ids

-- `GoodService.create`, with the id that the database gives; it only flushes.
abbrev pub create_good : ℕ → String → ℕ → List Good → Good × List Good
create_good id name price gs =
    let good : Good = record { id = id; name = name; price = price } in (good, good ∷ gs)

abbrev pub test_goods : List Good
test_goods =
    record { id = 1; name = "Cyberpunk Coffee"; price = 599 }
    ∷ record { id = 2; name = "Quantum Keyboard"; price = 12050 }
    ∷ record { id = 3; name = "Neural Headphones"; price = 29999 }
    ∷ record { id = 4; name = "Shit games from Steam"; price = 399 }
    ∷ record { id = 5; name = "Bird toy"; price = 9999 }
    ∷ []

-- The INSERT of all five violates the primary key if one of them is there by then.
abbrev pub clashes : List Good → List Good → Bool
clashes new gs = any (λ g. contains g.id (ids_of gs)) new

pub data SeedResult : Type 0 where
  seeded skipped failed : SeedResult

insert_goods : Commit → List Good → SeedResult × List Good
insert_goods c gs = if clashes test_goods gs then (failed, gs) else elim c [
  | Commit.committed ↦ (seeded, test_goods ++ gs)
  | rolled_back ↦ (failed, gs)
  | lost ↦ (failed, test_goods ++ gs)
]

-- `meanwhile` is what others commit between the SELECT and the INSERT.
unfoldable pub seed_goods : Commit → (List Good → List Good) → List Good → SeedResult × List Good
unfolding insert_goods
seed_goods c meanwhile (g ∷ gs) = (skipped, g ∷ gs)
seed_goods c meanwhile [] = insert_goods c (meanwhile [])
