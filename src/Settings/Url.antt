-- ===== src/Settings/Url.antt =====
-- `config.set_main_option("sqlalchemy.url", url.replace("%", "%%"))` of src/db/migrations/env.py, and
-- the interpolation by which configparser reads the option again, on the code points of the text.
use mathlib.Core.Option
use saga_orchestrator_patter.Base.{
  ℕ, ◌==◌, ◌≡◌, refl, Option, none, some, List, [], ◌∷◌, arith, if◌then◌else◌,
}

unfoldable pub escape : List ℕ → List ℕ
escape [] = []
escape (c ∷ cs) = if c == b'%' then b'%' ∷ b'%' ∷ escape cs else c ∷ escape cs

-- A lone percent sign is a reference to another option, `reference` of what follows it, or an error.
module _ (reference : List ℕ → Option (List ℕ)) where
  unfoldable mutual
    pub interpolate : List ℕ → Option (List ℕ)
    interpolate [] = some []
    interpolate (c ∷ cs) =
        let plain = interpolate cs in
        let sign = after_percent cs in
        if c == b'%' then sign else Option.map (λ rest. c ∷ rest) plain

    pub after_percent : List ℕ → Option (List ℕ)
    after_percent [] = none
    after_percent (c ∷ cs) =
        let plain = interpolate cs in
        if c == b'%' then Option.map (λ rest. b'%' ∷ rest) plain else reference (c ∷ cs)

  pub interpolate-escape : (url : List ℕ) → interpolate (escape url) ≡ some url
  unfolding interpolate escape
  interpolate-escape [] = refl
  interpolate-escape (c ∷ cs) = ground (arith, interpolate-escape cs)
