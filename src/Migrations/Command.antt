-- ===== src/Migrations/Command.antt =====
-- The rest of src/db/migrations/env.py: the URL that alembic is given, through configparser, in
-- each of the two modes in which it is run.
use saga_orchestrator_patter.Base.{
  ℕ, ◌≡◌, String, Option, none, some, List, [], ◌∷◌, arith, str_eq, str_eq_refl, if◌then◌else◌,
  Option-cases, inl, inr, codes,
}
use saga_orchestrator_patter.Settings.{Build, Settings, database_url}
use saga_orchestrator_patter.Engine.{engine}
use saga_orchestrator_patter.Settings.Url.{escape, interpolate, interpolate-escape}

-- The options of a section of alembic.ini as they are written, by code points.
abbrev pub Options : Type 0
Options = List (String × List ℕ)

-- `config.set_main_option(name, value)`
unfoldable pub set_option : String → List ℕ → Options → Options
set_option name value [] = (name, value) ∷ []
set_option name value ((k, v) ∷ os) =
    if str_eq k name then (k, value) ∷ os else (k, v) ∷ set_option name value os

unfoldable pub raw_option : String → Options → Option (List ℕ)
raw_option name [] = none
raw_option name ((k, v) ∷ os) = if str_eq k name then some v else raw_option name os

-- What reading an option gives.
pub data Reading : Type 0 where
  absent malformed : Reading
  text : List ℕ → Reading

abbrev read_text : Option (List ℕ) → Reading
read_text none = malformed
read_text (some t) = text t

-- `reference` is what a reference to another option, such as `%(here)s`, becomes.
module _ (reference : List ℕ → Option (List ℕ)) where
  abbrev read_raw : Option (List ℕ) → Reading
  read_raw none = absent
  read_raw (some v) = read_text (interpolate reference v)

  -- `config.get_main_option(name)`
  unfoldable pub get_main_option : String → Options → Reading
  get_main_option name os = read_raw (raw_option name os)

  -- `config.get_section(…)` reads all options; one that is malformed raises.
  unfoldable pub get_section : Options → Option Options
  get_section [] = some []
  get_section ((k, v) ∷ os) = elim (interpolate reference v) [
    | none ↦ none
    | some t ↦ elim (get_section os) [ none ↦ none | some ts ↦ some ((k, t) ∷ ts) ]
  ]

  -- The URL of the engine that `async_engine_from_config` makes of the section.
  unfoldable pub section_url : Options → Reading
  section_url os = elim (get_section os) [
    | none ↦ malformed
    | some ts ↦ elim (raw_option "sqlalchemy.url" ts) [ none ↦ absent | some t ↦ text t ]
  ]

  raw_option-set_option :
      (name : String) (value : List ℕ) (os : Options)
      → raw_option name (set_option name value os) ≡ some value
  unfolding raw_option set_option
  raw_option-set_option name value [] = ground (arith, str_eq_refl name)
  raw_option-set_option name value ((k, v) ∷ os) =
      ground (arith, raw_option-set_option name value os)

  -- A section that can be read can be read with an option set to an escaped text.
  get_section-set_option :
      (name : String) (value : List ℕ) (os ts : Options)
      → get_section os ≡ some ts
      → get_section (set_option name (escape value) os) ≡ some (set_option name value ts)
  unfolding get_section set_option
  get_section-set_option name value [] ts readable =
      ground (arith, interpolate-escape reference value)
  get_section-set_option name value ((k, v) ∷ os) ts readable =
      elim (Option-cases (interpolate reference v)) [
        | inl bad ↦ absurd (ground arith)
        | inr (t, read) ↦ elim (Option-cases (get_section os)) [
          | inl bad ↦ absurd (ground arith)
          | inr (rest, readable') ↦
              ground (
                arith,
                interpolate-escape reference value,
                get_section-set_option name value os rest,
              )
        ]
      ]

-- The options once env.py has set the URL.
abbrev pub configured : Build → Settings → Options → Options
configured build s os = set_option "sqlalchemy.url" (escape (codes (database_url build s.db))) os

module _ (reference : List ℕ → Option (List ℕ)) (build : Build) (settings : Settings)
    (os ts : Options) where
  -- Whatever the settings of the database, percent signs in the user's name or the password
  -- included, and whatever alembic.ini has written for the URL itself, if its section can be read,
  -- then both modes of the migrations get exactly the URL of the engine that the processes use.
  pub migrations_url :
      get_section reference os ≡ some ts
      → (get_main_option reference "sqlalchemy.url" (configured build settings os)
          ≡ text (codes (engine build settings).url))
        × (section_url reference (configured build settings os)
            ≡ text (codes (engine build settings).url))
  unfolding get_main_option section_url
  migrations_url readable =
      let url = codes (engine build settings).url in
      (
        ground (
          arith,
          raw_option-set_option reference "sqlalchemy.url" (escape url) os,
          interpolate-escape reference url,
        ),
        ground (
          arith,
          get_section-set_option reference "sqlalchemy.url" url os ts readable,
          raw_option-set_option reference "sqlalchemy.url" url ts,
        ),
      )
