-- ===== src/World/JobIds.antt =====
-- The f-strings of `_job_id`, as code points: what each call site of `enqueue_job` writes.
use saga_orchestrator_patter.Base.{
  ℕ, ◌==◌, ◌≡◌, ◌↔◌, ap, Bool, true, false, ◌&&◌, List, [], ◌∷◌, ◌++◌, arith, any, codes,
}
use saga_orchestrator_patter.World.Jobs.{
  JobId, billing, inventory, logistic, compensation, compensation_at, gauge_at,
}

abbrev pub same_id : JobId → JobId → Bool
same_id (billing a) (billing b) = a == b
same_id (inventory a) (inventory b) = a == b
same_id (logistic a) (logistic b) = a == b
same_id (compensation a) (compensation b) = a == b
same_id (compensation_at a s) (compensation_at b t) = a == b && s == t
same_id (gauge_at s) (gauge_at t) = s == t
same_id _ _ = false

abbrev pub has_colon : List ℕ → Bool
has_colon = any (λ c. c == b':')

same_id→eq : (i j : JobId) → same_id i j ≡ true → i ≡ j
same_id→eq i j h = ground arith

same_id_refl : (i : JobId) → same_id i i ≡ true
same_id_refl i = ground arith

-- `str` of a UUID and of an integer.
pub record Texts : Type 0 where
  pub uuid : ℕ → List ℕ
  pub digits : ℕ → List ℕ
  pub uuid_injective : (a b : ℕ) → uuid a ≡ uuid b → a ≡ b
  pub digits_injective : (a b : ℕ) → digits a ≡ digits b → a ≡ b
  pub uuid_plain : (a : ℕ) → has_colon (uuid a) ≡ false

module _ (t : Texts) where
  unfoldable pub text_of : JobId → List ℕ
  text_of (billing id) = codes "billing_" ++ t.uuid id
  text_of (inventory id) = codes "inventory_" ++ t.uuid id
  text_of (logistic id) = codes "logistic_" ++ t.uuid id
  text_of (compensation id) = codes "compensation:" ++ t.uuid id
  text_of (compensation_at id at) = codes "compensation:" ++ (t.uuid id ++ b':' ∷ t.digits at)
  text_of (gauge_at at) = codes "sync_manual_intervention_gauge:" ++ t.digits at

-- The text before the first colon ends in one way only.
colon-cancel :
    (xs ys us vs : List ℕ)
    → has_colon xs ≡ false
    → has_colon ys ≡ false
    → xs ++ b':' ∷ us ≡ ys ++ b':' ∷ vs
    → (xs ≡ ys) × (us ≡ vs)
colon-cancel [] [] us vs p q e = ground arith
colon-cancel [] (y ∷ ys) us vs p q e = absurd (ground arith)
colon-cancel (x ∷ xs) [] us vs p q e = absurd (ground arith)
colon-cancel (x ∷ xs) (y ∷ ys) us vs p q e = ground (arith, colon-cancel xs ys us vs)

colon-append : (xs ys us : List ℕ) → has_colon xs ≡ false → xs ≡ ys ++ b':' ∷ us → ⊥
colon-append [] [] us p e = ground arith
colon-append [] (y ∷ ys) us p e = ground arith
colon-append (x ∷ xs) [] us p e = ground arith
colon-append (x ∷ xs) (y ∷ ys) us p e = colon-append xs ys us (ground arith) (ground arith)

module _ (t : Texts) where
  -- A text with the colon is no text of a UUID alone.
  two_parts : (a b at : ℕ) → t.uuid a ≡ t.uuid b ++ b':' ∷ t.digits at → ⊥
  two_parts a b at = colon-append (t.uuid a) (t.uuid b) (t.digits at) (t.uuid_plain a)

  text_of_injective : (i j : JobId) → text_of t i ≡ text_of t j → i ≡ j
  unfolding text_of
  text_of_injective (billing a) (billing b) e = ap billing (t.uuid_injective a b (ground arith))
  text_of_injective (inventory a) (inventory b) e =
      ap inventory (t.uuid_injective a b (ground arith))
  text_of_injective (logistic a) (logistic b) e = ap logistic (t.uuid_injective a b (ground arith))
  text_of_injective (compensation a) (compensation b) e =
      ap compensation (t.uuid_injective a b (ground arith))
  text_of_injective (compensation a) (compensation_at b s) e =
      absurd (two_parts a b s (ground arith))
  text_of_injective (compensation_at a s) (compensation b) e =
      absurd (two_parts b a s (ground arith))
  text_of_injective (compensation_at a s) (compensation_at b u) e =
      let (same, rest) =
        colon-cancel (t.uuid a) (t.uuid b) (t.digits s) (t.digits u) (t.uuid_plain a)
          (t.uuid_plain b) (ground arith) in
      ground (arith, t.uuid_injective a b same, t.digits_injective s u rest)
  text_of_injective (gauge_at s) (gauge_at u) e =
      ap gauge_at (t.digits_injective s u (ground arith))
  text_of_injective i j e = absurd (ground arith)

  -- If the texts of UUIDs and of integers tell them apart and a UUID has no colon, then two calls
  -- of enqueue_job write the same text as _job_id exactly if they are of the same kind, for the
  -- same order where they name one, and at the same second where they name it.
  pub same_id-text_of : (i j : JobId) → (same_id i j ≡ true) ↔ (text_of t i ≡ text_of t j)
  same_id-text_of i j = (
    λ same. ap (text_of t) (same_id→eq i j same),
    λ e. rw (text_of_injective i j e) (same_id_refl j),
  )
