-- ===== src/Tests/JobTexts.antt =====
-- The texts of job ids.
use saga_orchestrator_patter.World.Jobs.{JobId}
use saga_orchestrator_patter.World.JobIds.{Texts, has_colon, same_id, text_of, same_id-text_of}
use saga_orchestrator_patter.Base.{
  ℕ, zero, suc, ◌↔◌, List, [], ◌∷◌, arith, ap, false, ◌≡◌, refl, true,
}

-- Ids as strokes.
abbrev strokes : ℕ → List ℕ
strokes zero = []
strokes (suc n) = b'1' ∷ strokes n

strokes_injective : (a b : ℕ) → strokes a ≡ strokes b → a ≡ b
strokes_injective zero zero e = refl
strokes_injective zero (suc b) e = absurd (ground arith)
strokes_injective (suc a) zero e = absurd (ground arith)
strokes_injective (suc a) (suc b) e = ap suc (strokes_injective a b (ground arith))

strokes_plain : (a : ℕ) → has_colon (strokes a) ≡ false
strokes_plain zero = refl
strokes_plain (suc a) = strokes_plain a

abbrev stroke_texts : Texts
stroke_texts = record {
  uuid = strokes;
  digits = strokes;
  uuid_injective = strokes_injective;
  digits_injective = strokes_injective;
  uuid_plain = strokes_plain;
}

same_id-text_of_example : (same_id (JobId.compensation 2) (JobId.compensation_at 2 3) ≡ true) ↔ (
    text_of stroke_texts (JobId.compensation 2) ≡ text_of stroke_texts (JobId.compensation_at 2 3))
same_id-text_of_example =
    same_id-text_of stroke_texts (JobId.compensation 2) (JobId.compensation_at 2 3)
