-- ===== src/Texts.antt =====
-- Python strings, as the lists of their code points: `startswith`, `endswith` and `==`.
use stock_daily_report.Prelude.{
  ◌≡◌, refl, arith, ℕ, Bool, true, false, ◌&&◌, ◌||◌, List, [], ◌∷◌, ◌==◌,
}

abbrev pub Text : Type 0
Text = List ℕ

unfoldable pub starts_with : Text → Text → Bool
starts_with [] text = true
starts_with (c ∷ cs) [] = false
starts_with (c ∷ cs) (d ∷ ds) = (c == d) && starts_with cs ds

unfoldable pub same_text : Text → Text → Bool
same_text [] [] = true
same_text (c ∷ cs) (d ∷ ds) = (c == d) && same_text cs ds
same_text _ _ = false

unfoldable pub ends_with : Text → Text → Bool
ends_with part [] = same_text part []
ends_with part (c ∷ cs) = same_text part (c ∷ cs) || ends_with part cs

pub same_text→≡ : (a b : Text) → same_text a b ≡ true → a ≡ b
unfolding same_text
same_text→≡ [] [] h = refl
same_text→≡ [] (d ∷ ds) h = absurd (ground (arith, h))
same_text→≡ (c ∷ cs) [] h = absurd (ground (arith, h))
same_text→≡ (c ∷ cs) (d ∷ ds) h =
    let first : c ≡ d = ground (arith, h) in
    let rest : same_text cs ds ≡ true = ground (arith, h) in cc (first, same_text→≡ cs ds rest)

pub same_text_refl : (a : Text) → same_text a a ≡ true
unfolding same_text
same_text_refl [] = refl
same_text_refl (c ∷ cs) = ground (arith, same_text_refl cs)
