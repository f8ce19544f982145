-- ===== src/Text/Order.antt =====
-- The order of texts.
use yafe.Prelude.{◌≡◌, ◌⊎◌, refl, true, false, [], ◌∷◌, arith}
use yafe.Text.{Text, text_lt}

pub text_lt_irrefl : (s : Text) → text_lt s s ≡ false
unfolding text_lt
text_lt_irrefl [] = refl
text_lt_irrefl (c ∷ s) = ground (arith, text_lt_irrefl s)

pub text_lt_trans : (s t u : Text) → text_lt s t ≡ true → text_lt t u ≡ true → text_lt s u ≡ true
unfolding text_lt
text_lt_trans [] t [] h k = ground arith
text_lt_trans [] t (c ∷ u) h k = refl
text_lt_trans (a ∷ s) [] u h k = ground arith
text_lt_trans (a ∷ s) (b ∷ t) [] h k = ground arith
text_lt_trans (a ∷ s) (b ∷ t) (c ∷ u) h k = ground (arith, text_lt_trans s t u)

pub text_lt_total : (s t : Text) → (text_lt s t ≡ true) ⊎ (s ≡ t) ⊎ (text_lt t s ≡ true)
unfolding text_lt
text_lt_total [] [] = ground arith
text_lt_total [] (b ∷ t) = ground arith
text_lt_total (a ∷ s) [] = ground arith
text_lt_total (a ∷ s) (b ∷ t) = ground (arith, text_lt_total s t)

-- Of three texts, if neither neighbour falls then the last is not below the first.
pub not_lt_trans : (s t u : Text) → text_lt t s ≡ false → text_lt u t ≡ false → text_lt u s ≡ false
not_lt_trans s t u h k = ground (
  arith,
  text_lt_total t s,
  text_lt_total u t,
  text_lt_trans u s t,
  text_lt_trans u s s,
  text_lt_trans s t s,
  text_lt_irrefl s,
)

pub not_lt_of_lt : (s t : Text) → text_lt s t ≡ true → text_lt t s ≡ false
not_lt_of_lt s t h = ground (arith, text_lt_trans s t s, text_lt_irrefl s)
