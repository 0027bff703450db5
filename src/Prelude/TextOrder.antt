-- ===== src/Prelude/TextOrder.antt =====
-- The byte order of texts is a strict total order.
use mathlib.Core.Path.{◌≡◌, refl}
use mathlib.Core.Bool.{true, false}
use mathlib.Core.List.{[], ◌∷◌}
use native.Mathlib.Omega.{arith}
use long_task_orchestration.Prelude.Text.{Text, text_ltb}

pub text_ltb_irrefl : (s : Text) → text_ltb s s ≡ false
unfolding text_ltb
text_ltb_irrefl [] = refl
text_ltb_irrefl (a ∷ s) = ground (arith, text_ltb_irrefl s)

pub text_ltb_trans :
    (s t u : Text) → text_ltb s t ≡ true → text_ltb t u ≡ true → text_ltb s u ≡ true
unfolding text_ltb
text_ltb_trans [] [] u h k = ground arith
text_ltb_trans [] (b ∷ t) [] h k = ground arith
text_ltb_trans [] (b ∷ t) (c ∷ u) h k = refl
text_ltb_trans (a ∷ s) [] u h k = ground arith
text_ltb_trans (a ∷ s) (b ∷ t) [] h k = ground arith
text_ltb_trans (a ∷ s) (b ∷ t) (c ∷ u) h k = ground (arith, text_ltb_trans s t u)

pub text_ltb_tri : (s t : Text) → text_ltb s t ≡ false → text_ltb t s ≡ false → s ≡ t
unfolding text_ltb
text_ltb_tri [] [] h k = refl
text_ltb_tri [] (b ∷ t) h k = ground arith
text_ltb_tri (a ∷ s) [] h k = ground arith
text_ltb_tri (a ∷ s) (b ∷ t) h k = ground (arith, text_ltb_tri s t)

pub text_ltb_asymm : (s t : Text) → text_ltb s t ≡ true → text_ltb t s ≡ false
text_ltb_asymm s t h = ground (arith, text_ltb_trans s t s h, text_ltb_irrefl s)

-- `not below` is transitive too.
pub text_geb_trans :
    (s t u : Text) → text_ltb s t ≡ false → text_ltb t u ≡ false → text_ltb s u ≡ false
text_geb_trans s t u h k = ground (
  arith,
  text_ltb_trans s u t,
  text_ltb_trans t s u,
  text_ltb_tri s t h,
  text_ltb_tri t u k,
  text_ltb_asymm s t,
  text_ltb_asymm t u,
)
