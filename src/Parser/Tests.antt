-- ===== src/Parser/Tests.antt =====
-- `float_text` and `tag_no_case` on a few texts.
use rust_redis.Prelude.{◌≡◌, refl, codes}
use rust_redis.Parser.{ok}
use rust_redis.Parser.Slices.{tag_no_case}
use rust_redis.Parser.Float.{float_text}

negative : float_text (codes "-12.5e+3,") ≡ ok (codes "-12.5e+3", codes ",")
unfolding float_text
negative = refl

leading_dot : float_text (codes ".5") ≡ ok (codes ".5", codes "")
unfolding float_text
leading_dot = refl

-- An exponent without digits is left in the input.
bare_exponent : float_text (codes "3.e") ≡ ok (codes "3.", codes "e")
unfolding float_text
bare_exponent = refl

-- The word infinity is read up to its first three letters.
infinity_cut : float_text (codes "infinity") ≡ ok (codes "inf", codes "inity")
unfolding float_text
infinity_cut = refl

any_case : tag_no_case (codes "px") (codes "Px 10") ≡ ok (codes "Px", codes " 10")
unfolding tag_no_case
any_case = refl
