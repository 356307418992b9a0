-- ===== src/Prelude/Texts.antt =====
-- `==` of `std::string` and `QString`, on their bytes.
use mathlib.Core.Path.{◌≡◌, refl}
use mathlib.Core.Bool.{Bool, true, false, ◌&&◌}
use mathlib.Core.List.{[], ◌∷◌}
use native.Mathlib.Omega.{arith}
use harbour_leyni.Prelude.Tests.{◌==◌}
use harbour_leyni.Prelude.Lists.{Bytes}

unfoldable pub bytes_equal : Bytes → Bytes → Bool
bytes_equal [] [] = true
bytes_equal [] (y ∷ b) = false
bytes_equal (x ∷ a) [] = false
bytes_equal (x ∷ a) (y ∷ b) = x == y && bytes_equal a b

pub bytes_equal_self : (a : Bytes) → bytes_equal a a ≡ true
unfolding bytes_equal
bytes_equal_self [] = refl
bytes_equal_self (x ∷ a) = ground (arith, bytes_equal_self a)

pub bytes_equal-eq : (a b : Bytes) → bytes_equal a b ≡ true → a ≡ b
unfolding bytes_equal
bytes_equal-eq [] [] h = refl
bytes_equal-eq [] (y ∷ b) h = cc
bytes_equal-eq (x ∷ a) [] h = cc
bytes_equal-eq (x ∷ a) (y ∷ b) h = ground (arith, bytes_equal-eq a b)
