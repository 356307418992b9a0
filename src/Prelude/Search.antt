-- ===== src/Prelude/Search.antt =====
-- `std::string::find` of one character, and what a separator cuts off.
use Prim.Native.Nat.{ℕ, suc, ◌+◌}
use mathlib.Core.Path.{◌≡◌, refl}
use mathlib.Core.List.{[], ◌∷◌, ◌++◌}
use mathlib.Core.Option.{Option, none, some}
use native.Mathlib.Omega.{arith}
use harbour_leyni.Prelude.Tests.{◌==◌, if◌then◌else◌}
use harbour_leyni.Prelude.Lists.{Bytes, Lacks, length, drop}

-- The position of the first `c`; `none` is `npos`.
unfoldable pub find : ℕ → Bytes → Option ℕ
find c [] = none
find c (x ∷ xs) =
    if x == c then some 0 else elim (find c xs) [ none ↦ none | some i ↦ some (suc i) ]

pub find-append : (c : ℕ) (xs ys : Bytes) → Lacks c xs → find c (xs ++ c ∷ ys) ≡ some (length xs)
unfolding find
find-append c [] ys h = ground arith
find-append c (x ∷ xs) ys h = ground (arith, find-append c xs ys h.1)

pub find-Lacks : (c : ℕ) (xs : Bytes) → Lacks c xs → find c xs ≡ none
unfolding find
find-Lacks c [] h = refl
find-Lacks c (x ∷ xs) h = ground (arith, find-Lacks c xs h.1)

pub drop_after : (c : ℕ) (xs ys : Bytes) → drop (length xs + 1) (xs ++ c ∷ ys) ≡ ys
drop_after c [] ys = refl
drop_after c (x ∷ xs) ys =
    let e : suc (length xs) + 1 ≡ suc (length xs + 1) = omega arith in rw e (drop_after c xs ys)
