-- ===== src/Base/Str.antt =====
-- std::string as the list of its bytes.
use Prim.Native.String.{String}
use Prim.Native.Nat.{ℕ}
use mathlib.Core.Path.{◌≡◌, refl}
use Prim.Native.Char.{code}
use mathlib.Core.Logic.{◌↔◌}
use mathlib.Core.Bool.{Bool, true, false, ◌&&◌, ◌||◌}
use mathlib.Core.List.{List, [], ◌∷◌}
use native.Mathlib.Omega.{arith}
use multi_hardware.Base.Tests.{KeyTest, ltb, nat_beq}

abbrev pub Str : Type 0
Str = List ℕ

abbrev pub str : String → Str
str (String.◌∷◌ first rest) = code first ∷ str rest
str String.[] = []

unfoldable pub str_beq : Str → Str → Bool
str_beq [] [] = true
str_beq [] (y ∷ ys) = false
str_beq (x ∷ xs) [] = false
str_beq (x ∷ xs) (y ∷ ys) = nat_beq x y && str_beq xs ys

pub str_beq_iff : (s t : Str) → (str_beq s t ≡ true) ↔ (s ≡ t)
unfolding str_beq
str_beq_iff [] [] = ground arith
str_beq_iff [] (y ∷ ys) = ground arith
str_beq_iff (x ∷ xs) [] = ground arith
str_beq_iff (x ∷ xs) (y ∷ ys) = ground (arith, str_beq_iff xs ys)

instance abbrev pub str_eq : KeyTest Str
str_eq = record { same = str_beq; same_iff = str_beq_iff }

-- std::string::compare(t) < 0.
unfoldable pub str_ltb : Str → Str → Bool
str_ltb [] [] = false
str_ltb [] (y ∷ ys) = true
str_ltb (x ∷ xs) [] = false
str_ltb (x ∷ xs) (y ∷ ys) = ltb x y || (nat_beq x y && str_ltb xs ys)

-- Texts of which neither is before the other are equal.
pub str_ltb_total : (s t : Str) → str_ltb s t ≡ false → str_ltb t s ≡ false → s ≡ t
unfolding str_ltb
str_ltb_total [] [] p q = refl
str_ltb_total [] (y ∷ ys) p q = cc
str_ltb_total (x ∷ xs) [] p q = cc
str_ltb_total (x ∷ xs) (y ∷ ys) p q = ground (arith, str_ltb_total xs ys)
