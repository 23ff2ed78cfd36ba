-- ===== src/Base/Words.antt =====
-- Machine integers as native numbers with their wrap-around written out, and byte strings.
use Prim.Native.Nat.{ℕ, ◌+◌, ◌-◌, ◌%◌, ◌^◌}
use Prim.Native.Char.{code}
use Prim.Native.String.{String}
use mathlib.Core.Bool.{Bool, true, false, ◌&&◌}
use mathlib.Core.List.{List, [], ◌∷◌}
use mathlib.Core.Path.{◌≡◌, refl, ap₂}
use native.Mathlib.Omega.{arith}
use rpi_webrtc_streamer.Base.Tests.{ltb, ◌==◌}

-- `size_t` arithmetic
abbrev pub size_mod : ℕ
size_mod = 2 ^ 64

abbrev pub add_size : ℕ → ℕ → ℕ
add_size a b = (a + b) % size_mod

abbrev pub sub_size : ℕ → ℕ → ℕ
sub_size a b = (a + size_mod - b) % size_mod

-- An `int` is its bit pattern, below 2 ^ 32. This is `a < b` on such patterns.
abbrev pub int_mod : ℕ
int_mod = 2 ^ 32

abbrev pub lt_int : ℕ → ℕ → Bool
lt_int a b = ltb ((a + 2 ^ 31) % int_mod) ((b + 2 ^ 31) % int_mod)

-- A `std::string` is its bytes.
abbrev pub Text : Type 0
Text = List ℕ

abbrev pub codes : String → Text
codes String.[] = []
codes (String.◌∷◌ c s) = code c ∷ codes s

abbrev pub is_empty : Text → Bool
is_empty [] = true
is_empty (c ∷ cs) = false

abbrev pub same_text : Text → Text → Bool
same_text [] [] = true
same_text [] (y ∷ ys) = false
same_text (x ∷ xs) [] = false
same_text (x ∷ xs) (y ∷ ys) = x == y && same_text xs ys

pub same_text→eq : (a b : Text) → same_text a b ≡ true → a ≡ b
same_text→eq [] [] h = refl
same_text→eq [] (y ∷ ys) h = absurd (ground (arith, h))
same_text→eq (x ∷ xs) [] h = absurd (ground (arith, h))
same_text→eq (x ∷ xs) (y ∷ ys) h =
    ap₂ ◌∷◌ (ground (arith, h)) (same_text→eq xs ys (ground (arith, h)))
