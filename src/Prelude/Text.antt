-- ===== src/Prelude/Text.antt =====
-- What the program uses of Python's `str`: blankness after `strip`, whitespace, and the order.
use Prim.Native.Nat.{ℕ}
use Prim.Native.Char.{code}
use Prim.Native.String.{String}
use mathlib.Core.Bool.{Bool, true, false, ◌&&◌, ◌||◌}
use mathlib.Core.List.{List, [], ◌∷◌}
use aurora_bot.Prelude.Tests.{leb, ltb, nat_beq, if◌then◌else◌}

-- The code points of a text.
abbrev pub codes : String → List ℕ
codes String.[] = []
codes (String.◌∷◌ c s) = code c ∷ codes s

-- str.isspace of one character
unfoldable pub is_space : ℕ → Bool
is_space c =
    leb 9 c && leb c 13
    || leb 28 c && leb c 32
    || nat_beq c 0x85
    || nat_beq c 0xa0
    || nat_beq c 0x1680
    || leb 0x2000 c && leb c 0x200a
    || nat_beq c 0x2028
    || nat_beq c 0x2029
    || nat_beq c 0x202f
    || nat_beq c 0x205f
    || nat_beq c 0x3000

all_space : List ℕ → Bool
all_space [] = true
all_space (c ∷ s) = is_space c && all_space s

any_space : List ℕ → Bool
any_space [] = false
any_space (c ∷ s) = is_space c || any_space s

-- not s.strip()
unfoldable pub is_blank : String → Bool
unfolding all_space is_space
is_blank s = all_space (codes s)

-- any(character.isspace() for character in s)
unfoldable pub has_space : String → Bool
unfolding any_space is_space
has_space s = any_space (codes s)

codes_le : List ℕ → List ℕ → Bool
codes_le [] b = true
codes_le (x ∷ a) [] = false
codes_le (x ∷ a) (y ∷ b) = let rest = codes_le a b in if ltb x y then true else nat_beq x y && rest

-- s <= t, by code points
unfoldable pub str_le : String → String → Bool
unfolding codes_le
str_le s t = codes_le (codes s) (codes t)
