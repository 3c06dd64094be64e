-- ===== src/Prelude/Trims.antt =====
-- White characters at the ends of a text.
use Prim.Native.Nat.{ℕ}
use mathlib.Core.Bool.{Bool, ◌&&◌, ◌||◌}
use mathlib.Core.List.{List, [], ◌∷◌}
use peraviz.Prelude.Tests.{leb, ◌==◌, if◌then◌else◌}

-- `std::isspace` of the C locale.
unfoldable pub is_space : ℕ → Bool
is_space c = c == 32 || leb 9 c && leb c 13

-- Without the white characters at the front.
unfoldable pub trim_left : List ℕ → List ℕ
trim_left [] = []
trim_left (c ∷ text) = if is_space c then trim_left text else c ∷ text

-- Without those at the end: a white character is kept where something is kept after it.
abbrev pub keep : ℕ → List ℕ → List ℕ
keep c [] = if is_space c then [] else c ∷ []
keep c (d ∷ rest) = c ∷ d ∷ rest

unfoldable pub trim_right : List ℕ → List ℕ
trim_right [] = []
trim_right (c ∷ text) = keep c (trim_right text)
