-- ===== src/Python/Decimal.antt =====
-- `str(n)` and `int(s)` of Python, for texts of ASCII characters.
use kazoo.Base.{
  ℕ, zero, suc, ◌+◌, ◌-◌, ◌*◌, ◌/◌, ◌%◌, ◌≡◌, refl, List, [], ◌∷◌, Option, none, some, Bool, true,
  false, ◌&&◌, ◌||◌, ◌==◌, leb, ltb, if◌then◌else◌,
}
use kazoo.Base.Int.{ℤ, pos, negsuc}

-- The digits of a number, before others; a number has fewer digits than its value and one.
abbrev digits : ℕ → ℕ → List ℕ → List ℕ
digits zero n rest = rest
digits (suc fuel) n rest =
    let more = digits fuel (n / 10) ((b'0' + n % 10) ∷ rest) in
    if ltb n 10 then (b'0' + n) ∷ rest else more

unfoldable pub str : ℕ → List ℕ
str n = digits (suc n) n []

abbrev is_space : ℕ → Bool
is_space c = (c == 32) || (leb 9 c && leb c 13)

abbrev is_digit : ℕ → Bool
is_digit c = leb b'0' c && leb c b'9'

-- Digits and what is behind them, with single underscores between digits; `after` says that a digit
-- stands before.
unfoldable pub read_digits : Bool → ℕ → List ℕ → Option ℕ
read_digits true acc [] = some acc
read_digits false acc [] = none
read_digits true acc (c ∷ s) =
    let next = read_digits true (acc * 10 + (c - b'0')) s in
    let gap = read_digits false acc s in
    if is_digit c then next else if c == b'_' then gap else none
read_digits false acc (c ∷ s) =
    let next = read_digits true (acc * 10 + (c - b'0')) s in if is_digit c then next else none

-- s.strip() on the right
unfoldable pub rstrip : List ℕ → List ℕ
rstrip [] = []
rstrip (c ∷ s) = keep (rstrip s)
  where
    keep : List ℕ → List ℕ
    keep [] = if is_space c then [] else c ∷ []
    keep (d ∷ t) = c ∷ d ∷ t

unfoldable pub lstrip : List ℕ → List ℕ
lstrip [] = []
lstrip (c ∷ s) = let rest = lstrip s in if is_space c then rest else c ∷ s

abbrev positive : Option ℕ → Option ℤ
positive none = none
positive (some n) = some (pos n)

abbrev negative : Option ℕ → Option ℤ
negative none = none
negative (some zero) = some (pos 0)
negative (some (suc n)) = some (negsuc n)

abbrev signed : List ℕ → Option ℤ
signed [] = none
signed (c ∷ s) =
    if c == b'-'
    then negative (read_digits false 0 s)
    else if c == b'+'
    then positive (read_digits false 0 s)
    else positive (read_digits false 0 (c ∷ s))

-- None where `int` raises ValueError.
unfoldable pub int : List ℕ → Option ℤ
unfolding read_digits rstrip lstrip
int s = signed (lstrip (rstrip s))

int_test : int (32 ∷ b'-' ∷ b'1' ∷ b'_' ∷ b'2' ∷ 10 ∷ []) ≡ some (negsuc 11)
unfolding int
int_test = refl

str_test : str 120 ≡ b'1' ∷ b'2' ∷ b'0' ∷ []
unfolding str
str_test = refl
