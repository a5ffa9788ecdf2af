-- ===== src/DbTime.antt =====
-- Times as the database stores and compares them (`formatDBTime` of internal/incidents/db_values.go):
-- RFC 3339 text with the fraction's trailing zeros left off, ordered by SQLite as text. Up to the
-- seconds the text has a fixed width for the years 0 to 9999 and sorts as the number of seconds.
pub mod Order
use safety_recorder.Base.{
  ℕ, zero, suc, ◌+◌, ◌/◌, ◌%◌, Bool, true, false, List, [], ◌∷◌, ◌++◌, ltb, eqb, if◌then◌else◌,
}

abbrev pub second : ℕ
second = 1000000000

-- The last `k` decimal digits of `n`, as characters.
unfoldable pub digits : ℕ → ℕ → List ℕ
digits zero n = []
digits (suc k) n = digits k (n / 10) ++ (n % 10 + b'0') ∷ []

unfoldable pub strip_zeros : List ℕ → List ℕ
strip_zeros [] = []
strip_zeros (c ∷ cs) = elim (strip_zeros cs) [
  | [] ↦ if eqb c b'0' then [] else c ∷ []
  | d ∷ ds ↦ c ∷ d ∷ ds
]

-- What the layout `RFC3339Nano` writes after the seconds: ".123Z", or "Z" for a whole second.
unfoldable pub format_fraction : ℕ → List ℕ
unfolding digits strip_zeros
format_fraction f = if eqb f 0 then b'Z' ∷ [] else b'.' ∷ (strip_zeros (digits 9 f) ++ b'Z' ∷ [])

-- The order of texts by their bytes.
unfoldable pub bytes_le : List ℕ → List ℕ → Bool
bytes_le [] ys = true
bytes_le (x ∷ xs) [] = false
bytes_le (x ∷ xs) (y ∷ ys) = let rest = bytes_le xs ys in if eqb x y then rest else ltb x y

-- SQLite's `a <= b` between the stored texts of two times.
unfoldable pub db_time_le : ℕ → ℕ → Bool
unfolding format_fraction bytes_le
db_time_le a b =
    if eqb (a / second) (b / second)
    then bytes_le (format_fraction (a % second)) (format_fraction (b % second))
    else ltb (a / second) (b / second)
