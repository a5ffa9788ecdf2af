-- ===== src/DbTime/Order.antt =====
-- How the order of the stored texts relates to the order of the times.
use safety_recorder.Base.{ℕ, ◌+◌, ◌*◌, ◌<◌, ◌≡◌, true, false, arith, ◌/◌, ◌%◌}
use safety_recorder.DbTime.{second, format_fraction, bytes_le, db_time_le}

same_second :
    (a b : ℕ)
    → a / second ≡ b / second
    → db_time_le a b ≡ bytes_le (format_fraction (a % second)) (format_fraction (b % second))
unfolding db_time_le
same_second a b h = ground arith

fraction_first :
    (f : ℕ)
    → 0 < f
    → (bytes_le (format_fraction f) (format_fraction 0) ≡ true)
      × (bytes_le (format_fraction 0) (format_fraction f) ≡ false)
unfolding format_fraction bytes_le
fraction_first f h = ground arith

parts : (s f : ℕ) → f < second → ((s * second + f) / second ≡ s) × ((s * second + f) % second ≡ f)
parts s f h = omega arith

whole_parts : (s : ℕ) → (s * second / second ≡ s) × (s * second % second ≡ 0)
whole_parts s = omega arith

-- Within one second a time with a fraction is found to be before the whole second, though it is
-- later: the texts order the two the wrong way round.
pub db_time_le_whole_second :
    (s f : ℕ)
    → 0 < f
    → f < second
    → (db_time_le (s * second + f) (s * second) ≡ true)
      × (db_time_le (s * second) (s * second + f) ≡ false)
db_time_le_whole_second s f p q =
    let a = parts s f q in
    let b = whole_parts s in
    (
      rw (same_second (s * second + f) (s * second) (omega arith), a.1, b.1) (fraction_first f p).0,
      rw (same_second (s * second) (s * second + f) (omega arith), a.1, b.1) (fraction_first f p).1,
    )
