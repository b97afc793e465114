-- ===== src/Api/Time.antt =====
-- time.Time as nanoseconds since its zero value, and time.Duration as a signed 64-bit count.
use kubepark.Prelude.{ℕ, suc, ◌-◌, ◌*◌, ◌/◌, ◌%◌, ◌^◌, Bool, ltb, leb, eqb, if◌then◌else◌}
use kubepark.Prelude.Int.{ℤ, pos, negsuc, sub_ℕ, pos_part, neg_part, ◌-ℤ◌, ltb_ℤ}

abbrev pub Time : Type 0
Time = ℕ

abbrev pub Duration : Type 0
Duration = ℤ

abbrev pub max_duration : ℕ
max_duration = 2 ^ 63 - 1

abbrev pub second : ℕ
second = 1000000000

abbrev pub seconds : ℕ → Duration
seconds n = pos (n * second)

abbrev pub is_zero : Time → Bool
is_zero t = eqb t 0

-- t.Before(u)
abbrev pub before : Time → Time → Bool
before t u = ltb t u

-- t.After(u)
abbrev pub after : Time → Time → Bool
after t u = ltb u t

-- Time.Sub returns the nearest Duration where the difference does not fit.
abbrev pub saturate : ℤ → Duration
saturate (pos n) = if leb n max_duration then pos n else pos max_duration
saturate (negsuc n) = if leb n max_duration then negsuc n else negsuc max_duration

unfoldable pub sub : Time → Time → Duration
sub t u = saturate (sub_ℕ t u)

-- Two's complement: what int64 arithmetic makes of an integer that does not fit.
abbrev pub wrap_word : ℕ → Duration
wrap_word n = if leb n max_duration then pos n else negsuc (2 ^ 64 - 1 - n)

unfoldable pub wrap : ℤ → Duration
wrap (pos n) = wrap_word (n % 2 ^ 64)
wrap (negsuc n) = wrap_word (2 ^ 64 - 1 - n % 2 ^ 64)

-- a - b
unfoldable pub minus : Duration → Duration → Duration
unfolding wrap
minus a b = wrap (a -ℤ b)

-- k * d
unfoldable pub times : ℕ → Duration → Duration
unfolding wrap
times k d = wrap (sub_ℕ (k * pos_part d) (k * neg_part d))

-- d / k, which Go truncates towards zero
unfoldable pub quotient : Duration → ℕ → Duration
quotient (pos n) k = pos (n / k)
quotient (negsuc n) k = sub_ℕ 0 (suc n / k)

abbrev pub longer : Duration → Duration → Duration
longer a b = if ltb_ℤ a b then b else a
