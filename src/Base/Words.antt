-- ===== src/Base/Words.antt =====
-- Go's `int` and `time.Duration` are 64-bit words in two's complement: a value is the natural
-- number below 2 ^ 64 with the same bits. Instants and durations count nanoseconds.
use Prim.Native.Nat.{ℕ, ◌+◌, ◌*◌, ◌%◌}
use mathlib.Core.Bool.{Bool, ◌&&◌, not}
use meeting_baa_s.Base.Tests.{ltb, leb, if◌then◌else◌}

-- `d > 0`, read as a signed word.
abbrev pub is_positive : ℕ → Bool
is_positive d = ltb 0 d && ltb d 9223372036854775808

-- `d < 0`, read as a signed word.
abbrev pub is_negative : ℕ → Bool
is_negative d = ltb 9223372036854775807 d

-- `time.Duration(n) * time.Second`, which wraps.
abbrev pub seconds : ℕ → ℕ
seconds n = n * 1000000000 % 18446744073709551616

-- A setting that is not positive has its default.
abbrev pub positive_or : ℕ → ℕ → ℕ
positive_or default n = if is_positive n then n else default

-- `n++`, which wraps.
abbrev pub increment : ℕ → ℕ
increment n = (n + 1) % 18446744073709551616

-- `a >= b` for a positive `b`.
abbrev pub at_least : ℕ → ℕ → Bool
at_least b a = leb b a && not (is_negative a)
