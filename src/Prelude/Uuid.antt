-- ===== src/Prelude/Uuid.antt =====
-- `str` of a UUID that is given as a number: its 32 hexadecimal digits in five groups.
use Prim.Native.Nat.{ℕ, zero, suc, ◌+◌, ◌/◌, ◌%◌, ◌^◌}
use Prim.Native.String.{String, ◌++◌, slice}

hex_digits : ℕ → ℕ → String
hex_digits zero n = ""
hex_digits (suc k) n = hex_digits k (n / 16) ++ slice "0123456789abcdef" (n % 16) (n % 16 + 1)

unfoldable pub uuid_text : ℕ → String
unfolding hex_digits
uuid_text n =
    hex_digits 8 (n / 16 ^ 24)
    ++ "-"
    ++ hex_digits 4 (n / 16 ^ 20)
    ++ "-"
    ++ hex_digits 4 (n / 16 ^ 16)
    ++ "-"
    ++ hex_digits 4 (n / 16 ^ 12)
    ++ "-"
    ++ hex_digits 12 n
