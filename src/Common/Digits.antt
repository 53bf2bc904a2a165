-- ===== src/Common/Digits.antt =====
-- Unsigned decimal numerals, as `str::parse` reads those that are digits only.
use Prim.Native.Nat.{ℕ, ◌+◌, ◌*◌, ◌-◌}
use mathlib.Core.Bool.{Bool, not, ◌&&◌}
use mathlib.Core.Option.{Option, none, some}
use mathlib.Core.List.{[], ◌∷◌}
use rust_enrich.Common.Tests.{leb, if◌then◌else◌}
use rust_enrich.Common.Lists.{all}
use rust_enrich.Common.Text.{Text, bytes, text_eq, is_ascii_digit}

-- `!value.is_empty() && value.bytes().all(|b| b.is_ascii_digit())`
unfoldable pub is_digits : Text → Bool
is_digits s = not (text_eq s []) && all is_ascii_digit (bytes s)

abbrev pub digits_value : ℕ → Text → ℕ
digits_value n [] = n
digits_value n (c ∷ s) = digits_value (n * 10 + (c - 48)) s

-- `parse` into an unsigned type with this greatest value, of a text that is digits
unfoldable pub parse_unsigned : ℕ → Text → Option ℕ
parse_unsigned greatest s =
    if leb (digits_value 0 s) greatest then some (digits_value 0 s) else none
