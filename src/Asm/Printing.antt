-- ===== src/Asm/Printing.antt =====
-- The printing of numbers and registers in src/asm/disassembler.cpp: `std::to_string`, `std::to_chars`
-- in a base, `reg`, `pred`, `signed_decimal`, `hex`.
pub mod Reading
use Prim.Native.Char.{Char}
use Prim.Native.String
use Prim.Native.String.{◌++◌ as ◌+++◌}
use warp_sim.Base.{ℕ, zero, suc, String, ◌-◌, ◌/◌, ◌%◌, ◌^◌, ltb, leb, ◌==◌, if◌then◌else◌}

-- A digit of base 10 or 16.
unfoldable pub digit_char : ℕ → Char
digit_char d =
    if d == 0
    then "0"
    else if d == 1
    then "1"
    else if d == 2
    then "2"
    else if d == 3
    then "3"
    else if d == 4
    then "4"
    else if d == 5
    then "5"
    else if d == 6
    then "6"
    else if d == 7
    then "7"
    else if d == 8
    then "8"
    else if d == 9
    then "9"
    else if d == 10
    then "a"
    else if d == 11
    then "b"
    else if d == 12
    then "c"
    else if d == 13
    then "d"
    else if d == 14
    then "e"
    else "f"

-- The digits of a number of at most so many digits and one.
unfoldable pub to_base : ℕ → ℕ → ℕ → String
to_base zero base n = String.◌∷◌ (digit_char (n % base)) ""
to_base (suc fuel) base n =
    let front = to_base fuel base (n / base) in
    if ltb n base
    then String.◌∷◌ (digit_char n) ""
    else front +++ String.◌∷◌ (digit_char (n % base)) ""

-- `std::to_string` of an unsigned number of at most 32 bits.
unfoldable pub decimal_text : ℕ → String
decimal_text n = to_base 9 10 n

unfoldable pub reg : ℕ → String
reg index = "r" +++ decimal_text index

unfoldable pub pred : ℕ → String
pred index = "p" +++ decimal_text index

unfoldable pub signed_decimal : ℕ → String
signed_decimal bits =
    if leb (2 ^ 31) bits then "-" +++ decimal_text (2 ^ 32 - bits) else decimal_text bits

unfoldable pub hex : ℕ → String
hex bits = "0x" +++ to_base 7 16 bits
