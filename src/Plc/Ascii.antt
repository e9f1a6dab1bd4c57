-- ===== src/Plc/Ascii.antt =====
-- The digits of ASCII as Unicode tables, for concrete runs.
use Prim.Native.Char.{Char, code}
use blackbear_edge_bridge.Prelude.{◌≡◌, Bool, true, false, ◌&&◌, arith, leb, nat_eq}
use blackbear_edge_bridge.Text.{is_space}
use blackbear_edge_bridge.Plc.Parser.{Unicode}

abbrev ascii_digit : Char → Bool
ascii_digit c = leb 48 (code c) && leb (code c) 57

pub digit-not_space : (c : Char) → ascii_digit c ≡ true → is_space c ≡ false
unfolding is_space
digit-not_space c h = ground (arith, h)

pub digit-not_letter : (c : Char) → ascii_digit c ≡ true → nat_eq (code c) b'P' ≡ false
digit-not_letter c h = ground (arith, h)

abbrev pub ascii : Unicode
ascii = record {
  is_decimal = ascii_digit;
  is_digit = ascii_digit;
  decimal-digit = λ c h. h;
  digit-not_space = digit-not_space;
  decimal-not_letter = digit-not_letter;
}
