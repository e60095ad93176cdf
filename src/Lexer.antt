-- ===== src/Lexer.antt =====
-- The lexer of src/Lexer.cpp over the bytes of src/FileData.cpp: characters, and how a scan ends. A
-- file is the list of the bytes from `index` on; lines and columns are not modelled.
pub mod Tables
pub mod Numbers
pub mod Texts
pub mod Tokens
pub mod Files
pub mod Keeps
pub mod LastTokens
pub mod Ends
pub mod Hex
pub mod Values
pub mod Operators
mod Tests
use cbuf.Base.{ℕ, Bool, ◌&&◌, ◌||◌, ◌==◌, leb, List}

-- How a scan ends: with what it made and the bytes that are left; by `Error`, which exits; by a read or a
-- write past the end of a buffer. `out_of_fuel` has no counterpart in the program.
pub data Scanned {ℓ} (A : Type ℓ) : Type ℓ where
  scanned : A → List ℕ → Scanned A
  exits overruns out_of_fuel : Scanned A

abbrev pub then_scan {ℓ κ} :
    {A : Type ℓ} {B : Type κ} → Scanned A → (A → List ℕ → Scanned B) → Scanned B
then_scan (scanned a rest) f = f a rest
then_scan exits f = exits
then_scan overruns f = overruns
then_scan out_of_fuel f = out_of_fuel

unfoldable pub is_white_space : ℕ → Bool
is_white_space c = c == b' ' || c == 9 || c == 10 || c == 13

unfoldable pub is_new_line : ℕ → Bool
is_new_line c = c == 10

unfoldable pub is_number : ℕ → Bool
is_number c = leb b'0' c && leb c b'9'

unfoldable pub is_alpha : ℕ → Bool
is_alpha c = (leb b'a' c && leb c b'z') || (leb b'A' c && leb c b'Z')

unfoldable pub is_hex : ℕ → Bool
unfolding is_number
is_hex c = is_number c || (leb b'A' c && leb c b'F') || (leb b'a' c && leb c b'f')
