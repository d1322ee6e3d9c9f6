-- ===== src/Chars.antt =====
-- include/utils.h: the digit tests and conversions, and the <cctype> tests of the "C" locale.
-- A char is its byte, 0 to 255; a byte above 127 passes no test.
use choice_lang.Prelude.{
  ℕ, ◌+◌, ◌-◌, ◌%◌, ◌<◌, ◌≡◌, Bool, true, ◌&&◌, ◌||◌, leb, ◌==◌, if◌then◌else◌, arith,
}

unfoldable pub isdigit : ℕ → Bool
isdigit c = leb b'0' c && leb c b'9'

unfoldable pub isupper : ℕ → Bool
isupper c = leb b'A' c && leb c b'Z'

unfoldable pub isalpha : ℕ → Bool
isalpha c = (leb b'A' c && leb c b'Z') || (leb b'a' c && leb c b'z')

unfoldable pub isalnum : ℕ → Bool
isalnum c = isalpha c || isdigit c

unfoldable pub is_binary : ℕ → Bool
is_binary c = c == b'0' || c == b'1'

unfoldable pub is_octal : ℕ → Bool
is_octal c = leb b'0' c && leb c b'7'

-- `isxdigit`.
unfoldable pub is_hex : ℕ → Bool
is_hex c = leb b'0' c && leb c b'9' || leb b'A' c && leb c b'F' || leb b'a' c && leb c b'f'

-- The conversions return a u8.
unfoldable pub from_binary : ℕ → ℕ
from_binary c = (c + 256 - b'0') % 256

unfoldable pub from_octal : ℕ → ℕ
from_octal c = (c + 256 - b'0') % 256

unfoldable pub from_hex : ℕ → ℕ
from_hex c =
    if isdigit c
    then (c + 256 - b'0') % 256
    else if isupper c
    then (c + 256 - b'A' + 10) % 256
    else (c + 256 - b'a' + 10) % 256

pub from_hex-lt : (c : ℕ) → is_hex c ≡ true → from_hex c < 16
unfolding from_hex is_hex isdigit isupper
from_hex-lt c h = ground arith

pub from_octal-lt : (c : ℕ) → is_octal c ≡ true → from_octal c < 8
unfolding from_octal is_octal
from_octal-lt c h = ground arith

pub from_binary-lt : (c : ℕ) → is_binary c ≡ true → from_binary c < 2
unfolding from_binary is_binary
from_binary-lt c h = ground arith
