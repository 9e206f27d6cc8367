-- ===== src/Py/Text.antt =====
-- Tests of a text by its code points.
use Prim.Native.Char.{code}
use Prim.Native.String.{String}
use comfy_ui_sol_h.Base.{
  ℕ, ◌+◌, Bool, true, false, ◌&&◌, ◌||◌, ◌==◌, leb, if◌then◌else◌, List, [], ◌∷◌, length, all, map,
}
use comfy_ui_sol_h.Py.Data.{Value, str}

abbrev pub codes : String → List ℕ
codes String.[] = []
codes (String.◌∷◌ c s) = code c ∷ codes s

-- `char in "0123456789abcdef"`
is_hex_digit : ℕ → Bool
is_hex_digit c = (leb b'0' c && leb c b'9') || (leb b'a' c && leb c b'f')

-- `char.lower()`, on ASCII.
to_lower : ℕ → ℕ
to_lower c = if leb b'A' c && leb c b'Z' then c + 32 else c

same_codes : List ℕ → List ℕ → Bool
same_codes [] [] = true
same_codes (a ∷ as') (b ∷ bs) = (a == b) && same_codes as' bs
same_codes _ _ = false

-- `_digest`: 64 lower-case hexadecimal digits.
unfoldable pub digest_text : String → Bool
unfolding is_hex_digit to_lower same_codes
digest_text s =
    (length (codes s) == 64)
    && same_codes (codes s) (map to_lower (codes s))
    && all is_hex_digit (codes s)

unfoldable pub digest : Value → Bool
unfolding digest_text
digest (str s) = digest_text s
digest _ = false
