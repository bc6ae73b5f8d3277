-- ===== src/Str.antt =====
-- Python's `str` methods on native strings, where the result is a string.
use ragr.Prelude.{ltb, ◌==◌, if◌then◌else◌, ℕ, zero, suc, ◌/◌, ◌%◌, String, ◌≡◌, refl, ◌&&◌, str_eq}
use ragr.Text.{is_space}
use Prim.Native.Char.{code}
use Prim.Native.String.{◌++◌ as str_append}

infixr 65 ◌+s◌
abbrev pub ◌+s◌ : String → String → String
a +s b = str_append a b

-- s.rstrip(c), for the code point c of a character
unfoldable pub rstrip : ℕ → String → String
rstrip c String.[] = ""
rstrip c (String.◌∷◌ d s) =
    let rest = rstrip c s in if str_eq rest "" && code d == c then "" else String.◌∷◌ d rest

-- s.split(c)[0]
unfoldable pub before : ℕ → String → String
before c String.[] = ""
before c (String.◌∷◌ d s) = let rest = before c s in if code d == c then "" else String.◌∷◌ d rest

lstrip_spaces : String → String
lstrip_spaces String.[] = ""
lstrip_spaces (String.◌∷◌ d s) =
    let rest = lstrip_spaces s in if is_space (code d) then rest else String.◌∷◌ d s

rstrip_spaces : String → String
rstrip_spaces String.[] = ""
rstrip_spaces (String.◌∷◌ d s) =
    let rest = rstrip_spaces s in
    if str_eq rest "" && is_space (code d) then "" else String.◌∷◌ d rest

-- s.strip()
unfoldable pub strip_spaces : String → String
unfolding lstrip_spaces rstrip_spaces
strip_spaces s = rstrip_spaces (lstrip_spaces s)

abbrev digit : ℕ → String
digit zero = "0"
digit (suc zero) = "1"
digit (suc (suc zero)) = "2"
digit (suc (suc (suc zero))) = "3"
digit (suc (suc (suc (suc zero)))) = "4"
digit (suc (suc (suc (suc (suc zero))))) = "5"
digit (suc (suc (suc (suc (suc (suc zero)))))) = "6"
digit (suc (suc (suc (suc (suc (suc (suc zero))))))) = "7"
digit (suc (suc (suc (suc (suc (suc (suc (suc zero)))))))) = "8"
digit _ = "9"

-- on fuel: a number has no more digits than its value and one
decimal_from : ℕ → ℕ → String → String
decimal_from zero n digits = digits
decimal_from (suc fuel) n digits =
    let rest = decimal_from fuel (n / 10) (digit (n % 10) +s digits) in
    if ltb n 10 then digit n +s digits else rest

-- str(n)
unfoldable pub decimal_str : ℕ → String
unfolding decimal_from
decimal_str n = decimal_from (suc n) n ""

numbers : (decimal_str 0 ≡ "0") × (decimal_str 1024 ≡ "1024")
unfolding decimal_str
numbers = (refl, refl)

stripped : (rstrip b'/' "/a/b//" ≡ "/a/b") × (rstrip b'/' "//" ≡ "")
unfolding rstrip
stripped = (refl, refl)
