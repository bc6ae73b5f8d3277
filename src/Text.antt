-- ===== src/Text.antt =====
-- The methods of Python's `str` that the services call, on texts as lists of code points.
pub mod Laws
use Prim.Native.Char.{code}
use ragr.Prelude.{
  ltb, leb, ◌==◌, if◌then◌else◌, ltb→lt, leb→le, ==_iff, Bool-cases, Option-cases, length, take,
  drop, get_elem?, filter, get_last?, get_last?-concat, any, all, length-append, length-take,
  length-drop, take-append-drop, filter-append, length-filter-le, length-map, All, All-append,
  All-filter, All-take, All-map, filter-All, any-filter, ℕ, zero, suc, ◌+◌, ◌-◌, ◌*◌, ◌/◌, ◌%◌, ◌^◌,
  ◌≤◌, ◌<◌, min, max, String, ◌≡◌, refl, sym, ap, ap₂, ◌∙◌, fun_ext, subst, ◌≢◌, ◌↔◌, ◌⊎◌, inl, inr,
  Bool, true, false, ◌&&◌, ◌||◌, not, Option, none, some, List, [], ◌∷◌, ◌++◌, map, append_assoc,
  append-nil, map-append, arith, str_eq, eq_iff, eq_refl,
}

abbrev pub Text : Type 0
Text = List ℕ

-- str.isspace() of one character, and `\s` of `re`
unfoldable pub is_space : ℕ → Bool
is_space c =
    leb 9 c && leb c 13
    || (leb 28 c && leb c 32
        || (c == 0x85
            || (c == 0xa0
                || (c == 0x1680
                    || (leb 0x2000 c && leb c 0x200a
                        || (c == 0x2028
                            || (c == 0x2029 || (c == 0x202f || (c == 0x205f || c == 0x3000)))))))))

-- the line boundaries of str.splitlines()
unfoldable pub is_break : ℕ → Bool
is_break c =
    leb 10 c && leb c 13 || (leb 28 c && leb c 30 || (c == 0x85 || (c == 0x2028 || c == 0x2029)))

abbrev pub is_empty : Text → Bool
is_empty [] = true
is_empty (_ ∷ _) = false

-- t.lstrip()
unfoldable pub lstrip : Text → Text
lstrip [] = []
lstrip (c ∷ t) = let rest = lstrip t in if is_space c then rest else c ∷ t

-- `t` without its longest ending in `p`
unfoldable pub rstrip_by : (ℕ → Bool) → Text → Text
rstrip_by p [] = []
rstrip_by p (c ∷ t) = let rest = rstrip_by p t in if is_empty rest && p c then [] else c ∷ rest

-- t.strip()
unfoldable pub strip : Text → Text
unfolding lstrip rstrip_by
strip t = rstrip_by is_space (lstrip t)

-- sep.join(ts)
unfoldable pub join : Text → List Text → Text
join sep [] = []
join sep (t ∷ []) = t
join sep (t ∷ u ∷ ts) = t ++ (sep ++ join sep (u ∷ ts))

abbrev pub starts_with : Text → Text → Bool
starts_with [] t = true
starts_with (p ∷ ps) [] = false
starts_with (p ∷ ps) (c ∷ t) = p == c && starts_with ps t

-- a "\r" before a "\n" ends no line by itself
ends_line : ℕ → Text → Bool
ends_line c t = is_break c && not (c == 13 && starts_with (10 ∷ []) t)

splitlines_from : Text → Text → List Text
splitlines_from line [] = if is_empty line then [] else line ∷ []
splitlines_from line (c ∷ t) =
    let ended = ends_line c t in
    let longer = line ++ c ∷ [] in
    let rest = splitlines_from (if ended then [] else longer) t in
    if ended then longer ∷ rest else rest

-- t.splitlines(keepends=True)
unfoldable pub splitlines : Text → List Text
unfolding splitlines_from ends_line
splitlines t = splitlines_from [] t

-- What is left of a text when its white space is dropped.
unfoldable pub squeeze : Text → Text
squeeze t = filter (λ c. not (is_space c)) t

unfoldable pub concat : List Text → Text
concat [] = []
concat (t ∷ ts) = t ++ concat ts

-- The code points of a text literal.
abbrev pub codes : String → Text
codes String.[] = []
codes (String.◌∷◌ c s) = code c ∷ codes s

-- str(n), on fuel: a number has no more digits than its value and one
decimal_from : ℕ → ℕ → Text → Text
decimal_from zero n digits = digits
decimal_from (suc fuel) n digits =
    let rest = decimal_from fuel (n / 10) ((b'0' + n % 10) ∷ digits) in
    if ltb n 10 then (b'0' + n) ∷ digits else rest

unfoldable pub decimal : ℕ → Text
unfolding decimal_from
decimal n = decimal_from (suc n) n []

abbrev pub text_eq : Text → Text → Bool
text_eq [] [] = true
text_eq (a ∷ s) (b ∷ t) = a == b && text_eq s t
text_eq _ _ = false

-- a character in front of the first piece
abbrev prepend : ℕ → List Text → List Text
prepend c [] = (c ∷ []) ∷ []
prepend c (t ∷ ts) = (c ∷ t) ∷ ts

-- t.split(separator), for a separator of one character
unfoldable pub split : ℕ → Text → List Text
split separator [] = [] ∷ []
split separator (c ∷ t) =
    let rest = split separator t in if c == separator then [] ∷ rest else prepend c rest
