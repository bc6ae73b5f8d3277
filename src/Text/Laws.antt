-- ===== src/Text/Laws.antt =====
-- Stripping, joining and splitting change a text by white space only.
use ragr.Prelude.{
  if◌then◌else◌, Bool-cases, length, filter-append, All, ℕ, ◌≤◌, ◌≡◌, refl, sym, ap, ◌∙◌, inl, inr,
  Bool, true, not, List, [], ◌∷◌, ◌++◌, append_assoc, append-nil, arith,
}
use ragr.Text.{
  Text, is_space, lstrip, rstrip_by, strip, join, ends_line, splitlines_from, splitlines, squeeze,
  concat,
}

abbrev pub IsBlank : Text → Type 0
IsBlank = All (λ c. is_space c ≡ true)

pub squeeze-append : (s t : Text) → squeeze (s ++ t) ≡ squeeze s ++ squeeze t
unfolding squeeze
squeeze-append s t = filter-append (λ c. not (is_space c)) s t

squeeze-cons :
    (c : ℕ) (t : Text) → squeeze (c ∷ t) ≡ (if is_space c then squeeze t else c ∷ squeeze t)
unfolding squeeze
squeeze-cons c t = elim (Bool-cases (is_space c)) [ inl blank ↦ rw blank | inr solid ↦ rw solid ]

pub squeeze_nil : squeeze [] ≡ []
unfolding squeeze
squeeze_nil = refl

pub squeeze_of_IsBlank : (t : Text) → IsBlank t → squeeze t ≡ []
squeeze_of_IsBlank [] _ = squeeze_nil
squeeze_of_IsBlank (c ∷ t) (p, h) = rw squeeze-cons (rw p (squeeze_of_IsBlank t h))

pub squeeze-lstrip : (t : Text) → squeeze (lstrip t) ≡ squeeze t
unfolding lstrip
squeeze-lstrip [] = refl
squeeze-lstrip (c ∷ t) = ground (arith, squeeze-cons c t, squeeze-lstrip t)

-- dropping an ending of white space
pub squeeze-rstrip_by :
    (p : ℕ → Bool) (t : Text)
    → ((c : ℕ) → p c ≡ true → is_space c ≡ true)
    → squeeze (rstrip_by p t) ≡ squeeze t
unfolding rstrip_by
squeeze-rstrip_by p [] h = refl
squeeze-rstrip_by p (c ∷ t) h = ground (
  arith,
  squeeze-cons c t,
  squeeze-cons c (rstrip_by p t),
  squeeze-rstrip_by p t h,
  h c,
  squeeze_nil,
)

pub squeeze-strip : (t : Text) → squeeze (strip t) ≡ squeeze t
unfolding strip
squeeze-strip t = squeeze-rstrip_by is_space (lstrip t) (λ c h. h) ∙ squeeze-lstrip t

pub squeeze-join :
    (sep : Text) (ts : List Text) → IsBlank sep → squeeze (join sep ts) ≡ squeeze (concat ts)
unfolding join concat
squeeze-join sep [] h = refl
squeeze-join sep (t ∷ []) h = rw append-nil
squeeze-join sep (t ∷ u ∷ ts) h = rw (squeeze-append t (sep ++ join sep (u ∷ ts))) (
    rw (squeeze-append sep (join sep (u ∷ ts))) (
      rw (squeeze_of_IsBlank sep h) (
        rw (squeeze-append t (concat (u ∷ ts)))
          (ap (λ r. squeeze t ++ r) (squeeze-join sep (u ∷ ts) h)))))

pub concat-append : (ts us : List Text) → concat (ts ++ us) ≡ concat ts ++ concat us
unfolding concat
concat-append [] us = refl
concat-append (t ∷ ts) us = rw (concat-append ts us) (sym (append_assoc t (concat ts) (concat us)))

concat-splitlines_from : (line t : Text) → concat (splitlines_from line t) ≡ line ++ t
unfolding splitlines_from concat
concat-splitlines_from [] [] = refl
concat-splitlines_from (c ∷ line) [] = refl
concat-splitlines_from line (c ∷ t) = elim (Bool-cases (ends_line c t)) [
  | inl ended ↦ rw ended (rw (concat-splitlines_from [] t) (append_assoc line (c ∷ []) t))
  | inr going ↦ rw going (concat-splitlines_from (line ++ c ∷ []) t ∙ append_assoc line (c ∷ []) t)
]

-- The lines of a text are the text.
pub concat-splitlines : (t : Text) → concat (splitlines t) ≡ t
unfolding splitlines
concat-splitlines t = concat-splitlines_from [] t

-- Stripping does not lengthen.
pub length-lstrip-le : (t : Text) → length (lstrip t) ≤ length t
unfolding lstrip
length-lstrip-le [] = omega arith
length-lstrip-le (c ∷ t) = ground (arith, length-lstrip-le t)

pub length-rstrip_by-le : (p : ℕ → Bool) (t : Text) → length (rstrip_by p t) ≤ length t
unfolding rstrip_by
length-rstrip_by-le p [] = omega arith
length-rstrip_by-le p (c ∷ t) = ground (arith, length-rstrip_by-le p t)

pub length-strip-le : (t : Text) → length (strip t) ≤ length t
unfolding strip
length-strip-le t = omega (arith, length-rstrip_by-le is_space (lstrip t), length-lstrip-le t)
