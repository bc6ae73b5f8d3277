-- ===== src/RateLimit/Window.antt =====
-- The limiter against the log of what it allowed: pruning and eviction forget nothing that counts.
use ragr.Prelude.{
  ℕ, ◌+◌, ◌≤◌, String, ◌≡◌, refl, sym, ap, ◌∙◌, ◌⊎◌, inl, inr, Bool, true, ◌&&◌, none, some, List,
  [], ◌∷◌, ◌++◌, arith, ltb, leb, str_eq, eq_iff, if◌then◌else◌, length, filter, any, get_last?,
  filter-append, length-append, All, Bool-cases, Option-cases,
}
use ragr.Dict
use ragr.Dict.{Dict, get-put, get-remove, get-remove_all, get-empty}
use ragr.RateLimit.{stored, touch, recent, is_stale, prune, sweep}

-- `s` lies in the window that ends at `t`.
abbrev pub in_window : ℕ → ℕ → ℕ → Bool
in_window window t s = leb s t && ltb t (s + window)

abbrev pub count : ℕ → ℕ → List ℕ → ℕ
count window t ts = length (filter (in_window window t) ts)

-- How many of the logged requests of `key` lie in the window that ends at `t`.
abbrev pub hits : ℕ → String → ℕ → List (ℕ × String) → ℕ
hits window key t log = length (filter (λ e. str_eq e.1 key && in_window window t e.0) log)

module _ (w : ℕ) where
  pub count-append : (t : ℕ) (xs ys : List ℕ) → count w t (xs ++ ys) ≡ count w t xs + count w t ys
  count-append t xs ys =
      ap length (filter-append (in_window w t) xs ys) ∙ length-append (filter (in_window w t) xs) _

  -- What has left the window at `now` is in no later window.
  pub count-recent :
      (now t : ℕ) (xs : List ℕ) → now ≤ t → count w t (recent w now xs) ≡ count w t xs
  unfolding recent
  count-recent now t [] h = refl
  count-recent now t (x ∷ xs) h = ground (arith, count-recent now t xs h)

  pub length-recent :
      (now : ℕ) (xs : List ℕ) → All (λ s. s ≤ now) xs → length (recent w now xs) ≡ count w now xs
  unfolding recent
  length-recent now [] _ = refl
  length-recent now (x ∷ xs) (p, h) = ground (arith, length-recent now xs h)

  count-old :
      (now m t : ℕ) (xs : List ℕ) → All (λ s. s ≤ m) xs → m + w ≤ now → now ≤ t → count w t xs ≡ 0
  count-old now m t [] _ h k = refl
  count-old now m t (x ∷ xs) (p, ps) h k = ground (arith, count-old now m t xs ps h k)

  abbrev pub LatestLast : List ℕ → Type 0
  LatestLast xs = (m : ℕ) → get_last? xs ≡ some m → All (λ s. s ≤ m) xs

  -- The list may be forgotten from `now` on.
  abbrev pub IsSpent : ℕ → List ℕ → Type 0
  IsSpent now xs = (t : ℕ) → now ≤ t → count w t xs ≡ 0

  is_stale-IsSpent :
      (now : ℕ) (xs : List ℕ) → LatestLast xs → is_stale w now xs ≡ true → IsSpent now xs
  unfolding is_stale
  is_stale-IsSpent now [] l h t k = refl
  is_stale-IsSpent now (x ∷ xs) l h t k = elim (Option-cases (get_last? (x ∷ xs))) [
    | inl e ↦ absurd (last_of_cons x xs e)
    | inr (m, e) ↦ count-old now m t (x ∷ xs) (l m e) (ground arith) k
  ]
    where
      last_of_cons : (y : ℕ) (ys : List ℕ) → get_last? (y ∷ ys) ≡ none → ⊥
      last_of_cons y [] p = cc
      last_of_cons y (z ∷ zs) p = last_of_cons z zs p

  -- The list is kept, or it was spent and is dropped.
  abbrev pub Shrinks : ℕ → List ℕ → List ℕ → Type 0
  Shrinks now before after = (after ≡ before) ⊎ ((after ≡ []) × IsSpent now before)

  pub stored-touch : (d : Dict (List ℕ)) (key k : String) → stored (touch d key) k ≡ stored d k
  unfolding stored touch
  stored-touch d key k = ground (arith, get-put d key k [], eq_iff key k)

  stored-remove :
      (d : Dict (List ℕ)) (key k : String)
      → stored (Dict.remove d key) k ≡ (if str_eq key k then [] else stored d k)
  unfolding stored
  stored-remove d key k = ground (arith, get-remove d key k)

  prune-Shrinks :
      (fresh : List ℕ) (d d' : Dict (List ℕ)) (now : ℕ) (key k : String)
      → stored d' k ≡ stored d k
      → recent w now (stored d key) ≡ fresh
      → Shrinks now (stored d k) (stored (prune fresh key d') k)
  unfolding prune
  prune-Shrinks (_ ∷ _) d d' now key k same e = inl same
  prune-Shrinks [] d d' now key k same e = elim (Bool-cases (str_eq key k)) [
    | inr other ↦ inl (ground (arith, stored-remove d' key k))
    | inl here ↦ inr (
      ground (arith, stored-remove d' key k),
      λ t le.
          ground
            (arith, eq_iff key k, count-recent now t (stored d key) le, ap (λ xs. count w t xs) e),
    )
  ]

  pub stored-prune :
      (d : Dict (List ℕ)) (now : ℕ) (key k : String)
      → Shrinks now (stored d k) (stored (prune (recent w now (stored d key)) key (touch d key)) k)
  stored-prune d now key k =
      prune-Shrinks (recent w now (stored d key)) d (touch d key) now key k (stored-touch d key k)
        refl

  any-filter :
      (p : String → Bool) (k : String) (ks : List String)
      → any (λ j. str_eq j k) (filter p ks) ≡ true
      → p k ≡ true
  any-filter p k [] h = cc
  any-filter p k (j ∷ ks) h = ground (arith, any-filter p k ks, eq_iff j k)

  stored-remove_all :
      (ks : List String) (d : Dict (List ℕ)) (k : String)
      → stored (Dict.remove_all ks d) k ≡ (if any (λ j. str_eq j k) ks then [] else stored d k)
  unfolding stored
  stored-remove_all ks d k = ground (arith, get-remove_all ks d k)

  pub stored-sweep :
      (d : Dict (List ℕ)) (max_keys now : ℕ) (k : String)
      → LatestLast (stored d k)
      → Shrinks now (stored d k) (stored (sweep max_keys w now d) k)
  unfolding sweep
  stored-sweep d max_keys now k l = elim (Bool-cases (ltb max_keys (Dict.size d))) [
    | inr small ↦ inl (rw small)
    | inl large ↦
        let stale = filter (λ j. is_stale w now (stored d j)) (Dict.keys d) in
        rw large (elim (Bool-cases (any (λ j. str_eq j k) stale)) [
          | inr kept ↦ inl (rw stored-remove_all (rw kept))
          | inl gone ↦ inr (
            rw stored-remove_all (rw gone),
            is_stale-IsSpent now (stored d k) l
                (any-filter (λ j. is_stale w now (stored d j)) k (Dict.keys d) gone),
          )
        ])
  ]

  pub LatestLast-nil : LatestLast []
  LatestLast-nil m e = tt

  pub LatestLast-Shrinks :
      (now : ℕ) (xs ys : List ℕ) → Shrinks now xs ys → LatestLast xs → LatestLast ys
  LatestLast-Shrinks now xs ys (inl e) l = rw e l
  LatestLast-Shrinks now xs ys (inr (e, _)) l = rw e LatestLast-nil

  pub Shrinks-trans :
      (now : ℕ) (xs ys zs : List ℕ) → Shrinks now xs ys → Shrinks now ys zs → Shrinks now xs zs
  Shrinks-trans now xs ys zs (inl e) s = rw (← e) s
  Shrinks-trans now xs ys zs (inr (e, spent)) (inl f) = inr (f ∙ e, spent)
  Shrinks-trans now xs ys zs (inr (e, spent)) (inr (f, _)) = inr (f, spent)

  -- No later window counts what is dropped.
  pub count-Shrinks :
      (now t : ℕ) (xs ys : List ℕ) → Shrinks now xs ys → now ≤ t → count w t ys ≡ count w t xs
  count-Shrinks now t xs ys (inl e) le = rw e
  count-Shrinks now t xs ys (inr (e, spent)) le = rw e (sym (spent t le))
