-- ===== src/Util/Text/Laws.antt =====
-- What the functions of libutil/string_util.cc leave in a string.
use comm_libs.Common.{
  append_assoc, ℕ, suc, ◌≡◌, ◌≢◌, refl, ap, ◌∙◌, Bool, true, false, ◌&&◌, ◌||◌, List, [], ◌∷◌, ◌++◌,
  if◌then◌else◌, ◌==◌, arith, Bool-cases, replicate, ==_iff, inl, inr,
}
use comm_libs.Util.Text.{
  skip_spaces, r_trim, trim, distinct_after, distinct, distinct_target_after, distinct_target,
  flush, split_from, split,
}

abbrev pub has : ℕ → List ℕ → Bool
has c [] = false
has c (d ∷ ds) = c == d || has c ds

-- A word of a split is not empty and has no separator.
abbrev pub IsWord : ℕ → List ℕ → Type 0
IsWord sep word = (word ≢ []) × (has sep word ≡ false)

abbrev pub AreWords : ℕ → List (List ℕ) → Type 0
AreWords sep [] = Unit
AreWords sep (w ∷ ws) = IsWord sep w × AreWords sep ws

abbrev pub without : ℕ → List ℕ → List ℕ
without c [] = []
without c (d ∷ ds) = if d == c then without c ds else d ∷ without c ds

abbrev pub join : List (List ℕ) → List ℕ
join [] = []
join (w ∷ ws) = w ++ join ws

flush-AreWords :
    (sep : ℕ) (word : List ℕ) (words : List (List ℕ))
    → has sep word ≡ false
    → AreWords sep words
    → AreWords sep (flush word words)
flush-AreWords sep [] words h k = k
flush-AreWords sep (c ∷ cs) words h k = ((λ e. cc, h), k)

join-flush : (word : List ℕ) (words : List (List ℕ)) → join (flush word words) ≡ word ++ join words
join-flush [] words = refl
join-flush (c ∷ cs) words = refl

has-snoc : (sep c : ℕ) (word : List ℕ) → has sep (word ++ c ∷ []) ≡ (has sep word || sep == c)
has-snoc sep c [] = ground arith
has-snoc sep c (d ∷ ds) = ground (arith, has-snoc sep c ds)

split_from-AreWords :
    (sep : ℕ) (word str : List ℕ) → has sep word ≡ false → AreWords sep (split_from sep word str)
unfolding split_from
split_from-AreWords sep word [] h = flush-AreWords sep word [] h (ground arith)
split_from-AreWords sep word (c ∷ cs) h = elim (Bool-cases (c == sep)) [
  | inl e ↦
      rw e (flush-AreWords sep word (split_from sep [] cs) h (split_from-AreWords sep [] cs refl))
  | inr e ↦ rw e (split_from-AreWords sep (word ++ c ∷ []) cs (ground (arith, has-snoc sep c word)))
]

join-split_from :
    (sep : ℕ) (word str : List ℕ) → join (split_from sep word str) ≡ word ++ without sep str
unfolding split_from
join-split_from sep word [] = join-flush word []
join-split_from sep word (c ∷ cs) = elim (Bool-cases (c == sep)) [
  | inl e ↦
      rw e
        (join-flush word (split_from sep [] cs) ∙ ap (λ l. word ++ l) (join-split_from sep [] cs))
  | inr e ↦
      rw e (join-split_from sep (word ++ c ∷ []) cs ∙ append_assoc word (c ∷ []) (without sep cs))
]

-- The words of `Split` are not empty and have no separator, and one after the other they are the string
-- without its separators.
pub split_lem :
    (sep : ℕ) (str : List ℕ)
    → AreWords sep (split sep str) × (join (split sep str) ≡ without sep str)
unfolding split
split_lem sep str = (split_from-AreWords sep [] str refl, join-split_from sep [] str)

abbrev pub starts_with_space : List ℕ → Bool
starts_with_space [] = false
starts_with_space (c ∷ cs) = c == b' '

skip_spaces_lem :
    (str : List ℕ)
    → ((k : ℕ) × (str ≡ replicate k b' ' ++ skip_spaces str))
      × (starts_with_space (skip_spaces str) ≡ false)
unfolding skip_spaces
skip_spaces_lem [] = ((0, refl), refl)
skip_spaces_lem (c ∷ cs) = elim (Bool-cases (c == b' ')) [
  | inl e ↦
      let ((k, q), s) = skip_spaces_lem cs in
      rw e ((suc k, rw ((==_iff c b' ').0 e) (ap (λ l. b' ' ∷ l) q)), s)
  | inr e ↦ rw e ((0, refl), e)
]

skip_spaces_none : (str : List ℕ) → starts_with_space str ≡ false → skip_spaces str ≡ str
unfolding skip_spaces
skip_spaces_none [] h = refl
skip_spaces_none (c ∷ cs) h = rw h refl

-- `Trim` takes away the spaces at the start, which `RTrim` does as well, and nothing else: what comes
-- before the rest is spaces alone, and the rest does not start with one.
pub trim_lem :
    (str : List ℕ)
    → (trim str ≡ r_trim str)
      × ((k : ℕ) × (str ≡ replicate k b' ' ++ trim str))
      × (starts_with_space (trim str) ≡ false)
unfolding trim r_trim
trim_lem str =
    let (front, s) = skip_spaces_lem str in
    rw (skip_spaces_none (skip_spaces str) s) (refl, front, s)

-- Two neighbours that are equal, and equal to something that passes the test.
abbrev pub repeats_after : (ℕ → Bool) → ℕ → List ℕ → Bool
repeats_after p last [] = false
repeats_after p last (c ∷ cs) = last == c && p last || repeats_after p c cs

abbrev pub repeats : (ℕ → Bool) → List ℕ → Bool
repeats p [] = false
repeats p (c ∷ cs) = repeats_after p c cs

distinct_after_lem :
    (last : ℕ) (cs : List ℕ) → repeats_after (λ c. true) last (distinct_after last cs) ≡ false
unfolding distinct_after
distinct_after_lem last [] = refl
distinct_after_lem last (c ∷ cs) =
    ground (arith, distinct_after_lem last cs, distinct_after_lem c cs)

distinct_target_after_lem :
    (target last : ℕ) (cs : List ℕ)
    → repeats_after (λ c. c == target) last (distinct_target_after target last cs) ≡ false
unfolding distinct_target_after
distinct_target_after_lem target last [] = refl
distinct_target_after_lem target last (c ∷ cs) =
    ground (arith, distinct_target_after_lem target last cs, distinct_target_after_lem target c cs)

-- `Distinct` leaves no two equal neighbours, and with a target no two neighbours that are the target.
pub distinct_lem :
    (target : ℕ) (str : List ℕ)
    → (repeats (λ c. true) (distinct str) ≡ false)
      × (repeats (λ c. c == target) (distinct_target target str) ≡ false)
unfolding distinct distinct_target
distinct_lem target [] = (refl, refl)
distinct_lem target (c ∷ cs) = (distinct_after_lem c cs, distinct_target_after_lem target c cs)
