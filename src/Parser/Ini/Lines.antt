-- ===== src/Parser/Ini/Lines.antt =====
-- The lines of items that Storage of parser_ini.cc writes, as _load cuts and keeps them.
use comm_libs.Common.{
  ℕ, suc, ◌+◌, ◌-◌, ◌≡◌, refl, ap, ◌∙◌, Option, none, some, [], ◌∷◌, ◌++◌, length, take, drop, ◌≢◌,
  length-append, ◌<◌, ◌==◌, if◌then◌else◌, ltb, false, arith, Option-cases, inl, inr,
}
use comm_libs.StdMap
use comm_libs.Parser.Ini.{
  Text, Section, Store, text_discrete, insert, Loading, str_chr, is_skipped, starts_section,
  put_item, load_item, load_line, item_line,
}
use comm_libs.Parser.Ini.Sections.{find-insert, insert_present}

-- A text that `fgets` reads whole, with the newline after it: it holds neither a newline nor a null
-- byte, and fits into the buffer.
abbrev pub IsLine : Text → Type 0
IsLine t = (str_chr 10 t ≡ none) × (str_chr 0 t ≡ none) × (length t < 255)

-- The line of an item, without its newline.
abbrev pub item_body : Text → Text → Text
item_body k v = 9 ∷ (k ++ (61 ∷ v))

-- No key of the items holds `=`, and the line of each is read whole.
abbrev pub IsPlain : Section → Type 0
IsPlain [] = Unit
IsPlain ((k, v) ∷ items) = ((str_chr 61 k ≡ none) × IsLine (item_body k v)) × IsPlain items

pub str_chr-append :
    (c : ℕ) (xs ys : Text) → str_chr c xs ≡ none → str_chr c (xs ++ c ∷ ys) ≡ some (length xs)
unfolding str_chr
str_chr-append c [] ys h = ground arith
str_chr-append c (x ∷ xs) ys h = elim (Option-cases (str_chr c xs)) [
  | inl e ↦ ground (arith, e, str_chr-append c xs ys e)
  | inr (n, e) ↦ ground (arith, e)
]

pub take-append : (xs ys : Text) → take (length xs) (xs ++ ys) ≡ xs
take-append [] ys = refl
take-append (x ∷ xs) ys = ap (λ l. x ∷ l) (take-append xs ys)

drop-append : (xs : Text) (y : ℕ) (ys : Text) → drop (suc (length xs)) (xs ++ y ∷ ys) ≡ ys
drop-append [] y ys = refl
drop-append (x ∷ xs) y ys = drop-append xs y ys

-- The items as they are read, each under its key with a tab before it.
abbrev pub stored : Section → Section → Section
stored [] acc = acc
stored ((k, v) ∷ items) acc = stored items (insert (9 ∷ k) v acc)

tab_first : (k : Text) → str_chr 61 k ≡ none → str_chr 61 (9 ∷ k) ≡ none
unfolding str_chr
tab_first k h = ground (arith, h)

reads_item :
    (malloc : Store → ℕ) (line : Text) (l : Loading)
    → l.pcursection ≢ 0
    → load_line malloc (9 ∷ line) l ≡ load_item (9 ∷ line) (str_chr 61 (9 ∷ line)) l
unfolding load_line is_skipped starts_section
reads_item malloc line l p = ground arith

line_length : (k v : Text) → length (k ++ (61 ∷ (v ++ (10 ∷ [])))) ≡ length k + length v + 2
line_length k v = omega (arith, length-append k (61 ∷ (v ++ (10 ∷ []))), length-append v (10 ∷ []))

value_of_line :
    (k v : Text) (n : ℕ)
    → n ≡ length v
    → take n (drop (length k + 1) (k ++ (61 ∷ (v ++ (10 ∷ []))))) ≡ v
value_of_line k v n e =
    let next : length k + 1 ≡ suc (length k) = omega arith in
    rw (e, next, drop-append k 61 (v ++ (10 ∷ []))) (take-append v (10 ∷ []))

-- The key and the value that are cut out of a line.
cut_item :
    (k v : Text) (l : Loading)
    → load_item (k ++ (61 ∷ (v ++ (10 ∷ [])))) (some (length k)) l
      ≡ put_item k v (l.config.store l.pcursection) l
unfolding load_item
cut_item k v l =
    let size = line_length k v in
    let value =
      value_of_line k v (length (k ++ (61 ∷ (v ++ (10 ∷ [])))) - length k - 2)
        (omega (arith, size)) in
    let long : ltb (length (k ++ (61 ∷ (v ++ (10 ∷ []))))) (length k + 2) ≡ false =
      ground (arith, size) in
    rw (long, value, take-append k (61 ∷ (v ++ (10 ∷ [])))) refl

pub load_one :
    (malloc : Store → ℕ) (k v : Text) (l : Loading)
    → str_chr 61 k ≡ none
    → l.pcursection ≢ 0
    → load_line malloc (item_line (k, v)) l ≡ put_item (9 ∷ k) v (l.config.store l.pcursection) l
unfolding item_line
load_one malloc k v l h p =
    reads_item malloc (k ++ (61 ∷ (v ++ (10 ∷ [])))) l p
    ∙ ap (λ n. load_item ((9 ∷ k) ++ (61 ∷ (v ++ (10 ∷ [])))) n l)
        (str_chr-append 61 (9 ∷ k) (v ++ (10 ∷ [])) (tab_first k h))
    ∙ cut_item (9 ∷ k) v l

-- What the items hold for a key as it is read back: only those with a tab before them.
abbrev pub tabbed : Text → Section → Option Text
tabbed [] items = none
tabbed (x ∷ key) items = if x == 9 then StdMap.find text_discrete key items else none

abbrev first : Option Text → Option Text → Option Text
first none b = b
first (some a) b = some a

tabbed_same : (k j v : Text) (items : Section) → (9 ∷ j) ≡ k → tabbed k ((j, v) ∷ items) ≡ some v
unfolding StdMap.find
tabbed_same [] j v items e = ground (arith, e)
tabbed_same (x ∷ k) j v items e = ground (arith, e)

tabbed_other :
    (k j v : Text) (items : Section) → (9 ∷ j) ≢ k → tabbed k ((j, v) ∷ items) ≡ tabbed k items
unfolding StdMap.find
tabbed_other [] j v items ne = refl
tabbed_other (x ∷ k) j v items ne = ground (arith, ne)

tabbed_nil : (k : Text) → tabbed k [] ≡ none
unfolding StdMap.find
tabbed_nil [] = refl
tabbed_nil (x ∷ k) = ground arith

find-stored_step :
    (k j v : Text) (items acc : Section)
    → first (StdMap.find text_discrete k (insert (9 ∷ j) v acc)) (tabbed k items)
      ≡ first (StdMap.find text_discrete k acc) (tabbed k ((j, v) ∷ items))
find-stored_step k j v items acc = elim (text_discrete (9 ∷ j) k) [
  | yes same ↦ elim (Option-cases (StdMap.find text_discrete (9 ∷ j) acc)) [
    | inl absent ↦
        ground
          (arith, same, absent, find-insert k (9 ∷ j) v acc absent, tabbed_same k j v items same)
    | inr (w, there) ↦ ground (arith, same, there, insert_present (9 ∷ j) v w acc there)
  ]
  | no ne ↦ elim (Option-cases (StdMap.find text_discrete (9 ∷ j) acc)) [
    | inl absent ↦
        ground (arith, ne, find-insert k (9 ∷ j) v acc absent, tabbed_other k j v items ne)
    | inr (w, there) ↦ rw (insert_present (9 ∷ j) v w acc there, tabbed_other k j v items ne) refl
  ]
]

pub find-stored :
    (k : Text) (items acc : Section)
    → StdMap.find text_discrete k (stored items acc)
      ≡ first (StdMap.find text_discrete k acc) (tabbed k items)
find-stored k [] acc = ground (arith, tabbed_nil k)
find-stored k ((j, v) ∷ items) acc =
    find-stored k items (insert (9 ∷ j) v acc) ∙ find-stored_step k j v items acc
