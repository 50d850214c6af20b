-- ===== src/Parser/Tvl/RoundTrip.antt =====
-- That parser_tvl.cc loads what it has stored.
use comm_libs.Common.{
  append_assoc, append_nil, ℕ, suc, ◌+◌, ◌<◌, ◌≡◌, ◌≢◌, refl, ap, sym, ◌∙◌, false, some, List, [],
  ◌∷◌, ◌++◌, length, leb, take, drop, arith, length-append,
}
use comm_libs.Integer.{pos, ◌+ℤ◌}
use comm_libs.Parser.Tvl.{
  success, four_digits, store_piece, store_elements, store_string, digits_value, scan_digits,
  scan_int, or_zero, substr, len_of, with_offset, push_or_throw, read_text, read_element, load_loop,
  rounds_of, load_string,
}

-- All elements have lengths that four digits can hold.
abbrev pub AreShort : List (List ℕ) → Type 0
AreShort [] = Unit
AreShort (it ∷ its) = (length it < 10000) × AreShort its

digits_four : (n : ℕ) → n < 10000 → digits_value 0 (four_digits n) ≡ n
unfolding digits_value four_digits
digits_four n h = ground arith

scan_four : (n : ℕ) → n < 10000 → scan_int (four_digits n) ≡ some (pos n)
unfolding scan_int scan_digits four_digits
scan_four n h = ground (arith, digits_four n h)

length-four_digits : (n : ℕ) → length (four_digits n) ≡ 4
unfolding four_digits
length-four_digits n = refl

-- What `StoreString` writes for short elements.
body : List (List ℕ) → List ℕ
body [] = []
body (it ∷ its) = four_digits (length it) ++ (it ++ body its)

store_piece-short :
    (n : ℕ) (text rest : List ℕ)
    → n < 10000
    → store_piece n text (some rest) ≡ some ((four_digits n ++ text) ++ rest)
unfolding store_piece
store_piece-short n text rest h = ground (arith)

drop_append : (xs ys : List ℕ) → drop (length xs) (xs ++ ys) ≡ ys
drop_append [] ys = refl
drop_append (x ∷ xs) ys = drop_append xs ys

take_append : (xs ys : List ℕ) → take (length xs) (xs ++ ys) ≡ xs
take_append [] ys = refl
take_append (x ∷ xs) ys = ap (λ l. x ∷ l) (take_append xs ys)

substr_append :
    (xs ys zs : List ℕ) → substr (xs ++ (ys ++ zs)) (pos (length xs)) (pos (length ys)) ≡ some ys
unfolding substr
substr_append xs ys zs =
    rw (drop_append xs (ys ++ zs), take_append ys zs) (ground (arith, length-append xs (ys ++ zs)))

add_pos : (a b : ℕ) → pos a +ℤ pos b ≡ pos (a + b)
unfolding ◌+ℤ◌
add_pos a b = ground arith

store_elements-body : (vec : List (List ℕ)) → AreShort vec → store_elements vec ≡ some (body vec)
unfolding store_elements body
store_elements-body [] h = refl
store_elements-body (it ∷ its) h = rw (store_elements-body its h.1) (
    store_piece-short (length it) it (body its) h.0
    ∙ ap (λ l. some l) (append_assoc (four_digits (length it)) it (body its)))

len_of-four :
    (before : List ℕ) (n : ℕ) (rest : List ℕ)
    → n < 10000
    → len_of (substr (before ++ (four_digits n ++ rest)) (pos (length before)) (pos 4))
      ≡ some (pos n)
len_of-four before n rest h =
    ap len_of (
      ap (λ k. substr (before ++ (four_digits n ++ rest)) (pos (length before)) (pos k))
        (sym (length-four_digits n))
      ∙ substr_append before (four_digits n) rest)
    ∙ ap (λ o. some (or_zero o)) (scan_four n h)

length_before : (before : List ℕ) (n : ℕ) → length (before ++ four_digits n) ≡ length before + 4
length_before before n =
    length-append before (four_digits n) ∙ ap (λ k. length before + k) (length-four_digits n)

substr_after :
    (before it rest : List ℕ) (n : ℕ)
    → substr
        (before ++ (four_digits n ++ (it ++ rest)))
        (pos (length before) +ℤ pos 4)
        (pos (length it))
      ≡ some it
substr_after before it rest n =
    rw
      (
        add_pos (length before) 4,
        sym (length_before before n),
        sym (append_assoc before (four_digits n) (it ++ rest)),
      )
      (substr_append (before ++ four_digits n) it rest)

next_offset : (a n : ℕ) → pos a +ℤ pos 4 +ℤ pos n ≡ pos (a + 4 + n)
next_offset a n = ap (λ k. k +ℤ pos n) (add_pos a 4) ∙ add_pos (a + 4) n

read_element-body :
    (before it rest : List ℕ)
    → length it < 10000
    → read_element (before ++ (four_digits (length it) ++ (it ++ rest))) (pos (length before))
      ≡ some (it, pos (length before + 4 + length it))
unfolding read_element
read_element-body before it rest h =
    ap
      (read_text (before ++ (four_digits (length it) ++ (it ++ rest)))
        (pos (length before) +ℤ pos 4))
      (len_of-four before (length it) (it ++ rest) h)
    ∙ ap (λ o. with_offset o (pos (length before) +ℤ pos 4 +ℤ pos (length it)))
        (substr_after before it rest (length it))
    ∙ ap (λ k. some (it, k)) (next_offset (length before) (length it))

regroup :
    (before it rest : List ℕ)
    → before ++ (four_digits (length it) ++ (it ++ rest))
      ≡ (before ++ (four_digits (length it) ++ it)) ++ rest
regroup before it rest =
    ap (λ l. before ++ l) (sym (append_assoc (four_digits (length it)) it rest))
    ∙ sym (append_assoc before (four_digits (length it) ++ it) rest)

length_regroup :
    (before it : List ℕ)
    → length (before ++ (four_digits (length it) ++ it)) ≡ length before + 4 + length it
length_regroup before it = omega (
  arith,
  length-append before (four_digits (length it) ++ it),
  length-append (four_digits (length it)) it,
  length-four_digits (length it),
)

load_loop-body :
    (vec : List (List ℕ)) (before : List ℕ) (acc : List (List ℕ))
    → AreShort vec
    → load_loop (length vec) (before ++ body vec) (pos (length before)) acc ≡ (success, acc ++ vec)
unfolding load_loop body
load_loop-body [] before acc h = ap (λ l. (success, l)) (sym (append_nil acc))
load_loop-body (it ∷ its) before acc h =
    ap
      (λ o.
        push_or_throw o acc
          (load_loop (length its) (before ++ (four_digits (length it) ++ (it ++ body its)))))
      (read_element-body before it (body its) h.0)
    ∙ ap (λ l. load_loop (length its) l (pos (length before + 4 + length it)) (acc ++ it ∷ []))
        (regroup before it (body its))
    ∙ ap
        (λ k.
          load_loop (length its) ((before ++ (four_digits (length it) ++ it)) ++ body its) (pos k)
            (acc ++ it ∷ []))
        (sym (length_regroup before it))
    ∙ load_loop-body its (before ++ (four_digits (length it) ++ it)) (acc ++ it ∷ []) h.1
    ∙ ap (λ l. (success, l)) (append_assoc acc (it ∷ []) its)

-- What `StoreString` writes.
abbrev whole : List (List ℕ) → List ℕ
whole vec = four_digits (length vec) ++ body vec

store_string-whole :
    (vec : List (List ℕ)) → length vec < 10000 → AreShort vec → store_string vec ≡ some (whole vec)
unfolding store_string
store_string-whole vec n h =
    ap (store_piece (length vec) []) (store_elements-body vec h)
    ∙ store_piece-short (length vec) [] (body vec) n
    ∙ ap (λ l. some (l ++ body vec)) (append_nil (four_digits (length vec)))

length-whole : (vec : List (List ℕ)) → vec ≢ [] → leb (length (whole vec)) 4 ≡ false
unfolding body
length-whole [] h = absurd (h refl)
length-whole (it ∷ its) h = ground (
  arith,
  length-append (four_digits (suc (length its))) (body (it ∷ its)),
  length-four_digits (suc (length its)),
  length-append (four_digits (length it)) (it ++ body its),
  length-four_digits (length it),
)

take-whole : (vec : List (List ℕ)) → take 4 (whole vec) ≡ four_digits (length vec)
take-whole vec =
    ap (λ k. take k (whole vec)) (sym (length-four_digits (length vec)))
    ∙ take_append (four_digits (length vec)) (body vec)

load_string-whole :
    (vec old : List (List ℕ))
    → length vec < 10000
    → AreShort vec
    → vec ≢ []
    → load_string (whole vec) old ≡ (success, vec)
unfolding load_string
load_string-whole vec old n h some_element = rw (length-whole vec some_element) (
    ap (λ t. load_loop (rounds_of (or_zero (scan_int t))) (whole vec) (pos 4) []) (take-whole vec)
    ∙ ap (λ o. load_loop (rounds_of (or_zero o)) (whole vec) (pos 4) []) (scan_four (length vec) n)
    ∙ ap (λ k. load_loop (length vec) (whole vec) (pos k) [])
        (sym (length-four_digits (length vec)))
    ∙ load_loop-body vec (four_digits (length vec)) [] h)

-- A sequence that is not empty, of at most 9999 strings of at most 9999 bytes each, is stored as a
-- text, and loading that text succeeds and gives the sequence back, whatever was loaded before.
pub load_string-store_string :
    (vec old : List (List ℕ))
    → length vec < 10000
    → AreShort vec
    → vec ≢ []
    → (text : List ℕ) × (store_string vec ≡ some text) × (load_string text old ≡ (success, vec))
load_string-store_string vec old n h some_element =
    (whole vec, store_string-whole vec n h, load_string-whole vec old n h some_element)
