-- ===== src/Parser/Ini/Reading.antt =====
-- The lines that `fgets` gives _load of parser_ini.cc from the bytes that Storage writes.
use comm_libs.Common.{
  ℕ, ◌-◌, ◌≡◌, refl, sym, ap, ◌∙◌, false, none, [], ◌∷◌, ◌++◌, map, length, append_assoc, ◌<◌, ◌==◌,
  ◌||◌, arith, Option-cases, inl, inr,
}
use comm_libs.Parser.Ini.{
  Text, Section, str_chr, push_byte, read_lines, c_string, lines_of, item_line, storage_items,
  storage_section,
}
use comm_libs.Parser.Ini.Lines.{IsLine, IsPlain, item_body}

str_chr_rest : (c x : ℕ) (t : Text) → str_chr c (x ∷ t) ≡ none → str_chr c t ≡ none
unfolding str_chr
str_chr_rest c x t h = elim (Option-cases (str_chr c t)) [
  | inl e ↦ e
  | inr (n, e) ↦ ground (arith, e)
]

str_chr_head : (c x : ℕ) (t : Text) → str_chr c (x ∷ t) ≡ none → (x == c) ≡ false
unfolding str_chr
str_chr_head c x t h = ground arith

read_line :
    (room : ℕ) (t rest : Text)
    → str_chr 10 t ≡ none
    → length t < room
    → read_lines room (t ++ (10 ∷ rest)) ≡ (t ++ (10 ∷ [])) ∷ read_lines 255 rest
unfolding read_lines push_byte
read_line room [] rest h fits = refl
read_line room (x ∷ t) rest h fits =
    let newline = str_chr_head 10 x t h in
    let goes_on : (x == 10 || room == 1) ≡ false = ground (arith, newline) in
    rw (goes_on, read_line (room - 1) t rest (str_chr_rest 10 x t h) (omega arith)) refl

c_string_line : (t : Text) → str_chr 0 t ≡ none → c_string (t ++ (10 ∷ [])) ≡ t ++ (10 ∷ [])
unfolding c_string
c_string_line [] h = refl
c_string_line (x ∷ t) h = rw (str_chr_head 0 x t h, c_string_line t (str_chr_rest 0 x t h)) refl

line_read :
    (t rest : Text) → IsLine t → lines_of (t ++ (10 ∷ rest)) ≡ (t ++ (10 ∷ [])) ∷ lines_of rest
unfolding lines_of
line_read t rest (newline, zero_byte, short) =
    rw (read_line 255 t rest newline short, c_string_line t zero_byte) refl

-- The line of an item with what follows it.
item_line-append : (k v rest : Text) → item_line (k, v) ++ rest ≡ item_body k v ++ (10 ∷ rest)
unfolding item_line
item_line-append k v rest =
    rw
      (
        append_assoc k (61 ∷ (v ++ (10 ∷ []))) rest,
        append_assoc v (10 ∷ []) rest,
        append_assoc k (61 ∷ v) (10 ∷ rest),
      )
      refl

item_line_body : (k v : Text) → item_body k v ++ (10 ∷ []) ≡ item_line (k, v)
unfolding item_line
item_line_body k v = ap (λ t. 9 ∷ t) (append_assoc k (61 ∷ v) (10 ∷ []))

-- The empty line after a section.
last_line : lines_of (10 ∷ []) ≡ (10 ∷ []) ∷ []
unfolding lines_of read_lines c_string
last_line = refl

lines_of-storage_items :
    (items : Section)
    → IsPlain items
    → lines_of (storage_items items) ≡ map item_line items ++ ((10 ∷ []) ∷ [])
unfolding storage_items
lines_of-storage_items [] plain = last_line
lines_of-storage_items ((k, v) ∷ items) ((separator, line), plain) =
    ap lines_of (item_line-append k v (storage_items items))
    ∙ line_read (item_body k v) (storage_items items) line
    ∙ rw (item_line_body k v, lines_of-storage_items items plain) refl

pub lines_of-storage_section :
    (name : Text) (items : Section)
    → IsLine (91 ∷ (name ++ (93 ∷ [])))
    → IsPlain items
    → lines_of (storage_section name items)
      ≡ (91 ∷ (name ++ (93 ∷ 10 ∷ []))) ∷ (map item_line items ++ ((10 ∷ []) ∷ []))
unfolding storage_section
lines_of-storage_section name items line plain =
    let tail = storage_items items in
    ap (λ t. lines_of (91 ∷ t)) (sym (append_assoc name (93 ∷ []) (10 ∷ tail)))
    ∙ line_read (91 ∷ (name ++ (93 ∷ []))) tail line
    ∙ rw (append_assoc name (93 ∷ []) (10 ∷ []), lines_of-storage_items items plain) refl
