-- ===== src/Text.antt =====
-- Python's operations on texts that the reconciler uses, by characters.
use Prim.Native.Char.{Char, code}
use Prim.Native.String.{String, count, [], ◌∷◌}
use mathlib.Core.Bool.{Bool, true, false, not, ◌&&◌, ◌||◌}
use mathlib.Core.List.{List, [] as []ᴸ, ◌∷◌ as ◌∷ᴸ◌}
use vuoro.Prelude.{ℕ, zero, suc, leb, nat_eq, if◌then◌else◌}
use vuoro.Prelude.Eq.{◌==◌, string_keys}

-- s.startswith(prefix)
unfoldable pub starts_with : String → String → Bool
starts_with s [] = true
starts_with [] (c ∷ p) = false
starts_with (d ∷ s) (c ∷ p) =
    let rest = starts_with s p in if nat_eq (code d) (code c) then rest else false

-- chr(n) in s
unfoldable pub has_code : String → ℕ → Bool
has_code [] n = false
has_code (c ∷ s) n = nat_eq (code c) n || has_code s n

abbrev prepend : Char → List String → List String
prepend c []ᴸ = (c ∷ []) ∷ᴸ []ᴸ
prepend c (part ∷ᴸ parts) = (c ∷ part) ∷ᴸ parts

-- s.split(chr(n))
unfoldable pub split : String → ℕ → List String
split [] n = [] ∷ᴸ []ᴸ
split (c ∷ s) n = let rest = split s n in if nat_eq (code c) n then [] ∷ᴸ rest else prepend c rest

-- the part of a text after the first n characters
abbrev pub drop_text : ℕ → String → String
drop_text zero s = s
drop_text (suc n) [] = []
drop_text (suc n) (c ∷ s) = drop_text n s

-- [A-Za-z0-9_-], by code points
abbrev pub is_word : ℕ → Bool
is_word n =
    (leb 48 n && leb n 57)
    || (leb 65 n && leb n 90)
    || (leb 97 n && leb n 122)
    || nat_eq n 95
    || nat_eq n 45

abbrev pub all_word : String → Bool
all_word [] = true
all_word (c ∷ s) = is_word (code c) && all_word s

-- re.fullmatch(r"[A-Za-z0-9_][A-Za-z0-9_-]{0,127}", s)
unfoldable pub is_intent_id : String → Bool
is_intent_id [] = false
is_intent_id (c ∷ s) =
    not (nat_eq (code c) 45) && is_word (code c) && leb (count s) 127 && all_word s

-- s.endswith(suffix)
abbrev pub ends_with : String → String → Bool
ends_with [] p = [] == p
ends_with (c ∷ s) p = (c ∷ s) == p || ends_with s p

-- part in s
abbrev pub contains : String → String → Bool
contains [] part = [] == part
contains (c ∷ s) part = starts_with (c ∷ s) part || contains s part

-- all(p(ord(c)) for c in s)
abbrev pub all_codes : (ℕ → Bool) → String → Bool
all_codes p [] = true
all_codes p (c ∷ s) = p (code c) && all_codes p s

-- [0-9a-f], by code points
abbrev is_hex : ℕ → Bool
is_hex n = (leb 48 n && leb n 57) || (leb 97 n && leb n 102)

-- re.fullmatch(r"[0-9a-f]{n}", s)
abbrev pub is_hex_of : ℕ → String → Bool
is_hex_of n s = nat_eq (count s) n && all_codes is_hex s

-- re.fullmatch(r"[A-Za-z0-9_-][A-Za-z0-9_.-]*", s)
abbrev pub is_path_part : String → Bool
is_path_part [] = false
is_path_part (c ∷ s) = is_word (code c) && all_codes (λ n. is_word n || nat_eq n 46) s
