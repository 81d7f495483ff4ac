-- ===== src/Base/Texts.antt =====
-- Python's methods on texts that the code uses, without the tables of letters.
use Prim.Native.Char.{Char, code}
use Prim.Native.String as Text
use Prim.Native.String.{String}
use Prim.Native.Nat.{ℕ}
use mathlib.Core.Bool.{Bool, true, false, ◌&&◌, ◌||◌}
use mathlib.Core.List.{List, [], ◌∷◌}
use text.Mathlib.Text.{◌==◌ as str_eq}
use fault_warden.Base.Tests.{if◌then◌else◌, leb, ◌==◌}

-- `str.isspace` of one character.
abbrev pub is_space : ℕ → Bool
is_space c =
    (leb 9 c && leb c 13)
    || ((leb 28 c && leb c 32)
        || (c == 133
            || (c == 160
                || (c == 5760
                    || ((leb 8192 c && leb c 8202)
                        || (c == 8232
                            || (c == 8233 || (c == 8239 || (c == 8287 || c == 12288)))))))))

abbrev pub with_word : (word : String) → List String → List String
with_word String.[] words = words
with_word (String.◌∷◌ c w) words = String.◌∷◌ c w ∷ words

abbrev pub end_word : (ends : Bool) (word : String) → List String → List String
end_word true word words = with_word word words
end_word false word words = words

-- `text.split()`, after the characters of `word`.
abbrev pub split_after : (word text : String) → List String
split_after word String.[] = with_word word []
split_after word (String.◌∷◌ c s) =
    end_word (is_space (code c)) word
      (split_after (if is_space (code c) then "" else Text.◌++◌ word (String.◌∷◌ c String.[])) s)

abbrev pub split : String → List String
split text = split_after "" text

abbrev pub has_char : (chars : String) → ℕ → Bool
has_char String.[] c = false
has_char (String.◌∷◌ d chars) c = code d == c || has_char chars c

abbrev pub strip_left : (chars text : String) → String
strip_left chars String.[] = ""
strip_left chars (String.◌∷◌ c s) =
    if has_char chars (code c) then strip_left chars s else String.◌∷◌ c s

abbrev pub put_char : (dropped : Bool) → Char → String → String
put_char true c String.[] = ""
put_char true c (String.◌∷◌ d s) = String.◌∷◌ c (String.◌∷◌ d s)
put_char false c s = String.◌∷◌ c s

abbrev pub strip_right : (chars text : String) → String
strip_right chars String.[] = ""
strip_right chars (String.◌∷◌ c s) = put_char (has_char chars (code c)) c (strip_right chars s)

-- `text.strip(chars)`
abbrev pub strip : (chars text : String) → String
strip chars text = strip_right chars (strip_left chars text)

-- `text.replace(old, new)` of one character by another.
abbrev pub replace_char : (old : ℕ) (new : Char) (text : String) → String
replace_char old new String.[] = ""
replace_char old new (String.◌∷◌ c s) =
    String.◌∷◌ (if code c == old then new else c) (replace_char old new s)

-- `text.endswith(suffix)`
abbrev pub ends_with : (text suffix : String) → Bool
ends_with String.[] suffix = str_eq "" suffix
ends_with (String.◌∷◌ c s) suffix = str_eq (String.◌∷◌ c s) suffix || ends_with s suffix

-- A text made of parts, as an f-string makes it.
abbrev pub concat : List String → String
concat [] = ""
concat (s ∷ ss) = Text.◌++◌ s (concat ss)

-- `separator.join(texts)`
abbrev pub join : (separator : String) → List String → String
join separator [] = ""
join separator (s ∷ []) = s
join separator (s ∷ t ∷ ts) = Text.◌++◌ s (Text.◌++◌ separator (join separator (t ∷ ts)))

abbrev pub lstrip : String → String
lstrip String.[] = ""
lstrip (String.◌∷◌ c s) = if is_space (code c) then lstrip s else String.◌∷◌ c s

abbrev pub rstrip : String → String
rstrip String.[] = ""
rstrip (String.◌∷◌ c s) = put_char (is_space (code c)) c (rstrip s)

-- `text.strip()`
abbrev pub strip_spaces : String → String
strip_spaces text = rstrip (lstrip text)
