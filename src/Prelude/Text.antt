-- ===== src/Prelude/Text.antt =====
-- Python's `str`: the methods that the program calls, on the native text.
use Prim.Native.Nat.{ℕ, zero, suc, ◌-◌, ◌/◌, ◌%◌}
use Prim.Native.Char.{Char, code}
use Prim.Native.String.{String, ◌++◌}
use mathlib.Core.Path.{◌≡◌, refl}
use mathlib.Core.Bool.{Bool, true, false, not, ◌&&◌, ◌||◌}
use mathlib.Core.List.{List}
use text.Mathlib.Text.{starts_with}
use text.Mathlib.TextLemmas.{cons-append}
use nexus_ai_team.Prelude.Tests.{ltb, leb, nat_eq, if◌then◌else◌}

infixr 65 ◌⁀◌
abbrev pub ◌⁀◌ : String → String → String
s ⁀ t = s ++ t

-- bool(s)
abbrev pub nonempty : String → Bool
nonempty String.[] = false
nonempty (String.◌∷◌ c s) = true

-- len(s)
unfoldable pub len_text : String → ℕ
len_text String.[] = 0
len_text (String.◌∷◌ c s) = suc (len_text s)

-- s[:n] and s[n:]
unfoldable pub take_text : ℕ → String → String
take_text zero s = ""
take_text (suc n) String.[] = ""
take_text (suc n) (String.◌∷◌ c s) = String.◌∷◌ c (take_text n s)

unfoldable pub drop_text : ℕ → String → String
drop_text zero s = s
drop_text (suc n) String.[] = ""
drop_text (suc n) (String.◌∷◌ c s) = drop_text n s

-- str.isspace of one character
unfoldable pub is_space : Char → Bool
is_space c =
    let n = code c in
    (leb 9 n && leb n 13)
    || (leb 28 n && leb n 32)
    || nat_eq n 0x85
    || nat_eq n 0xa0
    || nat_eq n 0x1680
    || (leb 0x2000 n && leb n 0x200a)
    || (leb 0x2028 n && leb n 0x2029)
    || nat_eq n 0x202f
    || nat_eq n 0x205f
    || nat_eq n 0x3000

-- The line boundaries of str.splitlines
is_break : Char → Bool
is_break c =
    let n = code c in
    (leb 10 n && leb n 13)
    || (leb 28 n && leb n 30)
    || nat_eq n 0x85
    || (leb 0x2028 n && leb n 0x2029)

unfoldable pub lstrip_by : (Char → Bool) → String → String
lstrip_by p String.[] = ""
lstrip_by p (String.◌∷◌ c s) = if p c then lstrip_by p s else String.◌∷◌ c s

unfoldable pub rstrip_by : (Char → Bool) → String → String
rstrip_by p String.[] = ""
rstrip_by p (String.◌∷◌ c s) =
    let rest = rstrip_by p s in if p c && not (nonempty rest) then "" else String.◌∷◌ c rest

-- s.strip()
unfoldable pub strip : String → String
unfolding lstrip_by rstrip_by is_space
strip s = rstrip_by is_space (lstrip_by is_space s)

has_char : String → Char → Bool
has_char String.[] d = false
has_char (String.◌∷◌ c s) d = nat_eq (code c) (code d) || has_char s d

-- s.strip(chars)
unfoldable pub strip_chars : String → String → String
unfolding lstrip_by rstrip_by has_char
strip_chars chars s = rstrip_by (has_char chars) (lstrip_by (has_char chars) s)

-- Puts a character in front of the first line.
push : Char → List String → List String
push c List.[] = List.◌∷◌ (String.◌∷◌ c "") List.[]
push c (List.◌∷◌ l ls) = List.◌∷◌ (String.◌∷◌ c l) ls

-- s.splitlines(); a carriage return before a line feed adds no line of its own.
unfoldable pub splitlines : String → List String
unfolding is_break push
splitlines String.[] = List.[]
splitlines (String.◌∷◌ c s) =
    let rest = splitlines s in
    if is_break c
    then (if nat_eq (code c) 13 && starts_with s "\n" then rest else List.◌∷◌ "" rest)
    else push c rest

-- s.split("\n")
unfoldable pub split_newline : String → List String
unfolding push
split_newline String.[] = List.◌∷◌ "" List.[]
split_newline (String.◌∷◌ c s) =
    let rest = split_newline s in if nat_eq (code c) 10 then List.◌∷◌ "" rest else push c rest

-- sep.join(parts)
unfoldable pub join : String → List String → String
join sep List.[] = ""
join sep (List.◌∷◌ x List.[]) = x
join sep (List.◌∷◌ x (List.◌∷◌ y ys)) = x ++ sep ++ join sep (List.◌∷◌ y ys)

-- needle in s
unfoldable pub contains : String → String → Bool
contains needle String.[] = starts_with "" needle
contains needle (String.◌∷◌ c s) = starts_with (String.◌∷◌ c s) needle || contains needle s

-- The character of `to` at the place where `from` has `c`, else `c`.
translate : String → String → Char → String
translate String.[] to c = String.◌∷◌ c ""
translate (String.◌∷◌ f from) String.[] c = String.◌∷◌ c ""
translate (String.◌∷◌ f from) (String.◌∷◌ t to) c =
    if nat_eq (code c) (code f) then String.◌∷◌ t "" else translate from to c

-- The letters outside ASCII whose upper case holds ASCII letters. Every other character outside
-- ASCII is left as it is here, since its upper case holds none and no test of the program sees it.
upper_special : ℕ → String → String
upper_special n other =
    if nat_eq n 0xdf
    then "SS"
    else if nat_eq n 0x131
    then "I"
    else if nat_eq n 0x149
    then "ʼN"
    else if nat_eq n 0x17f
    then "S"
    else if nat_eq n 0x1f0
    then "J̌"
    else if nat_eq n 0x1e96
    then "H̱"
    else if nat_eq n 0x1e97
    then "T̈"
    else if nat_eq n 0x1e98
    then "W̊"
    else if nat_eq n 0x1e99
    then "Y̊"
    else if nat_eq n 0x1e9a
    then "Aʾ"
    else if nat_eq n 0xfb00
    then "FF"
    else if nat_eq n 0xfb01
    then "FI"
    else if nat_eq n 0xfb02
    then "FL"
    else if nat_eq n 0xfb03
    then "FFI"
    else if nat_eq n 0xfb04
    then "FFL"
    else if nat_eq n 0xfb05
    then "ST"
    else if nat_eq n 0xfb06
    then "ST"
    else other

-- s.upper()
unfoldable pub upper : String → String
unfolding translate upper_special
upper String.[] = ""
upper (String.◌∷◌ c s) =
    (if ltb (code c) 128
      then translate "abcdefghijklmnopqrstuvwxyz" "ABCDEFGHIJKLMNOPQRSTUVWXYZ" c
      else upper_special (code c) (String.◌∷◌ c ""))
    ++ upper s

-- s.lower(), in the same way: two letters outside ASCII have ASCII in their lower case.
unfoldable pub lower : String → String
unfolding translate
lower String.[] = ""
lower (String.◌∷◌ c s) =
    (if ltb (code c) 128
      then translate "ABCDEFGHIJKLMNOPQRSTUVWXYZ" "abcdefghijklmnopqrstuvwxyz" c
      else if nat_eq (code c) 0x130
      then "i̇"
      else if nat_eq (code c) 0x212a
      then "k"
      else String.◌∷◌ c "")
    ++ lower s

-- The n-th digit.
nth_digit : ℕ → String → String
nth_digit n String.[] = ""
nth_digit zero (String.◌∷◌ c s) = String.◌∷◌ c ""
nth_digit (suc n) (String.◌∷◌ c s) = nth_digit n s

-- A number has fewer digits than it counts, so `suc n` rounds are enough for `n`.
digits_of : ℕ → ℕ → ℕ → String
digits_of base zero n = ""
digits_of base (suc fuel) n =
    let rest = digits_of base fuel (n / base) in
    (if ltb n base then "" else rest) ++ nth_digit (n % base) "0123456789abcdef"

-- str(n)
unfoldable pub decimal : ℕ → String
unfolding digits_of nth_digit
decimal n = digits_of 10 (suc n) n

unfoldable pub zeros : ℕ → String
zeros zero = ""
zeros (suc n) = "0" ++ zeros n

-- format(n, "05x")
unfoldable pub hex5 : ℕ → String
unfolding digits_of nth_digit zeros len_text
hex5 n = let h = digits_of 16 (suc n) n in zeros (5 - len_text h) ++ h

pub nonempty-append : (s t : String) → nonempty s ≡ true → nonempty (s ⁀ t) ≡ true
nonempty-append String.[] t h = cc
nonempty-append (String.◌∷◌ c s) t h = rw cons-append

text_samples :
    (strip " a b\n" ≡ "a b")
    × (strip_chars "*`# " "**PASS** " ≡ "PASS")
    × (upper "paß" ≡ "PASS")
    × (splitlines "x\r\ny\n\nz" ≡ List.◌∷◌ "x" (List.◌∷◌ "y" (List.◌∷◌ "" (List.◌∷◌ "z" List.[]))))
    × (join ", " (List.◌∷◌ "a" (List.◌∷◌ "b" List.[])) ≡ "a, b")
    × (contains "REJECT" (upper "ctr-reject-1") ≡ true)
    × (decimal 2048 ≡ "2048")
    × (hex5 4660 ≡ "01234")
unfolding strip strip_chars upper splitlines join contains decimal hex5
text_samples = (refl, refl, refl, refl, refl, refl, refl, refl)
