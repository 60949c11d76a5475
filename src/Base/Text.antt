-- ===== src/Base/Text.antt =====
-- The methods of Python's texts that the tools use: `strip`, `split` and `join`.
use Prim.Native.Char.{Char, code}
use Prim.Native.Nat.{ℕ, zero, suc, ◌-◌, ◌/◌, ◌%◌}
use Prim.Native.String.{String, count, ◌++◌}
use mathlib.Core.Path.{◌≡◌, refl}
use mathlib.Core.Bool.{Bool, true, false, not, ◌&&◌, ◌||◌}
use mathlib.Core.List.{List, [], ◌∷◌}
use mathlib.Core.Logic.{inl, inr}
use native.Mathlib.Omega.{arith}
use text.Mathlib.Text.{starts_with}
use text.Mathlib.TextLemmas.{nil-append, cons-append}
use configuration.Base.Tests.{if◌then◌else◌, leb, Bool-cases}
use configuration.Base.Classes.{nat_beq}
use configuration.Base.Lists.{All}

-- Blank, tab, newline, vertical tab, form feed and carriage return.
abbrev pub is_space : Char → Bool
is_space c = nat_beq (code c) 32 || (leb 9 (code c) && leb (code c) 13)

abbrev pub is_empty : String → Bool
is_empty String.[] = true
is_empty (String.◌∷◌ c s) = false

abbrev pub lstrip_by : (Char → Bool) → String → String
lstrip_by test String.[] = String.[]
lstrip_by test (String.◌∷◌ c s) =
    let rest = lstrip_by test s in if test c then rest else String.◌∷◌ c s

abbrev pub rstrip_by : (Char → Bool) → String → String
rstrip_by test String.[] = String.[]
rstrip_by test (String.◌∷◌ c s) =
    let rest = rstrip_by test s in if test c && is_empty rest then String.[] else String.◌∷◌ c rest

-- `s.strip(chars)`, the characters given by a test
abbrev pub strip_by : (Char → Bool) → String → String
strip_by test s = rstrip_by test (lstrip_by test s)

-- A word that has been read is kept if it has a character.
abbrev keep_word : String → List String → List String
keep_word w ws = if is_empty w then ws else w ∷ ws

module _ (test : Char → Bool) where
  -- The word at the front, and the words behind the separator after it.
  abbrev split_front : String → String × List String
  split_front String.[] = (String.[], [])
  split_front (String.◌∷◌ c s) =
      let (w, ws) = split_front s in
      if test c then (String.[], keep_word w ws) else (String.◌∷◌ c w, ws)

  -- The parts of a text between the characters that pass a test, without the empty ones.
  abbrev pub split_by : String → List String
  split_by s = let (w, ws) = split_front s in keep_word w ws

  abbrev has_none : String → Bool
  has_none String.[] = true
  has_none (String.◌∷◌ c s) = not (test c) && has_none s

  abbrev pub IsPart : String → Type 0
  IsPart w = (is_empty w ≡ false) × (has_none w ≡ true)

  -- A text is its own front word where it has no separator.
  split_front_word : (w : String) → has_none w ≡ true → split_front w ≡ (w, [])
  split_front_word String.[] h = refl
  split_front_word (String.◌∷◌ c w) h = ground (arith, split_front_word w)

  split_front-append :
      (w s : String) (c : Char)
      → has_none w ≡ true
      → test c ≡ true
      → split_front (w ++ String.◌∷◌ c s) ≡ (w, split_by s)
  split_front-append String.[] s c h t = rw (nil-append, t) refl
  split_front-append (String.◌∷◌ d w) s c h t =
      rw cons-append (ground (arith, split_front-append w s c))

  pub split_by-append :
      (w s : String) (c : Char)
      → IsPart w
      → test c ≡ true
      → split_by (w ++ String.◌∷◌ c s) ≡ w ∷ split_by s
  split_by-append w s c h t = ground (arith, split_front-append w s c)

  keep_word-All :
      (w : String) (ws : List String)
      → has_none w ≡ true
      → All IsPart ws
      → All IsPart (keep_word w ws)
  keep_word-All w ws h hs = elim (Bool-cases (is_empty w)) [
    | inl empty ↦ rw empty hs
    | inr full ↦ rw full ((full, h), hs)
  ]

  split_front-All :
      (s : String) → (has_none (split_front s).0 ≡ true) × All IsPart (split_front s).1
  split_front-All String.[] = (refl, tt)
  split_front-All (String.◌∷◌ c s) = elim (Bool-cases (test c)) [
    | inl found ↦
        let (h, hs) = split_front-All s in
        rw found (refl, keep_word-All (split_front s).0 (split_front s).1 h hs)
    | inr letter ↦ let (h, hs) = split_front-All s in rw letter (rw letter h, hs)
  ]

  split_by-All : (s : String) → All IsPart (split_by s)
  split_by-All s =
      let (h, hs) = split_front-All s in keep_word-All (split_front s).0 (split_front s).1 h hs

-- `s.split()`
abbrev pub split : String → List String
split s = split_by is_space s

-- `" ".join(ws)`
abbrev pub join : List String → String
join [] = ""
join (w ∷ []) = w
join (w ∷ v ∷ ws) = w ++ String.◌∷◌ " " (join (v ∷ ws))

-- A text that `split` gives back whole.
abbrev pub IsWord : String → Type 0
IsWord w = IsPart is_space w

test_split : split " ab  c " ≡ "ab" ∷ "c" ∷ []
test_split = refl

-- Splitting what was joined gives the words back.
pub split-join : (ws : List String) → All IsWord ws → split (join ws) ≡ ws
split-join [] h = refl
split-join (w ∷ []) h = ground (arith, split_front_word is_space w)
split-join (w ∷ v ∷ ws) h =
    ground (arith, split_by-append is_space w (join (v ∷ ws)) " ", split-join (v ∷ ws))

-- What `split` returns are words: not empty and without a blank.
pub split-All : (s : String) → All IsWord (split s)
split-All s = split_by-All is_space s

-- `part in text`
abbrev pub has_part : String → String → Bool
has_part part String.[] = is_empty part
has_part part (String.◌∷◌ c s) =
    let rest = has_part part s in starts_with (String.◌∷◌ c s) part || rest

-- `s.replace(old, new)` with `skip` characters of an old part still to be left out
abbrev replace_from : String → String → ℕ → String → String
replace_from old new skip String.[] = String.[]
replace_from old new (suc skip) (String.◌∷◌ c s) = replace_from old new skip s
replace_from old new zero (String.◌∷◌ c s) =
    let here = replace_from old new (count old - 1) s in
    let later = replace_from old new 0 s in
    if starts_with (String.◌∷◌ c s) old then new ++ here else String.◌∷◌ c later

-- `s.replace(old, new)`, where the old part is not empty
abbrev pub replace : String → String → String → String
replace old new s = replace_from old new 0 s

abbrev lower_among : String → String → Char → Char
lower_among (String.◌∷◌ u upper) (String.◌∷◌ l lower) c =
    let other = lower_among upper lower c in if nat_beq (code c) (code u) then l else other
lower_among _ _ c = c

abbrev lower_char : Char → Char
lower_char = lower_among "ABCDEFGHIJKLMNOPQRSTUVWXYZ" "abcdefghijklmnopqrstuvwxyz"

-- `s.lower()`, for the letters of ASCII
abbrev pub lower : String → String
lower String.[] = String.[]
lower (String.◌∷◌ c s) = String.◌∷◌ (lower_char c) (lower s)

test_replace : replace " | " "." "a | b | c" ≡ "a.b.c"
test_replace = refl

test_lower : lower "Git-Clone" ≡ "git-clone"
test_lower = refl

-- The text up to the first separator, and the texts behind it.
abbrev pieces_front : (Char → Bool) → String → String × List String
pieces_front test String.[] = (String.[], [])
pieces_front test (String.◌∷◌ c s) =
    let (w, ws) = pieces_front test s in
    if test c then (String.[], w ∷ ws) else (String.◌∷◌ c w, ws)

-- `s.split(c)`, the separator given by a test. Empty parts are kept.
abbrev pub pieces : (Char → Bool) → String → List String
pieces test s = let (w, ws) = pieces_front test s in w ∷ ws

-- `separator.join(ws)`
abbrev pub join_by : String → List String → String
join_by separator [] = ""
join_by separator (w ∷ []) = w
join_by separator (w ∷ v ∷ ws) = w ++ separator ++ join_by separator (v ∷ ws)

test_pieces : pieces is_space "a  b" ≡ "a" ∷ "" ∷ "b" ∷ []
test_pieces = refl

abbrev digit_at : String → ℕ → String
digit_at String.[] d = ""
digit_at (String.◌∷◌ c s) zero = String.◌∷◌ c ""
digit_at (String.◌∷◌ c s) (suc d) = digit_at s d

abbrev decimal : ℕ → ℕ → String
decimal zero n = ""
decimal (suc fuel) n =
    let front = decimal fuel (n / 10) in
    (if leb 10 n then front else "") ++ digit_at "0123456789" (n % 10)

-- `str(n)`. A number has fewer digits than its successor counts.
abbrev pub show_nat : ℕ → String
show_nat n = decimal (suc n) n

test_show_nat : show_nat 120 ≡ "120"
test_show_nat = refl
