-- ===== src/Base/Scan.antt =====
-- The functions of Go's package strings that take a text apart, on the code points of a text.
pub mod Cuts
use Prim.Native.Nat.{ℕ, zero, suc}
use Prim.Native.Char.{Char, code}
use Prim.Native.String.{String, len, slice}
use text.Mathlib.Text.{starts_with}
use text.Mathlib.TextLemmas.{cons-append, nil-append}
use mathlib.Core.Path.{◌≡◌, refl}
use mathlib.Core.Logic.{◌≢◌, inl, inr}
use mathlib.Core.Bool.{Bool, false, ◌||◌, ◌&&◌}
use mathlib.Core.Option.{Option, none, some}
use mathlib.Core.List.{List, [], ◌∷◌}
use native.Mathlib.Omega.{arith}
use gitvm.Base.Tests.{Bool-cases, if◌then◌else◌, nat_beq, leb}
use gitvm.Base.Class.{◌==◌, string_comparable}
use gitvm.Base.Text.{concat}

-- `unicode.IsSpace`
unfoldable pub is_space : ℕ → Bool
is_space c =
    leb 9 c && leb c 13
    || nat_beq c 32
    || nat_beq c 133
    || nat_beq c 160
    || nat_beq c 5760
    || leb 8192 c && leb c 8202
    || nat_beq c 8232
    || nat_beq c 8233
    || nat_beq c 8239
    || nat_beq c 8287
    || nat_beq c 12288

trim_left : String → String
trim_left String.[] = ""
trim_left (String.◌∷◌ c s) =
    let rest = trim_left s in if is_space (code c) then rest else String.◌∷◌ c s

-- A space before a text of which nothing is left goes too.
unless_blank : Char → String → String
unless_blank c rest = if is_space (code c) && rest == "" then "" else String.◌∷◌ c rest

trim_right : String → String
trim_right String.[] = ""
trim_right (String.◌∷◌ c s) = unless_blank c (trim_right s)

unfoldable pub trim_space : String → String
unfolding trim_left trim_right is_space unless_blank
trim_space s = trim_right (trim_left s)

-- What stands before the first character `sep`, or the whole text.
unfoldable pub before_first : ℕ → String → String
before_first sep String.[] = ""
before_first sep (String.◌∷◌ c s) =
    let rest = String.◌∷◌ c (before_first sep s) in if nat_beq (code c) sep then "" else rest

-- What stands behind the first character `sep`.
unfoldable pub after_first : ℕ → String → Option String
after_first sep String.[] = none
after_first sep (String.◌∷◌ c s) =
    let rest = after_first sep s in if nat_beq (code c) sep then some s else rest

-- What stands behind the last character `sep`.
unfoldable pub after_last : ℕ → String → Option String
after_last sep String.[] = none
after_last sep (String.◌∷◌ c s) = elim (after_last sep s) [
  | some r ↦ some r
  | none ↦ if nat_beq (code c) sep then some s else none
]

onto_first : Char → List String → List String
onto_first c [] = String.◌∷◌ c "" ∷ []
onto_first c (s ∷ ss) = String.◌∷◌ c s ∷ ss

-- `strings.Split(s, sep)` for a separator of one character
unfoldable pub split : ℕ → String → List String
unfolding onto_first
split sep String.[] = "" ∷ []
split sep (String.◌∷◌ c s) =
    let rest = split sep s in if nat_beq (code c) sep then "" ∷ rest else onto_first c rest

-- `strings.SplitN(s, sep, n + 1)`
unfoldable pub split_n : ℕ → ℕ → String → List String
unfolding onto_first
split_n sep zero s = s ∷ []
split_n sep (suc n) String.[] = "" ∷ []
split_n sep (suc n) (String.◌∷◌ c s) =
    let next = "" ∷ split_n sep n s in
    let same = onto_first c (split_n sep (suc n) s) in if nat_beq (code c) sep then next else same

unfoldable pub trim_prefix : String → String → String
trim_prefix s prefix = if starts_with s prefix then slice s (len prefix) (len s) else s

-- No character of the text is white space.
abbrev pub Plain : String → Type 0
Plain String.[] = Unit {0}
Plain (String.◌∷◌ c s) = (is_space (code c) ≡ false) × Plain s

-- No character of the text is `sep`.
abbrev pub Lacks : ℕ → String → Type 0
Lacks sep String.[] = Unit {0}
Lacks sep (String.◌∷◌ c s) = (nat_beq (code c) sep ≡ false) × Lacks sep s

newline_is_space : (c : ℕ) → is_space c ≡ false → nat_beq c b'\n' ≡ false
unfolding is_space
newline_is_space c h = ground arith

before_first-trim_right_nil :
    (rest : String) → before_first b'\n' (trim_right (String.◌∷◌ "\n" rest)) ≡ ""
unfolding trim_right unless_blank before_first is_space
before_first-trim_right_nil rest = elim (Bool-cases (trim_right rest == "")) [
  | inl blank ↦ rw blank refl
  | inr more ↦ rw more refl
]

before_first-trim_right_cons :
    (c : Char) (s t : String)
    → is_space (code c) ≡ false
    → before_first b'\n' (trim_right t) ≡ s
    → before_first b'\n' (trim_right (String.◌∷◌ c t)) ≡ String.◌∷◌ c s
unfolding trim_right unless_blank before_first
before_first-trim_right_cons c s t p h = ground (arith, newline_is_space (code c) p)

-- The first line of a text is as it was behind `TrimSpace`, if no white space is in it.
before_first-trim_right :
    (s rest : String)
    → Plain s
    → before_first b'\n' (trim_right (concat s (String.◌∷◌ "\n" rest))) ≡ s
before_first-trim_right String.[] rest p =
    rw (nil-append (String.◌∷◌ "\n" rest)) (before_first-trim_right_nil rest)
before_first-trim_right (String.◌∷◌ c s) rest (p, ps) =
    rw (cons-append c s (String.◌∷◌ "\n" rest))
      (before_first-trim_right_cons c s _ p (before_first-trim_right s rest ps))

trim_left-Plain_cons :
    (c : Char) (s : String)
    → is_space (code c) ≡ false
    → trim_left (String.◌∷◌ c s) ≡ String.◌∷◌ c s
unfolding trim_left
trim_left-Plain_cons c s p = rw p

trim_left-Plain : (s t : String) → Plain s → s ≢ "" → trim_left (concat s t) ≡ concat s t
trim_left-Plain String.[] t p nonempty = absurd (nonempty refl)
trim_left-Plain (String.◌∷◌ c s) t (p, ps) nonempty =
    rw (cons-append c s t) (trim_left-Plain_cons c (concat s t) p)

pub first_line-Plain :
    (s rest : String)
    → Plain s
    → s ≢ ""
    → before_first b'\n' (trim_space (concat s (String.◌∷◌ "\n" rest))) ≡ s
unfolding trim_space
first_line-Plain s rest p nonempty =
    rw (trim_left-Plain s (String.◌∷◌ "\n" rest) p nonempty) (before_first-trim_right s rest p)

pub Plain-concat : (s t : String) → Plain s → Plain t → Plain (concat s t)
Plain-concat String.[] t ps pt = rw (nil-append t) pt
Plain-concat (String.◌∷◌ c s) t (p, ps) pt = rw (cons-append c s t) (p, Plain-concat s t ps pt)

-- Behind the last `sep` of a text stands what has none.
after_last-Lacks : (sep : ℕ) (s : String) → Lacks sep s → after_last sep s ≡ none
unfolding after_last
after_last-Lacks sep String.[] h = refl
after_last-Lacks sep (String.◌∷◌ c s) (h, hs) = ground (arith, after_last-Lacks sep s hs)

pub after_last-concat :
    (sep : Char) (s t : String)
    → Lacks (code sep) t
    → after_last (code sep) (concat s (String.◌∷◌ sep t)) ≡ some t
unfolding after_last
after_last-concat sep String.[] t h =
    rw (nil-append (String.◌∷◌ sep t)) (ground (arith, after_last-Lacks (code sep) t h))
after_last-concat sep (String.◌∷◌ c s) t h =
    rw (cons-append c s (String.◌∷◌ sep t)) (ground (arith, after_last-concat sep s t h))
