-- ===== src/Base/Scan/Cuts.antt =====
-- Where a text is cut at a character that its first part has not.
use Prim.Native.Nat.{ℕ}
use Prim.Native.Char.{Char, code}
use Prim.Native.String.{String, len, slice}
use text.Mathlib.TextLemmas.{cons-append, nil-append, append-nil, append_assoc}
use text.Mathlib.TextPositions.{len-append, slice-append_right}
use mathlib.Core.Path.{◌≡◌, refl, ap, ◌∙◌}
use mathlib.Core.Bool.{Bool, true, not, ◌&&◌}
use gitvm.Base.Tests.{nat_beq}
use mathlib.Core.Option.{some}
use mathlib.Core.List.{[], ◌∷◌}
use native.Mathlib.Omega.{arith}
use gitvm.Base.Text.{concat}
use gitvm.Base.Scan.{before_first, after_first, split, Lacks}

pub Lacks-concat : (sep : ℕ) (s t : String) → Lacks sep s → Lacks sep t → Lacks sep (concat s t)
Lacks-concat sep String.[] t hs ht = rw (nil-append t) ht
Lacks-concat sep (String.◌∷◌ c s) t (h, hs) ht =
    rw (cons-append c s t) (h, Lacks-concat sep s t hs ht)

pub before_first-Lacks :
    (sep : ℕ) (s t : String)
    → Lacks sep s
    → before_first sep (concat s t) ≡ concat s (before_first sep t)
unfolding before_first
before_first-Lacks sep String.[] t h = rw (nil-append t, nil-append (before_first sep t))
before_first-Lacks sep (String.◌∷◌ c s) t (h, hs) =
    rw (cons-append c s t, cons-append c s (before_first sep t), before_first)
      (ground (arith, before_first-Lacks sep s t hs))

pub after_first-Lacks :
    (sep : ℕ) (s t : String) → Lacks sep s → after_first sep (concat s t) ≡ after_first sep t
unfolding after_first
after_first-Lacks sep String.[] t h = rw (nil-append t)
after_first-Lacks sep (String.◌∷◌ c s) t (h, hs) =
    rw (cons-append c s t, after_first) (ground (arith, after_first-Lacks sep s t hs))

pub before_first_at : (sep : Char) (t : String) → before_first (code sep) (String.◌∷◌ sep t) ≡ ""
unfolding before_first
before_first_at sep t = ground arith

pub after_first_at : (sep : Char) (t : String) → after_first (code sep) (String.◌∷◌ sep t) ≡ some t
unfolding after_first
after_first_at sep t = ground arith

-- The first piece of a split.
pub split-Lacks :
    (sep : Char) (s t : String)
    → Lacks (code sep) s
    → split (code sep) (concat s (String.◌∷◌ sep t)) ≡ s ∷ split (code sep) t
unfolding split
split-Lacks sep String.[] t h = rw (nil-append (String.◌∷◌ sep t)) (ground arith)
split-Lacks sep (String.◌∷◌ c s) t (h, hs) =
    rw (cons-append c s (String.◌∷◌ sep t), split) (ground (arith, split-Lacks sep s t hs))

pub split_whole : (sep : ℕ) (s : String) → Lacks sep s → split sep s ≡ s ∷ []
unfolding split
split_whole sep String.[] h = refl
split_whole sep (String.◌∷◌ c s) (h, hs) = ground (arith, split_whole sep s hs)

pub slice-concat : (s t : String) → slice (concat s t) (len s) (len (concat s t)) ≡ t
slice-concat s t = rw (len-append s t) (slice-append_right s t)

pub after_first-concat :
    (sep : Char) (s t rest : String)
    → Lacks (code sep) s
    → after_first (code sep) (concat (concat s (String.◌∷◌ sep t)) rest) ≡ some (concat t rest)
after_first-concat sep s t rest h =
    rw
      (
        append_assoc s (String.◌∷◌ sep t) rest,
        after_first-Lacks (code sep) s (concat (String.◌∷◌ sep t) rest) h,
        cons-append sep t rest,
      )
      (after_first_at sep (concat t rest))

pub before_first_whole : (sep : ℕ) (s : String) → Lacks sep s → before_first sep s ≡ s
unfolding before_first
before_first_whole sep String.[] l = refl
before_first_whole sep (String.◌∷◌ c s) (l, ls) = ground (arith, before_first_whole sep s ls)

equals_text : (v : String) → concat "=" v ≡ String.◌∷◌ "=" v
equals_text v = cons-append "=" "" v ∙ ap (λ (s : String). String.◌∷◌ "=" s) (nil-append v)

-- The two sides of a text `k=v`.
pub before_first-equals :
    (k v : String) → Lacks b'=' k → before_first b'=' (concat k (concat "=" v)) ≡ k
before_first-equals k v l =
    before_first-Lacks b'=' k (concat "=" v) l
    ∙ rw (equals_text v, before_first_at "=" v) (append-nil k)

pub after_first-equals :
    (k v : String) → Lacks b'=' k → after_first b'=' (concat k (concat "=" v)) ≡ some v
after_first-equals k v l =
    after_first-Lacks b'=' k (concat "=" v) l ∙ rw (equals_text v) (after_first_at "=" v)

-- `Lacks` by computing.
abbrev pub lacks : ℕ → String → Bool
lacks sep String.[] = true
lacks sep (String.◌∷◌ c s) = not (nat_beq (code c) sep) && lacks sep s

pub lacks-Lacks : (sep : ℕ) (s : String) → lacks sep s ≡ true → Lacks sep s
lacks-Lacks sep String.[] h = tt
lacks-Lacks sep (String.◌∷◌ c s) h = ground (arith, lacks-Lacks sep s)
