-- ===== src/Common/Text.antt =====
-- What the program uses of Go's package strings, over native strings: a separator is one ASCII
-- character, given by its code.
use Prim.Native.Nat.{ℕ}
use Prim.Native.Char.{Char, code}
use Prim.Native.String.{String, ◌++◌}
use mathlib.Core.Path.{◌≡◌, refl, sym, ap, ◌∙◌}
use mathlib.Core.Bool.{false}
use mathlib.Core.Logic.{◌≢◌, inl, inr}
use text.Mathlib.TextEquality.{Char-path}
use mathlib.Core.List.{List, [], ◌∷◌, cons-ne-nil}
use text.Mathlib.TextLemmas.{nil-append, cons-append}
use strimzi_canary.Common.Tests.{if◌then◌else◌, ◌==◌, ==_iff, ==_refl, Bool-cases}
use strimzi_canary.Common.Lists.{All}

abbrev pub grow : Char → List String → List String
grow c [] = (String.◌∷◌ c "") ∷ []
grow c (p ∷ ps) = (String.◌∷◌ c p) ∷ ps

-- strings.Split
unfoldable pub split : String → ℕ → List String
split String.[] sep = "" ∷ []
split (String.◌∷◌ c s) sep = if code c == sep then "" ∷ split s sep else grow c (split s sep)

-- The parts with the separator's character between them.
unfoldable pub join : List String → Char → String
join [] sep = ""
join (p ∷ []) sep = p
join (p ∷ q ∷ ps) sep = p ++ (String.◌∷◌ sep (join (q ∷ ps) sep))

-- no character of the text has the code
abbrev pub Lacks : ℕ → String → Type 0
Lacks sep String.[] = Unit {0}
Lacks sep (String.◌∷◌ c s) = ((code c == sep) ≡ false) × Lacks sep s

-- A text without the separator is one part.
pub split-Lacks : (s : String) (sep : ℕ) → Lacks sep s → split s sep ≡ s ∷ []
unfolding split
split-Lacks String.[] sep h = refl
split-Lacks (String.◌∷◌ c s) sep (h, hs) = rw (h, split-Lacks s sep hs) refl

-- The first separator ends the first part.
pub split-append :
    (p s : String) (c : Char)
    → Lacks (code c) p
    → split (p ++ (String.◌∷◌ c s)) (code c) ≡ p ∷ split s (code c)
unfolding split
split-append String.[] s c h = rw (nil-append, split, ==_refl (code c)) refl
split-append (String.◌∷◌ d p) s c (h, hs) = rw (cons-append, split, h, split-append p s c hs) refl

-- Splitting a join gives the parts back, if there is a part and none holds the separator.
pub split-join :
    (ps : List String) (c : Char)
    → ps ≢ []
    → All (Lacks (code c)) ps
    → split (join ps c) (code c) ≡ ps
unfolding join
split-join [] c h hs = absurd (h refl)
split-join (p ∷ []) c h (hp, hs) = split-Lacks p (code c) hp
split-join (p ∷ q ∷ ps) c h (hp, hs) =
    split-append p (join (q ∷ ps) c) c hp
    ∙ ap (λ (l : List String). p ∷ l) (split-join (q ∷ ps) c (cons-ne-nil q ps) hs)

-- Every text has a part.
pub split-cons : (s : String) (sep : ℕ) → (p : String) × (ps : List String) × (split s sep ≡ p ∷ ps)
unfolding split
split-cons String.[] sep = ("", [], refl)
split-cons (String.◌∷◌ c s) sep =
    let (p, ps, e) = split-cons s sep in
    elim (Bool-cases (code c == sep)) [
      | inl is_sep ↦ ("", split s sep, rw is_sep refl)
      | inr other ↦ (String.◌∷◌ c p, ps, rw (other, e) refl)
    ]

join-grow :
    (c d : Char) (p : String) (ps : List String)
    → join (grow c (p ∷ ps)) d ≡ String.◌∷◌ c (join (p ∷ ps) d)
unfolding join
join-grow c d p [] = refl
join-grow c d p (q ∷ ps) = cons-append c p (String.◌∷◌ d (join (q ∷ ps) d))

-- Joining the parts of a split gives the text back.
pub join-split : (s : String) (c : Char) → join (split s (code c)) c ≡ s
unfolding split join
join-split String.[] c = refl
join-split (String.◌∷◌ d s) c =
    let (p, ps, e) = split-cons s (code c) in
    elim (Bool-cases (code d == code c)) [
      | inl is_sep ↦
          rw (is_sep, e, nil-append)
            (ap (λ (t : String). String.◌∷◌ c t)
                (sym (ap (λ (l : List String). join l c) e) ∙ join-split s c)
              ∙ ap (λ (b : Char). String.◌∷◌ b s)
                  (Char-path c d (sym ((==_iff (code d) (code c)).0 is_sep))))
      | inr other ↦
          rw (other, e)
            (join-grow d c p ps
              ∙ ap (λ (t : String). String.◌∷◌ d t)
                  (sym (ap (λ (l : List String). join l c) e) ∙ join-split s c))
    ]

-- The parts of a split do not hold the separator.
pub split-All-Lacks : (s : String) (sep : ℕ) → All (Lacks sep) (split s sep)
unfolding split
split-All-Lacks String.[] sep = (tt, tt)
split-All-Lacks (String.◌∷◌ c s) sep =
    let (p, ps, e) = split-cons s sep in
    elim (Bool-cases (code c == sep)) [
      | inl is_sep ↦ rw is_sep (tt, split-All-Lacks s sep)
      | inr other ↦ rw (other, e) (grown c p ps other (rw e at (split-All-Lacks s sep)))
    ]
  where
    grown :
        (c : Char) (p : String) (ps : List String)
        → (code c == sep) ≡ false
        → All (Lacks sep) (p ∷ ps)
        → All (Lacks sep) (grow c (p ∷ ps))
    grown c p ps h (hp, hs) = ((h, hp), hs)
