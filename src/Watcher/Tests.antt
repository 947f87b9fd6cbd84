-- ===== src/Watcher/Tests.antt =====
-- A file with two possible contents, watched.
use strimzi_canary.Common.{
  ℕ, ◌≡◌, ◌≢◌, refl, Bool, true, false, List, [], ◌∷◌, Option, none, some, String,
}
use strimzi_canary.Common.Int.{pos}
use strimzi_canary.Common.Maps.{string_eq}
use strimzi_canary.Watcher.{
  Files, idle, Look, missing, unknown, present, new_dynamic_config_watcher,
}
use strimzi_canary.Watcher.Follow.{follow, follow-latest, follow-missing}

abbrev digits : Bool → String
digits true = "a1"
digits false = "b2"

-- the contents decode to 5 and 7, over the default 0
abbrev decoded : Bool → Option ℕ
decoded true = some 5
decoded false = some 7

abbrev two : Files
two = record { Bytes = Bool; Config = ℕ; parse = decoded; hash = digits; default = 0 }

separates_two : (a b : Bool) → digits a ≡ digits b → decoded a ≡ decoded b
separates_two true true h = refl
separates_two true false h = absurd (cc ((string_eq.beq_iff "a1" "b2").1 h))
separates_two false true h = absurd (cc ((string_eq.beq_iff "b2" "a1").1 h))
separates_two false false h = refl

nonempty_two : (a : Bool) → digits a ≢ ""
nonempty_two true h = absurd (cc h)
nonempty_two false h = absurd (cc h)

abbrev looks : List (Look two)
looks =
    present (some false)
    ∷ present none
    ∷ unknown
    ∷ present (some true)
    ∷ present (some true)
    ∷ present none
    ∷ []

follow-latest_example :
    (follow two (new_dynamic_config_watcher two "f.json" (pos 30000) (some true)).0 5 looks).1 ≡ 5
unfolding new_dynamic_config_watcher
follow-latest_example =
    follow-latest two separates_two nonempty_two "f.json" (pos 30000) (some true) looks refl
      (refl, (refl, (refl, (refl, (refl, (refl, tt))))))

follow-missing_example :
    (follow two idle 0 (present (some true) ∷ missing ∷ present (some true) ∷ [])).1 ≡ 0
follow-missing_example = follow-missing two idle 0 5 true refl
