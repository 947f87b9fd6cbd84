-- ===== src/Metrics/Names.antt =====
-- That no two metrics of the program have the same name.
use Prim.Native.String.{String}
use Prim.Native.String.{◌++◌ as append}
use strimzi_canary.Common.{
  ◌≡◌, refl, sym, ap, ap₂, ◌∙◌, Bool, Bool-cases, inl, inr, true, false, not, ◌&&◌, ◌||◌, List, [],
  ◌∷◌, ◌++◌, Outcome, ok, crash, ◌>>=◌,
}
use strimzi_canary.Common.Maps.{str_eq}
use strimzi_canary.Config.{Floats, CanaryConfig}
use strimzi_canary.Metrics.{Opts, all_metrics, Registry, register_all}

abbrev pub is_named : String → List String → Bool
is_named n [] = false
is_named n (m ∷ ms) = str_eq m n || is_named n ms

-- The namespace and the name of a metric, joined.
abbrev pub joined_name : (fl : Floats) → Opts fl → String
joined_name fl o = append o.namespace (append "_" o.name)

-- It ends with a value of which `P` holds.
abbrev pub HoldsWith : {A : Type 0} → (A → Type 0) → Outcome A → Type 0
HoldsWith {A} P end = (a : A) × (end ≡ ok a) × P a

module _ (fl : Floats) (reg : Registry fl) where
  -- A registry, as Prometheus documents it: it takes a collector that is acceptable in itself and whose full name
  -- it does not have.
  pub record IsRegistry : Type 0 where
    pub joins : (o : Opts fl) → reg.full_name o ≡ joined_name fl o
    pub takes :
        (o : Opts fl) (r : reg.R)
        → reg.is_acceptable o ≡ true
        → is_named (reg.full_name o) (reg.names r) ≡ false
        → (r' : reg.R) × (reg.register o r ≡ ok r') × (reg.names r' ≡ reg.full_name o ∷ reg.names r)

  abbrev pub AllAcceptable : List (Opts fl) → Type 0
  AllAcceptable [] = Unit {0}
  AllAcceptable (o ∷ os) = (reg.is_acceptable o ≡ true) × AllAcceptable os

  -- The names of a list of metrics are new, to a registry and to one another.
  abbrev are_new : List (Opts fl) → List String → Bool
  are_new [] seen = true
  are_new (o ∷ os) seen =
      not (is_named (joined_name fl o) seen) && are_new os (joined_name fl o ∷ seen)

  -- No library has registered a collector of the name of one of these.
  abbrev pub AllFree : List (Opts fl) → Type 0
  AllFree [] = Unit {0}
  AllFree (o ∷ os) = (is_named (joined_name fl o) (reg.names reg.default) ≡ false) × AllFree os

  -- the names of a list of metrics on top of others, the last one first
  abbrev pub joined_onto : List (Opts fl) → List String → List String
  joined_onto [] seen = seen
  joined_onto (o ∷ os) seen = joined_onto os (joined_name fl o ∷ seen)

  is_named-append :
      (n : String) (ms ns : List String)
      → is_named n ms ≡ false
      → is_named n ns ≡ false
      → is_named n (ms ++ ns) ≡ false
  is_named-append n [] ns h k = k
  is_named-append n (m ∷ ms) ns h k = elim (Bool-cases (str_eq m n)) [
    | inl same ↦ absurd (cc (rw same at h))
    | inr other ↦ rw other (is_named-append n ms ns (rw other at h) k)
  ]

  module _ (is : IsRegistry) where
    renamed :
        (o : Opts fl) (ns : List String)
        → is_named (reg.full_name o) ns ≡ is_named (joined_name fl o) ns
    renamed o ns = ap (λ n. is_named n ns) (is.joins o)

    -- after some metrics of the program, whose names are `seen`
    register_all-names :
        (os : List (Opts fl)) (seen : List String) (r : reg.R)
        → AllAcceptable os
        → AllFree os
        → are_new os seen ≡ true
        → reg.names r ≡ seen ++ reg.names reg.default
        → (last : reg.R) × (register_all fl reg os r ≡ ok last)
          × (reg.names last ≡ joined_onto os (seen ++ reg.names reg.default))
    unfolding register_all
    register_all-names [] seen r acceptable free new has = (r, refl, has)
    register_all-names (o ∷ os) seen r (acceptable, rest) (free, others) new has =
        elim (Bool-cases (is_named (joined_name fl o) seen)) [
          | inl old ↦ absurd (cc (sym (rw old at new)))
          | inr fresh ↦
              let (next, run, names) = is.takes o r acceptable (
                renamed o (reg.names r)
                ∙ ap (is_named (joined_name fl o)) has
                ∙ is_named-append (joined_name fl o) seen (reg.names reg.default) fresh free) in
              let (last, run', names') =
                register_all-names os (joined_name fl o ∷ seen) next rest others (rw fresh at new)
                  (names ∙ ap₂ ◌∷◌ (is.joins o) has) in
              (last, ap (λ (x : Outcome reg.R). x >>= register_all fl reg os) run ∙ run', names')
        ]

    -- If every metric of the program is acceptable in itself, and the registry has none of their names when the
    -- program starts, whatever else it has, it takes them all, with no panic, when main registers them one
    -- after the other: no two of them have the same name. Then it has their names, on top of those that
    -- it had.
    pub all_metrics-Registered :
        (c : CanaryConfig fl)
        → AllAcceptable (all_metrics fl c)
        → AllFree (all_metrics fl c)
        → (r : reg.R) × (register_all fl reg (all_metrics fl c) reg.default ≡ ok r)
          × (reg.names r ≡ joined_onto (all_metrics fl c) (reg.names reg.default))
    all_metrics-Registered c acceptable free =
        register_all-names (all_metrics fl c) [] reg.default acceptable free refl refl

  -- A list of metrics that are all taken can be cut in two anywhere.
  module _ (last : reg.R) where
    cut :
        (os later : List (Opts fl)) (end : Outcome reg.R)
        → ((r : reg.R)
            → register_all fl reg (os ++ later) r ≡ ok last
            → HoldsWith (λ m. register_all fl reg later m ≡ ok last) (register_all fl reg os r))
        → (end >>= register_all fl reg (os ++ later)) ≡ ok last
        → HoldsWith (λ m. register_all fl reg later m ≡ ok last) (end >>= register_all fl reg os)
    cut os later (ok r) each h = each r h
    cut os later (crash c) each h = absurd (cc h)

    pub register_all_cut :
        (os later : List (Opts fl)) (r : reg.R)
        → register_all fl reg (os ++ later) r ≡ ok last
        → HoldsWith (λ m. register_all fl reg later m ≡ ok last) (register_all fl reg os r)
    unfolding register_all
    register_all_cut [] later r h = (r, refl, h)
    register_all_cut (o ∷ os) later r h =
        cut os later (reg.register o r) (λ r'. register_all_cut os later r') h
