-- ===== src/Config/Accepts.antt =====
-- The text of key-value pairs: nothing else is accepted.
use Prim.Native.String.{String}
use strimzi_canary.Common.{
  ◌≡◌, ◌≢◌, refl, sym, ap, ap₂, ◌∙◌, ◌⊎◌, inl, inr, true, false, Option, none, List, [], ◌∷◌, ◌++◌,
  map, some, All, Bool-cases, Outcome, ok, crash, panicked, ◌>>=◌,
}
use mathlib.Core.Path.{subst}
use strimzi_canary.Common.Maps.{insert, string_eq, str_eq}
use strimzi_canary.Common.Text.{split, join, Lacks, join-split, split-All-Lacks}
use strimzi_canary.Config.Pairs.{
  StringMap, put_fields, put_pair, put_pairs, convert_kv_pairs_to_map,
}
use strimzi_canary.Config.Grammar.{
  print_pair, print_pairs, print_terminated, IsPair, insert_all, append-Lacks,
  convert_kv_pairs_to_map-print_pairs,
}

-- a write of one pair
record Writes (m m' : StringMap) (k v : String) : Type 0 where
  key : k ≢ ""
  put : m' ≡ insert k v m

put_fields-ok :
    (fields : List String) (m m' : StringMap)
    → put_fields fields m ≡ ok m'
    → (k : String) × (v : String) × (fields ≡ k ∷ v ∷ []) × Writes m m' k v
unfolding put_fields
put_fields-ok [] m m' h = absurd (cc h)
put_fields-ok (k ∷ []) m m' h = absurd (cc h)
put_fields-ok (k ∷ v ∷ []) m m' h = elim (Bool-cases (str_eq k "")) [
  | inl empty ↦ absurd (cc (rw empty at h))
  | inr other ↦ (
    k,
    v,
    refl,
    record { key = λ e. cc (other, (string_eq.beq_iff k "").1 e); put = cc (rw other at h) },
  )
]
put_fields-ok (k ∷ v ∷ w ∷ ws) m m' h = absurd (cc h)

-- `p` is the text of a pair, and its write gives the map.
record WritesPair (p : String) (m m' : StringMap) (kv : String × String) : Type 0 where
  pair : IsPair kv
  text : p ≡ print_pair kv
  map_is : m' ≡ insert kv.0 kv.1 m

put_pair-ok :
    (p : String) (m m' : StringMap)
    → Lacks b';' p
    → put_pair p m ≡ ok m'
    → (kv : String × String) × WritesPair p m m' kv
unfolding put_pair join
put_pair-ok p m m' whole h =
    let (k, v, fields, put) = put_fields-ok (split p b'=') m m' h in
    let text : p ≡ print_pair (k, v) =
      sym (join-split p "=") ∙ ap (λ (l : List String). join l "=") fields in
    let (plain_key, (plain_value, end)) = rw fields at (split-All-Lacks p b'=') in
    let (whole_key, (semicolon, whole_value)) =
      append-Lacks b';' k (String.◌∷◌ "=" v) (rw text at whole) in
    (
      (k, v),
      record {
        pair = record {
          key = put.key;
          plain_key = plain_key;
          plain_value = plain_value;
          whole_key = whole_key;
          whole_value = whole_value;
        };
        text = text;
        map_is = put.put;
      },
    )

-- the texts of the pairs, of which an empty text may be the last
record WritesAll (texts : List String) (m m' : StringMap) (ps : StringMap) : Type 0 where
  pairs : All IsPair ps
  spelled : (texts ≡ map print_pair ps) ⊎ (texts ≡ map print_pair ps ++ "" ∷ [])
  map_is : m' ≡ insert_all ps m

put_pairs-ok :
    (texts : List String) (m m' : StringMap)
    → All (Lacks b';') texts
    → put_pairs texts m ≡ ok m'
    → (ps : StringMap) × WritesAll texts m m' ps
unfolding put_pairs
put_pairs-ok [] m m' whole h = ([], record { pairs = tt; spelled = inl refl; map_is = cc h })
put_pairs-ok (p ∷ []) m m' (whole, end) h = elim (Bool-cases (str_eq p "")) [
  | inl empty ↦ (
    [],
    record {
      pairs = tt;
      spelled = inr (ap (λ (t : String). t ∷ []) ((string_eq.beq_iff p "").0 empty));
      map_is = cc (rw empty at h);
    },
  )
  | inr other ↦
      let (kv, put) = put_pair-ok p m m' whole (rw other at h) in
      (
        kv ∷ [],
        record {
          pairs = (put.pair, tt);
          spelled = inl (ap (λ (t : String). t ∷ []) put.text);
          map_is = put.map_is;
        },
      )
]
put_pairs-ok (p ∷ q ∷ ts) m m' (whole, rest) h =
    let (m₁, first, run) = bound (put_pair p m) h in
    let (kv, put) = put_pair-ok p m m₁ whole first in
    let (ps, more) = put_pairs-ok (q ∷ ts) m₁ m' rest run in
    (
      kv ∷ ps,
      record {
        pairs = (put.pair, more.pairs);
        spelled = grown p kv ps put.text more.spelled;
        map_is = more.map_is ∙ ap (insert_all ps) put.map_is;
      },
    )
  where
    bound :
        (o : Outcome StringMap)
        → (o >>= put_pairs (q ∷ ts)) ≡ ok m'
        → (a : StringMap) × (o ≡ ok a) × (put_pairs (q ∷ ts) a ≡ ok m')
    bound (ok a) h = (a, refl, h)
    bound (crash c) h = absurd (cc h)

    grown :
        (p : String) (kv : String × String) (ps : StringMap)
        → p ≡ print_pair kv
        → (q ∷ ts ≡ map print_pair ps) ⊎ (q ∷ ts ≡ map print_pair ps ++ "" ∷ [])
        → (p ∷ q ∷ ts ≡ map print_pair (kv ∷ ps))
          ⊎ (p ∷ q ∷ ts ≡ map print_pair (kv ∷ ps) ++ "" ∷ [])
    grown p kv ps e (inl l) = inl (ap₂ (λ (t : String) (ts : List String). t ∷ ts) e l)
    grown p kv ps e (inr r) = inr (ap₂ (λ (t : String) (ts : List String). t ∷ ts) e r)

-- the text of one or more pairs, and its map
pub record Reads (text : String) (m : StringMap) (ps : StringMap) : Type 0 where
  pub pairs : All IsPair ps
  pub some_pair : ps ≢ []
  pub spelled : (text ≡ print_pairs ps) ⊎ (text ≡ print_terminated ps)
  pub map_is : m ≡ insert_all ps []

put_pairs-Reads :
    (text : String) (m ps : StringMap)
    → str_eq text "" ≡ false
    → WritesAll (split text b';') [] m ps
    → Reads text m ps
unfolding join
put_pairs-Reads text m ps other put = record {
  pairs = put.pairs;
  some_pair = λ e. not_none (texts put.spelled) e;
  spelled = texts put.spelled;
  map_is = put.map_is;
}
  where
    texts :
        ((split text b';' ≡ map print_pair ps) ⊎ (split text b';' ≡ map print_pair ps ++ "" ∷ []))
        → (text ≡ print_pairs ps) ⊎ (text ≡ print_terminated ps)
    texts (inl l) = inl (sym (join-split text ";") ∙ ap (λ (ts : List String). join ts ";") l)
    texts (inr r) = inr (sym (join-split text ";") ∙ ap (λ (ts : List String). join ts ";") r)

    not_none : (text ≡ print_pairs ps) ⊎ (text ≡ print_terminated ps) → ps ≡ [] → ⊥
    not_none (inl l) e = cc (other, (string_eq.beq_iff text "").1 (l ∙ ap print_pairs e))
    not_none (inr r) e = cc (other, (string_eq.beq_iff text "").1 (r ∙ ap print_terminated e))

-- A text that gives a map is one or more pairs, and its map is theirs.
given-Reads :
    (text : String) (m : StringMap)
    → convert_kv_pairs_to_map text ≡ ok (some m)
    → (ps : StringMap) × Reads text m ps
unfolding convert_kv_pairs_to_map
given-Reads text m h = elim (Bool-cases (str_eq text "")) [
  | inl empty ↦ absurd (cc (rw empty at h))
  | inr other ↦
      let (ps, put) =
        put_pairs-ok (split text b';') [] m (split-All-Lacks text b';')
          (filled (put_pairs (split text b';') []) (rw other at h)) in
      (ps, put_pairs-Reads text m ps other put)
]
  where
    filled : (o : Outcome StringMap) → (o >>= λ a. ok (some a)) ≡ ok (some m) → o ≡ ok m
    filled (ok a) h = cc h
    filled (crash c) h = absurd (cc h)

-- a text of pairs that makes the program end
spelled-given :
    (ps : StringMap) (text : String)
    → All IsPair ps
    → ps ≢ []
    → (text ≡ print_pairs ps) ⊎ (text ≡ print_terminated ps)
    → convert_kv_pairs_to_map text ≡ ok (some (insert_all ps []))
spelled-given ps text pairs some_pair (inl e) =
    ap convert_kv_pairs_to_map e ∙ (convert_kv_pairs_to_map-print_pairs ps some_pair pairs).0
spelled-given ps text pairs some_pair (inr e) =
    ap convert_kv_pairs_to_map e ∙ (convert_kv_pairs_to_map-print_pairs ps some_pair pairs).1

-- What becomes of a text that is not empty: a map, which is that of its pairs, or a panic, and then it is no text
-- of pairs.
abbrev pub ReadsOrPanics : String → Outcome (Option StringMap) → Type 0
ReadsOrPanics text (ok (some m)) = (ps : StringMap) × Reads text m ps
ReadsOrPanics text (ok none) = ⊥
ReadsOrPanics text (crash c) =
    (c ≡ panicked)
    × ((ps : StringMap)
        → All IsPair ps
        → ps ≢ []
        → (text ≡ print_pairs ps) ⊎ (text ≡ print_terminated ps)
        → ⊥)

-- no end of the program but by a panic
abbrev Panics : {A : Type 0} → Outcome A → Type 0
Panics (ok a) = Unit {0}
Panics (crash c) = c ≡ panicked

put_fields-Panics : (fields : List String) (m : StringMap) → Panics (put_fields fields m)
unfolding put_fields
put_fields-Panics [] m = refl
put_fields-Panics (k ∷ []) m = refl
put_fields-Panics (k ∷ v ∷ []) m = elim (Bool-cases (str_eq k "")) [
  | inl empty ↦ rw empty refl
  | inr other ↦ rw other tt
]
put_fields-Panics (k ∷ v ∷ w ∷ ws) m = refl

then_Panics :
    (o : Outcome StringMap) (f : StringMap → Outcome StringMap)
    → Panics o
    → ((a : StringMap) → Panics (f a))
    → Panics (o >>= f)
then_Panics (ok a) f h k = k a
then_Panics (crash c) f h k = h

put_pairs-Panics : (texts : List String) (m : StringMap) → Panics (put_pairs texts m)
unfolding put_pairs put_pair
put_pairs-Panics [] m = tt
put_pairs-Panics (p ∷ []) m = elim (Bool-cases (str_eq p "")) [
  | inl empty ↦ rw empty tt
  | inr other ↦ rw other (put_fields-Panics (split p b'=') m)
]
put_pairs-Panics (p ∷ q ∷ ts) m =
    then_Panics (put_fields (split p b'=') m) (put_pairs (q ∷ ts))
      (put_fields-Panics (split p b'=') m) (λ a. put_pairs-Panics (q ∷ ts) a)

of_empty : (text : String) → str_eq text "" ≡ true → convert_kv_pairs_to_map text ≡ ok none
unfolding convert_kv_pairs_to_map
of_empty text h = rw h refl

of_other :
    (text : String)
    → str_eq text "" ≡ false
    → convert_kv_pairs_to_map text ≡ (put_pairs (split text b';') [] >>= λ m. ok (some m))
unfolding convert_kv_pairs_to_map
of_other text h = rw h refl

of_run :
    (text : String) (run : Outcome StringMap)
    → Panics run
    → convert_kv_pairs_to_map text ≡ (run >>= λ m. ok (some m))
    → ReadsOrPanics text (run >>= λ m. ok (some m))
of_run text (ok m) panics e = given-Reads text m e
of_run text (crash c) panics e = (
  panics,
  λ ps pairs some_pair spelled. cc (sym e ∙ spelled-given ps text pairs some_pair spelled),
)

-- A text that is not empty either gives a map, and then it is one or more pairs, with a semicolon at its end or
-- not, and the map is that of the pairs; or it panics, and then it is no such text. The empty text
-- gives nil.
pub convert_kv_pairs_to_map-Reads :
    (text : String)
    → ((text ≢ "") × ReadsOrPanics text (convert_kv_pairs_to_map text))
      ⊎ ((text ≡ "") × (convert_kv_pairs_to_map text ≡ ok none))
convert_kv_pairs_to_map-Reads text = elim (Bool-cases (str_eq text "")) [
  | inl empty ↦ inr ((string_eq.beq_iff text "").0 empty, of_empty text empty)
  | inr other ↦ inl (
    λ e. cc (other, (string_eq.beq_iff text "").1 e),
    subst (ReadsOrPanics text) (sym (of_other text other)) (
        of_run text (put_pairs (split text b';') []) (put_pairs-Panics (split text b';') [])
          (of_other text other)),
  )
]
