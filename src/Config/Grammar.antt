-- ===== src/Config/Grammar.antt =====
-- The text of key-value pairs: what is accepted, and which map it gives.
use Prim.Native.String
use Prim.Native.String.{String}
use strimzi_canary.Common.{
  ℕ, ◌≡◌, ◌≢◌, refl, sym, ap, ◌∙◌, inl, inr, false, List, [], ◌∷◌, ◌++◌, map, some, All, Bool-cases,
  ok,
}
use mathlib.Core.List.{cons-ne-nil}
use text.Mathlib.TextLemmas.{nil-append, cons-append, cons≢nil}
use strimzi_canary.Common.Maps.{insert, string_eq, str_eq}
use strimzi_canary.Common.Text.{split, join, Lacks, split-Lacks, split-append, split-join}
use strimzi_canary.Config.Pairs.{StringMap, put_pair, put_pairs, convert_kv_pairs_to_map}

abbrev pub print_pair : String × String → String
print_pair (k, v) = String.◌++◌ k (String.◌∷◌ "=" v)

-- "k1=v1;k2=v2", and the same with a semicolon at the end
abbrev pub print_pairs : StringMap → String
print_pairs ps = join (map print_pair ps) ";"

abbrev pub print_terminated : StringMap → String
print_terminated ps = join (map print_pair ps ++ "" ∷ []) ";"

-- a key that is not empty, and no separator in the key or the value
pub record IsPair (kv : String × String) : Type 0 where
  pub key : kv.0 ≢ ""
  pub plain_key : Lacks b'=' kv.0
  pub plain_value : Lacks b'=' kv.1
  pub whole_key : Lacks b';' kv.0
  pub whole_value : Lacks b';' kv.1

-- the writes of the pairs in their order, so that the last value of a key stays
abbrev pub insert_all : StringMap → StringMap → StringMap
insert_all [] m = m
insert_all ((k, v) ∷ ps) m = insert_all ps (insert k v m)

Lacks-append : (c : ℕ) (s t : String) → Lacks c s → Lacks c t → Lacks c (String.◌++◌ s t)
Lacks-append c String.[] t h k = rw nil-append k
Lacks-append c (String.◌∷◌ d s) t (h, hs) k = rw cons-append (h, Lacks-append c s t hs k)

pub append-Lacks : (c : ℕ) (s t : String) → Lacks c (String.◌++◌ s t) → Lacks c s × Lacks c t
append-Lacks c String.[] t h = (tt, rw nil-append at h)
append-Lacks c (String.◌∷◌ d s) t h =
    let (hd, hs) = rw cons-append at h in
    let (left, right) = append-Lacks c s t hs in ((hd, left), right)

print_pair-Lacks : (kv : String × String) → IsPair kv → Lacks b';' (print_pair kv)
print_pair-Lacks (k, v) p = Lacks-append b';' k (String.◌∷◌ "=" v) p.whole_key (refl, p.whole_value)

map-Lacks : (ps : StringMap) → All IsPair ps → All (Lacks b';') (map print_pair ps)
map-Lacks [] h = tt
map-Lacks (kv ∷ ps) (h, hs) = (print_pair-Lacks kv h, map-Lacks ps hs)

terminated-Lacks :
    (ps : StringMap) → All IsPair ps → All (Lacks b';') (map print_pair ps ++ "" ∷ [])
terminated-Lacks [] h = (tt, tt)
terminated-Lacks (kv ∷ ps) (h, hs) = (print_pair-Lacks kv h, terminated-Lacks ps hs)

not_empty : (s : String) → s ≢ "" → str_eq s "" ≡ false
not_empty s h = elim (Bool-cases (str_eq s "")) [
  | inl same ↦ absurd (h ((string_eq.beq_iff s "").0 same))
  | inr other ↦ other
]

print_pair-ne : (kv : String × String) → IsPair kv → print_pair kv ≢ ""
print_pair-ne (String.[], v) p e = absurd (p.key refl)
print_pair-ne (String.◌∷◌ c k, v) p e = cons≢nil (sym (cons-append c k (String.◌∷◌ "=" v)) ∙ e)

put_pair-print_pair :
    (k v : String) (m : StringMap)
    → IsPair (k, v)
    → put_pair (print_pair (k, v)) m ≡ ok (insert k v m)
unfolding put_pair
put_pair-print_pair k v m p =
    rw (split-append k v "=" p.plain_key, split-Lacks v b'=' p.plain_value, not_empty k p.key) refl

put_pairs-map :
    (ps : StringMap) (m : StringMap)
    → All IsPair ps
    → put_pairs (map print_pair ps) m ≡ ok (insert_all ps m)
unfolding put_pairs
put_pairs-map [] m h = refl
put_pairs-map ((k, v) ∷ []) m (p, hs) =
    rw (not_empty (print_pair (k, v)) (print_pair-ne (k, v) p)) (put_pair-print_pair k v m p)
put_pairs-map ((k, v) ∷ q ∷ ps) m (p, hs) =
    rw (put_pair-print_pair k v m p) (put_pairs-map (q ∷ ps) (insert k v m) hs)

print_pairs-ne :
    (texts : List String)
    → texts ≢ []
    → All (Lacks b';') texts
    → texts ≢ "" ∷ []
    → join texts ";" ≢ ""
print_pairs-ne texts h hs other e =
    other (
      sym (split-join texts ";" h hs)
      ∙ ap (λ (t : String). split t b';') e
      ∙ split-Lacks "" b';' tt)

put_pairs-terminated :
    (ps : StringMap) (m : StringMap)
    → All IsPair ps
    → put_pairs (map print_pair ps ++ "" ∷ []) m ≡ ok (insert_all ps m)
unfolding put_pairs
put_pairs-terminated [] m h = refl
put_pairs-terminated ((k, v) ∷ []) m (p, hs) =
    rw (put_pair-print_pair k v m p) (put_pairs-terminated [] (insert k v m) tt)
put_pairs-terminated ((k, v) ∷ q ∷ ps) m (p, hs) =
    rw (put_pair-print_pair k v m p) (put_pairs-terminated (q ∷ ps) (insert k v m) hs)

convert-join :
    (texts : List String) (m : StringMap)
    → texts ≢ []
    → texts ≢ "" ∷ []
    → All (Lacks b';') texts
    → put_pairs texts [] ≡ ok m
    → convert_kv_pairs_to_map (join texts ";") ≡ ok (some m)
unfolding convert_kv_pairs_to_map
convert-join texts m h other hs run =
    rw
      (not_empty (join texts ";") (print_pairs-ne texts h hs other), split-join texts ";" h hs, run)
      refl

-- Every text of one or more pairs, with a semicolon at its end or not, is read as the map of the pairs, in
-- which a later value of a key replaces the one before it.
pub convert_kv_pairs_to_map-print_pairs :
    (ps : StringMap)
    → ps ≢ []
    → All IsPair ps
    → (convert_kv_pairs_to_map (print_pairs ps) ≡ ok (some (insert_all ps [])))
      × (convert_kv_pairs_to_map (print_terminated ps) ≡ ok (some (insert_all ps [])))
convert_kv_pairs_to_map-print_pairs [] h hs = absurd (h refl)
convert_kv_pairs_to_map-print_pairs (kv ∷ ps) h (p, hs) = (
  convert-join (map print_pair (kv ∷ ps)) _ (cons-ne-nil _ _) (λ e. print_pair-ne kv p (ap first e))
      (map-Lacks (kv ∷ ps) (p, hs)) (put_pairs-map (kv ∷ ps) [] (p, hs)),
  convert-join (map print_pair (kv ∷ ps) ++ "" ∷ []) _ (cons-ne-nil _ _)
      (λ e. print_pair-ne kv p (ap first e)) (terminated-Lacks (kv ∷ ps) (p, hs))
      (put_pairs-terminated (kv ∷ ps) [] (p, hs)),
)
  where
    first : List String → String
    first [] = ""
    first (t ∷ ts) = t
