-- ===== src/Config/Pairs.antt =====
-- internal/config/canary_config.go: maps from text of the form "k1=v1;k2=v2".
use Prim.Native.String.{String}
use strimzi_canary.Common.{
  List, [], ◌∷◌, Option, none, some, if◌then◌else◌, Outcome, ok, crash, panicked, ◌>>=◌,
}
use strimzi_canary.Common.Maps.{insert, string_eq, str_eq}
use strimzi_canary.Common.Text.{split}

abbrev pub StringMap : Type 0
StringMap = List (String × String)

-- A pair has two fields, and a key that is not empty.
unfoldable pub put_fields : List String → StringMap → Outcome StringMap
put_fields [] m = crash panicked
put_fields (k ∷ []) m = crash panicked
put_fields (k ∷ v ∷ []) m = if str_eq k "" then crash panicked else ok (insert k v m)
put_fields (k ∷ v ∷ w ∷ ws) m = crash panicked

unfoldable pub put_pair : String → StringMap → Outcome StringMap
unfolding put_fields
put_pair pair m = put_fields (split pair b'=') m

-- The last pair may be empty.
unfoldable pub put_pairs : List String → StringMap → Outcome StringMap
unfolding put_pair
put_pairs [] m = ok m
put_pairs (p ∷ []) m = if str_eq p "" then ok m else put_pair p m
put_pairs (p ∷ q ∷ ps) m = put_pair p m >>= put_pairs (q ∷ ps)

-- The map of an empty text is nil, written `none`.
unfoldable pub convert_kv_pairs_to_map : String → Outcome (Option StringMap)
unfolding put_pairs
convert_kv_pairs_to_map text =
    if str_eq text "" then ok none else do m ← put_pairs (split text b';') []; ok (some m)

unfoldable pub copy_labels : StringMap → StringMap → StringMap
copy_labels [] labels = labels
copy_labels ((k, v) ∷ m) labels = copy_labels m (insert k v labels)

unfoldable pub convert_kv_pairs_to_prometheus_labels : String → Outcome (Option StringMap)
unfolding copy_labels convert_kv_pairs_to_map
convert_kv_pairs_to_prometheus_labels text = do
  m ← convert_kv_pairs_to_map text
  elim m [ none ↦ ok none | some pairs ↦ ok (some (copy_labels pairs [])) ]
