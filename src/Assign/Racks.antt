-- ===== src/Assign/Racks.antt =====
-- The grouping of the brokers by rack: each rack's brokers in order, under distinct names.
use strimzi_canary.Common.{
  ℕ, ◌+◌, ◌≡◌, ◌≢◌, refl, sym, ◌∙◌, append-nil, Bool, true, false, ◌||◌, List, [], ◌∷◌, ◌++◌, map,
  if◌then◌else◌, count, All, String, arith, ◌⊎◌, inl, inr, Bool-cases, append_assoc, count-append,
}
use strimzi_canary.Common.Maps.{lookup, insert, lookup-insert, string_eq}
use strimzi_canary.Assign.{
  Broker, Grouping, group, group_broker, with_entry, append_at, brokers_at, is_present, no_brokers,
  no_racks,
}
use strimzi_canary.Assign.Columns.{count_all}
use text.Mathlib.Text.{◌==◌ as str_eq}
use text.Mathlib.TextEquality.{eq_iff}
use text.Mathlib.TextPositions.{eq_refl}

-- the brokers of a rack
abbrev pub select : String → List Broker → List Broker
select name [] = []
select name (b ∷ bs) = if str_eq b.rack name then b ∷ select name bs else select name bs

abbrev pub contains : String → List String → Bool
contains name [] = false
contains name (x ∷ xs) = str_eq x name || contains name xs

abbrev pub Distinct : List String → Type 0
Distinct [] = Unit {0}
Distinct (x ∷ xs) = (contains x xs ≡ false) × Distinct xs

abbrev pub racked : List Broker → ℕ
racked = count (λ b. if str_eq b.rack "" then false else true)

-- What the grouping holds once it has seen the brokers `bs`.
pub record Groups (bs : List Broker) (g : Grouping) : Type 0 where
  pub at : (name : String) → name ≢ "" → brokers_at name g.rack_map ≡ select name bs
  pub entries : (name : String) → is_present (lookup name g.rack_map) ≡ contains name g.rack_names
  pub distinct : Distinct g.rack_names
  pub covered : All (λ b. (b.rack ≡ "") ⊎ (contains b.rack g.rack_names ≡ true)) bs
  pub named : All (λ name. name ≢ "") g.rack_names
  pub counted : g.with_rack ≡ racked bs

select-append :
    (name : String) (bs cs : List Broker)
    → select name (bs ++ cs) ≡ select name bs ++ select name cs
select-append name [] cs = refl
select-append name (b ∷ bs) cs = ground (arith, select-append name bs cs)

contains-append :
    (name : String) (xs ys : List String)
    → contains name (xs ++ ys) ≡ (contains name xs || contains name ys)
contains-append name [] ys = refl
contains-append name (x ∷ xs) ys = ground (arith, contains-append name xs ys)

Distinct-append :
    (x : String) (xs : List String) → Distinct xs → contains x xs ≡ false → Distinct (xs ++ x ∷ [])
Distinct-append x [] d h = (refl, tt)
Distinct-append x (y ∷ ys) d h =
    ground (arith, Distinct-append x ys d.1, contains-append y ys (x ∷ []), eq_iff x y, eq_iff y x)

All-append {ℓ κ} :
    {A : Type ℓ} (P : A → Type κ) (x : A) (xs : List A) → All P xs → P x → All P (xs ++ x ∷ [])
All-append P x [] h k = (k, tt)
All-append P x (y ∷ ys) h k = (h.0, All-append P x ys h.1 k)

All-imp {ℓ κ μ} :
    {A : Type ℓ} (P : A → Type κ) (Q : A → Type μ) (xs : List A)
    → ((x : A) → P x → Q x)
    → All P xs
    → All Q xs
All-imp P Q [] f h = tt
All-imp P Q (x ∷ xs) f h = (f x h.0, All-imp P Q xs f h.1)

-- an entry for a rack that the map lacks
new_entry-Groups :
    (bs : List Broker) (g : Grouping) (name : String)
    → name ≢ ""
    → Groups bs g
    → is_present (lookup name g.rack_map) ≡ false
    → Groups bs (record g {
      rack_map = insert name no_brokers g.rack_map;
      rack_names = g.rack_names ++ name ∷ [];
    })
new_entry-Groups bs g name ne h absent = record {
  at = λ x nx. rw lookup-insert (ground (arith, h.at x nx, eq_iff name x));
  entries = λ x.
      rw (lookup-insert, contains-append x g.rack_names (name ∷ []))
        (ground (arith, h.entries x, eq_iff name x));
  distinct = Distinct-append name g.rack_names h.distinct (sym (h.entries name) ∙ absent);
  covered =
      All-imp _ _ bs (λ b c. ground (arith, c, contains-append b.rack g.rack_names (name ∷ [])))
        h.covered;
  named = All-append _ name g.rack_names h.named ne;
  counted = h.counted;
}

with_entry-Groups :
    (bs : List Broker) (g : Grouping) (name : String)
    → name ≢ ""
    → Groups bs g
    → Groups bs (with_entry name g) × (contains name (with_entry name g).rack_names ≡ true)
unfolding with_entry
with_entry-Groups bs g name ne h = elim (Bool-cases (is_present (lookup name g.rack_map))) [
  | inl old ↦ rw old (h, sym (h.entries name) ∙ old)
  | inr new ↦ rw new (
    new_entry-Groups bs g name ne h new,
    rw (contains-append name g.rack_names (name ∷ [])) (ground (arith, eq_refl name)),
  )
]

append_at-Groups :
    (bs : List Broker) (g : Grouping) (b : Broker)
    → b.rack ≢ ""
    → Groups bs g
    → contains b.rack g.rack_names ≡ true
    → Groups (bs ++ b ∷ []) (append_at b g)
append_at-Groups bs g b ne h here = record {
  at = λ x nx.
      rw (lookup-insert, select-append x bs (b ∷ []))
        (ground (arith, h.at x nx, h.at b.rack ne, eq_iff b.rack x, append-nil (select x bs)));
  entries = λ x. rw lookup-insert (ground (arith, h.entries x, eq_iff b.rack x));
  distinct = h.distinct;
  covered = All-append _ b bs h.covered (inr here);
  named = h.named;
  counted = ground (
    arith,
    h.counted,
    count-append (λ c. if str_eq c.rack "" then false else true) bs (b ∷ []),
    eq_iff b.rack "",
  );
}

unracked-Groups :
    (bs : List Broker) (g : Grouping) (b : Broker)
    → b.rack ≡ ""
    → Groups bs g
    → Groups (bs ++ b ∷ []) g
unracked-Groups bs g b e h = record {
  at = λ x nx.
      rw (select-append x bs (b ∷ []))
        (ground (arith, h.at x nx, eq_iff b.rack x, append-nil (select x bs)));
  entries = h.entries;
  distinct = h.distinct;
  covered = All-append _ b bs h.covered (inl e);
  named = h.named;
  counted = ground (
    arith,
    h.counted,
    count-append (λ c. if str_eq c.rack "" then false else true) bs (b ∷ []),
    eq_iff b.rack "",
  );
}

group_broker-Groups :
    (bs : List Broker) (g : Grouping) (b : Broker)
    → Groups bs g
    → Groups (bs ++ b ∷ []) (group_broker g b)
unfolding group_broker
group_broker-Groups bs g b h = elim (Bool-cases (str_eq b.rack "")) [
  | inl e ↦ rw e (unracked-Groups bs g b ((eq_iff b.rack "").0 e) h)
  | inr e ↦
      let ne : b.rack ≢ "" = λ q. ground (arith, eq_iff b.rack "") in
      let (h', here) = with_entry-Groups bs g b.rack ne h in
      rw e (append_at-Groups bs (with_entry b.rack g) b ne h' here)
]

group-Groups : (bs cs : List Broker) (g : Grouping) → Groups bs g → Groups (bs ++ cs) (group g cs)
unfolding group
group-Groups bs [] g h = rw append-nil h
group-Groups bs (c ∷ cs) g h =
    rw (append_assoc bs (c ∷ []) cs) at
      (group-Groups (bs ++ c ∷ []) cs (group_broker g c) (group_broker-Groups bs g c h))

-- The grouping holds every rack's brokers.
pub no_racks-Groups : (bs : List Broker) → Groups bs (group no_racks bs)
unfolding lookup
no_racks-Groups bs = group-Groups [] bs no_racks (record {
  at = λ x nx. refl;
  entries = λ x. refl;
  distinct = tt;
  covered = tt;
  named = tt;
  counted = refl;
})

abbrev pub selections : List String → List Broker → List (List Broker)
selections names bs = map (λ name. select name bs) names

-- A broker whose rack is not among the names adds nothing, and else it adds itself once.
count-selections_absent :
    (p : Broker → Bool) (names : List String) (b : Broker) (bs : List Broker)
    → contains b.rack names ≡ false
    → count_all p (selections names (b ∷ bs)) ≡ count_all p (selections names bs)
count-selections_absent p [] b bs h = refl
count-selections_absent p (x ∷ xs) b bs h =
    ground (arith, count-selections_absent p xs b bs, eq_iff b.rack x, eq_iff x b.rack)

count-selections_present :
    (p : Broker → Bool) (names : List String) (b : Broker) (bs : List Broker)
    → Distinct names
    → contains b.rack names ≡ true
    → count_all p (selections names (b ∷ bs)) ≡ count p (b ∷ []) + count_all p (selections names bs)
count-selections_present p [] b bs d h = absurd (cc)
count-selections_present p (x ∷ xs) b bs d h = ground (
  arith,
  count-selections_absent p xs b bs,
  count-selections_present p xs b bs d.1,
  eq_iff b.rack x,
  eq_iff x b.rack,
)

count-selections_none :
    (p : Broker → Bool) (names : List String) → count_all p (selections names []) ≡ 0
count-selections_none p [] = refl
count-selections_none p (x ∷ xs) = omega (arith, count-selections_none p xs)

-- Brokers whose racks are all among the names are counted once each.
pub count-selections :
    (p : Broker → Bool) (names : List String) (bs : List Broker)
    → Distinct names
    → All (λ b. contains b.rack names ≡ true) bs
    → count_all p (selections names bs) ≡ count p bs
count-selections p names [] d h = count-selections_none p names
count-selections p names (b ∷ bs) d h =
    omega (arith, count-selections_present p names b bs d h.0, count-selections p names bs d h.1)
