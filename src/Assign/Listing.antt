-- ===== src/Assign/Listing.antt =====
-- internal/services/topic.go, requestedAssignments: the order in which the cluster lists its brokers.
use strimzi_canary.Common.{
  ℕ, ◌≤◌, ◌≡◌, refl, sym, ap, ◌∙◌, Bool, List, [], ◌∷◌, length, count, All, ◌==◌, ==_iff, arith,
  String, Bool-cases, inl, inr,
}
use mathlib.Core.HLevel.{hedberg}
use mathlib.Core.Logic.{∥∥₁_elim}
use text.Mathlib.Text.{◌==◌ as str_eq}
use text.Mathlib.TextEquality.{eq_iff}
use mathlib.Core.List.{Perm, Permᴰ}
use strimzi_canary.Assign.{Broker, insert_by_id, sort_by_id, requested_assignments}
use strimzi_canary.Assign.Sort.{IsSorted, length-sort_by_id}
use strimzi_canary.Assign.Replicas.{DistinctIds}

insert_by_id_comm :
    (a b : Broker) (cs : List Broker)
    → (a.id ≡ b.id → a ≡ b)
    → insert_by_id a (insert_by_id b cs) ≡ insert_by_id b (insert_by_id a cs)
unfolding insert_by_id
insert_by_id_comm a b [] same = ground (arith, same)
insert_by_id_comm a b (c ∷ cs) same = ground (arith, same, insert_by_id_comm a b cs same)

-- A sorted list is left as it is.
insert_below :
    (b : Broker) (cs : List Broker) → All (λ c. b.id ≤ c.id) cs → insert_by_id b cs ≡ b ∷ cs
unfolding insert_by_id
insert_below b [] h = refl
insert_below b (c ∷ cs) h = ground (arith, h.0)

sort_by_id-IsSorted_eq : (bs : List Broker) → IsSorted bs → sort_by_id bs ≡ bs
unfolding sort_by_id
sort_by_id-IsSorted_eq [] s = refl
sort_by_id-IsSorted_eq (b ∷ bs) s =
    ap (insert_by_id b) (sort_by_id-IsSorted_eq bs s.1) ∙ insert_below b bs s.0

count-Permᴰ : (p : Broker → Bool) {bs cs : List Broker} → Permᴰ bs cs → count p bs ≡ count p cs
count-Permᴰ p Permᴰ.nil = refl
count-Permᴰ p (Permᴰ.cons e d) = rw (ap p e, count-Permᴰ p d) refl
count-Permᴰ p (Permᴰ.swap e f) = rw (ap p e, ap p f) (omega arith)
count-Permᴰ p (Permᴰ.trans d e) = count-Permᴰ p d ∙ count-Permᴰ p e

DistinctIds-tail : (b : Broker) (bs : List Broker) → DistinctIds (b ∷ bs) → DistinctIds bs
DistinctIds-tail b bs h x = omega (arith, h x)

heads_ne : (a b : Broker) (bs : List Broker) → DistinctIds (a ∷ b ∷ bs) → a.id ≡ b.id → a ≡ b
heads_ne a b bs h e = absurd (ground (arith, h b.id, ==_iff a.id b.id, ==_iff b.id b.id))

sort_by_id-Permᴰ :
    {bs cs : List Broker} → DistinctIds bs → Permᴰ bs cs → sort_by_id bs ≡ sort_by_id cs
unfolding sort_by_id
sort_by_id-Permᴰ h Permᴰ.nil = refl
sort_by_id-Permᴰ h (Permᴰ.cons {a = a} {l₁ = l} e d) =
    rw (e, sort_by_id-Permᴰ (DistinctIds-tail a l h) d) refl
sort_by_id-Permᴰ h (Permᴰ.swap {a = a} {b = b} {l = l} e f) =
    insert_by_id_comm a b (sort_by_id l) (heads_ne a b l h) ∙ rw (e, f) refl
sort_by_id-Permᴰ h (Permᴰ.trans d e) =
    sort_by_id-Permᴰ h d ∙ sort_by_id-Permᴰ (λ x. rw (sym (count-Permᴰ (λ b. b.id == x) d)) (h x)) e

String-discrete : Discrete String
String-discrete s t = elim (Bool-cases (str_eq s t)) [
  | inl same ↦ yes ((eq_iff s t).0 same)
  | inr other ↦ no (λ e. cc (sym other ∙ (eq_iff s t).1 e))
]

String-set : IsSet String
String-set = hedberg String-discrete

Brokers-set : IsSet (List Broker)
Brokers-set = hlevel (String-set)

pub sort_by_id-Perm :
    {bs cs : List Broker} → DistinctIds bs → Perm bs cs → sort_by_id bs ≡ sort_by_id cs
sort_by_id-Perm h p = ∥∥₁_elim p (Brokers-set _ _) (sort_by_id-Permᴰ h)

-- Brokers with distinct ids, in two orders: a list of them that is sorted by id is what the sort gives, and the
-- requested assignments and the min.insync.replicas are the same.
pub requested_assignments-Perm :
    (current_partitions : ℕ) (bs cs : List Broker)
    → DistinctIds bs
    → Perm bs cs
    → (IsSorted cs → sort_by_id bs ≡ cs)
      × (requested_assignments current_partitions bs ≡ requested_assignments current_partitions cs)
unfolding requested_assignments
requested_assignments-Perm n bs cs h p =
    let sorted = sort_by_id-Perm h p in
    let len : length bs ≡ length cs =
      sym (length-sort_by_id bs) ∙ ap length sorted ∙ length-sort_by_id cs in
    (λ s. sorted ∙ sort_by_id-IsSorted_eq cs s, rw (sorted, len) refl)
