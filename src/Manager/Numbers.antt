-- ===== src/Manager/Numbers.antt =====
-- The messages that a part of the program sends, by their numbers.
use strimzi_canary.Common.{
  ℕ, zero, suc, ◌+◌, ◌%◌, ◌^◌, ◌<◌, ◌≡◌, refl, sym, ap, ap₂, ◌∙◌, List, [], ◌∷◌, ◌++◌, map, length,
  get_elem?, some, String, arith,
}
use mathlib.Core.List.{map-append}
use native.Mathlib.Nat.{zero-add, suc-add}
use strimzi_canary.Common.Int.{ℤ, inc64}
use strimzi_canary.Assign.{Assignments}
use strimzi_canary.Producer.{ProducerService, CanaryMessage}
use strimzi_canary.Producer
use strimzi_canary.Producer.Sent.{messages, advance, send-Numbered}
use strimzi_canary.Manager.{Event}
use strimzi_canary.Manager.Events.{of_producer, of_producer-append}

-- the `n` numbers after one
abbrev pub consecutive : ℕ → ℤ → List ℤ
consecutive zero x = []
consecutive (suc n) x = inc64 x ∷ consecutive n (inc64 x)

abbrev number : ℕ × CanaryMessage → ℤ
number (i, cm) = cm.message_id

-- the numbers of the messages that are sent
abbrev pub numbers : List Event → List ℤ
numbers es = map number (messages (of_producer es))

pub numbered :
    (n : ℕ) (x : ℤ) (ms : List (ℕ × CanaryMessage))
    → length ms ≡ n
    → ((j : ℕ)
        → j < n
        → (i : ℕ) × (cm : CanaryMessage) × (get_elem? ms j ≡ some (i, cm))
          × (cm.message_id ≡ advance (suc j) x))
    → map number ms ≡ consecutive n x
numbered zero x [] total each = refl
numbered zero x (m ∷ ms) total each = absurd (omega (arith, total))
numbered (suc n) x [] total each = absurd (omega (arith, total))
numbered (suc n) x (m ∷ ms) total each =
    let (i, cm, at, id) = each 0 (omega arith) in
    let here : m ≡ (i, cm) = cc at in
    ap₂ (λ (a : ℤ) (l : List ℤ). a ∷ l) (ap number here ∙ id)
      (numbered n (inc64 x) ms (omega (arith, total)) (λ j h. each (suc j) (omega arith)))

consecutive-append :
    (m n : ℕ) (x : ℤ) → consecutive (m + n) x ≡ consecutive m x ++ consecutive n (advance m x)
consecutive-append zero n x = rw zero-add refl
consecutive-append (suc m) n x =
    rw suc-add (ap (λ (l : List ℤ). inc64 x ∷ l) (consecutive-append m n (inc64 x)))

advance-advance : (m n : ℕ) (x : ℤ) → advance (m + n) x ≡ advance n (advance m x)
advance-advance zero n x = rw zero-add refl
advance-advance (suc m) n x = rw suc-add (advance-advance m n (inc64 x))

pub messages-append :
    (xs ys : List Producer.Event) → messages (xs ++ ys) ≡ messages xs ++ messages ys
messages-append [] ys = refl
messages-append (Producer.send_message i cm ∷ xs) ys =
    ap (λ (l : List (ℕ × CanaryMessage)). (i, cm) ∷ l) (messages-append xs ys)
messages-append (e ∷ xs) ys = messages-append xs ys

numbers-append : (xs ys : List Event) → numbers (xs ++ ys) ≡ numbers xs ++ numbers ys
numbers-append xs ys = rw (of_producer-append, messages-append, map-append) refl

-- Events among which `total` messages are sent, from one state of the producer to another: their numbers go on from
-- its index, which is then that of the last of them, and the counter of the records produced goes up by
-- their number, modulo 2^64.
pub record Adds (ps : ProducerService) (t : List Event) (ps' : ProducerService) : Type 0 where
  pub total : ℕ
  pub sent : numbers t ≡ consecutive total ps.index
  pub indexed : ps'.index ≡ advance total ps.index
  pub counted : ps'.records_produced ≡ (ps.records_produced + total) % 2 ^ 64

pub Adds-nothing :
    (ps : ProducerService) (t : List Event)
    → ps.records_produced < 2 ^ 64
    → messages (of_producer t) ≡ []
    → Adds ps t ps
Adds-nothing ps t h quiet = record {
  total = 0;
  sent = ap (map number) quiet;
  indexed = refl;
  counted = omega arith;
}

pub Adds-append :
    (ps mid last : ProducerService) (t u : List Event)
    → Adds ps t mid
    → Adds mid u last
    → Adds ps (t ++ u) last
Adds-append ps mid last t u a b = record {
  total = a.total + b.total;
  sent =
      numbers-append t u
      ∙ ap₂ (λ (l m : List ℤ). l ++ m) a.sent (b.sent ∙ ap (consecutive b.total) a.indexed)
      ∙ sym (consecutive-append a.total b.total ps.index);
  indexed =
      b.indexed ∙ ap (advance b.total) a.indexed ∙ sym (advance-advance a.total b.total ps.index);
  counted = omega (arith, a.counted, b.counted);
}

pub Adds-small :
    (ps last : ProducerService) (t : List Event) → Adds ps t last → last.records_produced < 2 ^ 64
Adds-small ps last t a = omega (arith, a.counted)

-- A Send, with events around it that send nothing.
pub Adds-send :
    (E : Type 0) (client_id : String) (ans : Producer.Answers E client_id) (m : Assignments)
    (ps : ProducerService) (t : List Event)
    → ps.records_produced < 2 ^ 64
    → messages (of_producer t) ≡ messages (Producer.send E client_id ans m ps).0
    → Adds ps t (Producer.send E client_id ans m ps).1
Adds-send E client_id ans m ps t h same =
    let (sent, indexed, counted) = send-Numbered E client_id ans m ps h in
    record {
      total = length m;
      sent =
          ap (map number) same
          ∙ numbered (length m) ps.index (messages (Producer.send E client_id ans m ps).0)
              sent.total λ j l. (0 + j, _, sent.each j l, refl);
      indexed = indexed;
      counted = counted;
    }
