-- ===== src/Loop/Quiet.antt =====
-- What is true of a loop at every moment, and that it is quiet once Close has returned.
use strimzi_canary.Common.{ℕ, suc, ◌≤◌, ◌≡◌, ◌≢◌, refl, sym, ◌∙◌, arith}
use mathlib.Core.Path.{subst}
use strimzi_canary.Loop.{
  Channel, unmade, opened, closed, Caller, free, waiting, Looped, LoopStep, opens, ticks, ends,
  closes, returns, Reach, here, next, IsFresh, IsTidy,
}

-- how many goroutines there are, by the channel and the caller
abbrev pub Counts : Channel → Caller → ℕ → Type 0
Counts unmade free n = n ≡ 0
Counts opened free n = n ≡ 1
Counts closed free n = n ≡ 0
Counts closed waiting n = n ≤ 1
Counts unmade waiting n = ⊥
Counts opened waiting n = ⊥

-- A loop that is not open, with no call of Close, has no goroutine.
no_goroutine : (c : Channel) (n : ℕ) → c ≢ opened → Counts c free n → n ≡ 0
no_goroutine unmade n ne h = h
no_goroutine opened n ne h = absurd (ne refl)
no_goroutine closed n ne h = h

-- a goroutine that ends, and a Close that returns
ending : (w : Caller) (n : ℕ) → Counts closed w (suc n) → Counts closed w n
ending free n h = absurd (omega arith)
ending waiting n h = omega arith

returned : (c : Channel) (n : ℕ) → Counts c waiting n → n ≡ 0 → Counts c free n
returned unmade n h none = absurd h
returned opened n h none = absurd h
returned closed n h none = none

pub record IsSound {S : Type 0} (l : Looped S) : Type 0 where
  pub counts : Counts l.stop l.caller l.goroutines

module _ {S : Type 0} where
  of_counts :
      (l : Looped S) (c : Channel) (w : Caller)
      → IsSound l
      → l.stop ≡ c
      → l.caller ≡ w
      → Counts c w l.goroutines
  of_counts l c w s e f =
      subst (λ b. Counts c b l.goroutines) f
        (subst (λ a. Counts a l.caller l.goroutines) e s.counts)

module _ {S : Type 0} (before checks : S → S → Type 0) where
  LoopStep-IsSound :
      {l m : Looped S}
      → (step : LoopStep before checks l m) → IsFresh before checks step
      → IsSound l
      → IsSound m
  LoopStep-IsSound {l} (opens s caller b) ne sound =
      let none : l.goroutines ≡ 0 =
        no_goroutine l.stop l.goroutines ne
          (subst (λ w. Counts l.stop w l.goroutines) caller sound.counts) in
      record { counts = omega arith }
  LoopStep-IsSound (ticks s some_left c) fresh sound = record { counts = sound.counts }
  LoopStep-IsSound {l} (ends n e stop) fresh sound = record {
    counts =
        subst (λ c. Counts c l.caller n) (sym stop)
          (ending l.caller n (
            subst (λ k. Counts closed l.caller k) e
              (subst (λ c. Counts c l.caller l.goroutines) stop sound.counts)));
  }
  LoopStep-IsSound {l} (closes caller stop) fresh sound =
      let one = of_counts l opened free sound stop caller in record { counts = omega arith }
  LoopStep-IsSound {l} (returns caller none) fresh sound = record {
    counts =
        returned l.stop l.goroutines (subst (λ w. Counts l.stop w l.goroutines) caller sound.counts)
          none;
  }

  -- If no loop is opened that is open, there is one goroutine at every moment if the loop is open, one at most while
  -- Close waits, and else none.
  pub Reach-IsSound :
      {start : S} {l : Looped S}
      → (r : Reach before checks start l) → IsTidy before checks r
      → IsSound l
  Reach-IsSound here tidy = record { counts = refl }
  Reach-IsSound (next r step) (tidy, fresh) = LoopStep-IsSound step fresh (Reach-IsSound r tidy)

  only_opens :
      {l m : Looped S}
      → LoopStep before checks l m
      → l.caller ≡ free
      → l.stop ≡ closed
      → l.goroutines ≡ 0
      → m.stop ≡ opened
  only_opens (opens s caller b) f c none = refl
  only_opens (ticks s some_left h) f c none = absurd (omega arith)
  only_opens (ends n e stop) f c none = absurd (omega arith)
  only_opens (closes caller stop) f c none = absurd (cc (sym c ∙ stop))
  only_opens (returns caller z) f c none = absurd (cc (sym f ∙ caller))

  -- Once Close has returned, if no loop was opened that was open, there is no goroutine, and the only step is another Open.
  pub after_close :
      {start : S} {l : Looped S}
      → (r : Reach before checks start l) → IsTidy before checks r
      → l.caller ≡ free
      → l.stop ≡ closed
      → (l.goroutines ≡ 0) × ((m : Looped S) → LoopStep before checks l m → m.stop ≡ opened)
  after_close {l} r tidy f c =
      let none = of_counts l closed free (Reach-IsSound r tidy) c f in
      (none, λ m step. only_opens step f c none)
