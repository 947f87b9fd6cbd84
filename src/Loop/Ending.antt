-- ===== src/Loop/Ending.antt =====
-- That a Close returns.
use strimzi_canary.Common.{ℕ, suc, ◌+◌, ◌-◌, ◌≤◌, ◌≡◌, refl, sym, ◌∙◌, Bool, true, false, arith}
use mathlib.Core.Path.{subst}
use native.Mathlib.Decide.{dec_lt}
use strimzi_canary.Loop.{
  Channel, unmade, opened, closed, free, waiting, Looped, LoopStep, opens, ticks, ends, closes,
  returns, Reach, IsTidy,
}
use strimzi_canary.Loop.Quiet.{Counts, Reach-IsSound}

shut_of : (c : Channel) (n : ℕ) → Counts c waiting n → (c ≡ closed) × (n ≤ 1)
shut_of unmade n h = absurd h
shut_of opened n h = absurd h
shut_of closed n h = (refl, h)

module _ {S : Type 0} (before checks : S → S → Type 0) where
  abbrev pub is_tick : {l m : Looped S} → LoopStep before checks l m → Bool
  is_tick (ticks s h c) = true
  is_tick (opens s f b) = false
  is_tick (ends n e c) = false
  is_tick (closes f c) = false
  is_tick (returns w z) = false

  -- A series of steps, of which `n` are no ticks.
  pub data Series (l : Looped S) : ℕ → Looped S → Type 0 where
    start : Series l 0 l
    tick :
        {n : ℕ} {m k : Looped S}
        → Series l n m
        → (step : LoopStep before checks m k) → is_tick step ≡ true
        → Series l n k
    turn :
        {n : ℕ} {m k : Looped S}
        → Series l n m
        → (step : LoopStep before checks m k) → is_tick step ≡ false
        → Series l (suc n) k

  -- In Close, with `n` goroutines left.
  pub record IsWaiting (n : ℕ) (m : Looped S) : Type 0 where
    pub waits : m.caller ≡ waiting
    pub shut : m.stop ≡ closed
    pub left : m.goroutines ≡ n

  tick-IsWaiting :
      (n : ℕ) {m k : Looped S}
      → (step : LoopStep before checks m k) → is_tick step ≡ true
      → IsWaiting n m
      → IsWaiting n k
  tick-IsWaiting n (ticks s h c) e w = record { waits = w.waits; shut = w.shut; left = w.left }
  tick-IsWaiting n (opens s f b) e w = absurd (cc e)
  tick-IsWaiting n (ends j g c) e w = absurd (cc e)
  tick-IsWaiting n (closes f c) e w = absurd (cc e)
  tick-IsWaiting n (returns g z) e w = absurd (cc e)

  turn-IsWaiting :
      (n : ℕ) {m k : Looped S}
      → (step : LoopStep before checks m k) → is_tick step ≡ false
      → IsWaiting (suc n) m
      → IsWaiting n k
  turn-IsWaiting n (ticks s h c) e w = absurd (cc e)
  turn-IsWaiting n (opens s f b) e w = absurd (cc (sym f ∙ w.waits))
  turn-IsWaiting n (ends j g c) e w = record {
    waits = w.waits;
    shut = w.shut;
    left = omega (arith, w.left);
  }
  turn-IsWaiting n (closes f c) e w = absurd (cc (sym f ∙ w.waits))
  turn-IsWaiting n (returns g z) e w = absurd (omega (arith, w.left))

  turn_last :
      {m k : Looped S}
      → (step : LoopStep before checks m k) → is_tick step ≡ false
      → IsWaiting 0 m
      → k.caller ≡ free
  turn_last (ticks s h c) e w = absurd (cc e)
  turn_last (opens s f b) e w = absurd (cc (sym f ∙ w.waits))
  turn_last (ends j g c) e w = absurd (omega (arith, w.left))
  turn_last (closes f c) e w = absurd (cc (sym f ∙ w.waits))
  turn_last (returns g z) e w = refl

  tick_keeps :
      {m k : Looped S}
      → (step : LoopStep before checks m k) → is_tick step ≡ true
      → m.caller ≡ free
      → k.caller ≡ free
  tick_keeps (ticks s h c) e f = f
  tick_keeps (opens s g b) e f = refl
  tick_keeps (ends j g c) e f = f
  tick_keeps (closes g c) e f = absurd (cc e)
  tick_keeps (returns g z) e f = refl

  Series-IsWaiting :
      {l m : Looped S} {n : ℕ} (g left : ℕ)
      → Series l n m
      → IsWaiting g l
      → n + left ≡ g
      → IsWaiting left m
  Series-IsWaiting g left start w e = record {
    waits = w.waits;
    shut = w.shut;
    left = omega (arith, w.left);
  }
  Series-IsWaiting g left (tick r step t) w e =
      tick-IsWaiting left step t (Series-IsWaiting g left r w e)
  Series-IsWaiting g left (turn r step t) w e =
      turn-IsWaiting left step t (Series-IsWaiting g (suc left) r w (omega arith))

  Series-free :
      {l m : Looped S} {n : ℕ} (g : ℕ) → Series l n m → IsWaiting g l → n ≡ suc g → m.caller ≡ free
  Series-free g start w e = absurd (omega arith)
  Series-free g (tick r step t) w e = tick_keeps step t (Series-free g r w e)
  Series-free g (turn r step t) w e = turn_last step t (Series-IsWaiting g 0 r w (omega arith))

  -- Some step can be taken that is no tick, and a series of steps with one more of these than there are
  -- goroutines, which are one at most, has Close return, however many ticks there are between them.
  pub record Returns (l : Looped S) : Type 0 where
    pub progress : (m : Looped S) × (step : LoopStep before checks l m) × (is_tick step ≡ false)
    pub few : l.goroutines ≤ 1
    pub bound : (m : Looped S) → Series l (suc l.goroutines) m → m.caller ≡ free

  next_turn :
      (l : Looped S)
      → IsWaiting l.goroutines l
      → (m : Looped S) × (step : LoopStep before checks l m) × (is_tick step ≡ false)
  next_turn l w = elim (dec_lt 0 l.goroutines) [
    | yes some_left ↦ (_, ends (l.goroutines - 1) (omega arith) w.shut, refl)
    | no none_left ↦ (_, returns w.waits (omega arith), refl)
  ]

  -- If no loop is opened that is open, a Close that waits returns: it is never stuck, and two steps other than ticks are enough, whichever they are
  -- and however many ticks come between them.
  pub close-Returns :
      {start : S} {l : Looped S}
      → (r : Reach before checks start l) → IsTidy before checks r
      → l.caller ≡ waiting
      → Returns l
  close-Returns {l} r tidy waits =
      let (shut, few) = shut_of l.stop l.goroutines (
        subst (λ w. Counts l.stop w l.goroutines) waits
          (Reach-IsSound before checks r tidy).counts) in
      let w : IsWaiting l.goroutines l = record { waits = waits; shut = shut; left = refl } in
      record {
        progress = next_turn l w;
        few = few;
        bound = λ m series. Series-free l.goroutines series w refl;
      }
