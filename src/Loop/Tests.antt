-- ===== src/Loop/Tests.antt =====
-- A loop that counts its checks, opened and closed, with a tick after Close was called.
use strimzi_canary.Common.{ℕ, suc, ◌≡◌, refl, arith}
use strimzi_canary.Loop.{
  closed, free, waiting, Looped, opens, ticks, ends, closes, returns, Reach, here, next, IsTidy,
}
use strimzi_canary.Loop.Ending.{Returns, close-Returns}

abbrev Unchanged : ℕ → ℕ → Type 0
Unchanged i j = j ≡ i

abbrev Counted : ℕ → ℕ → Type 0
Counted i j = j ≡ suc i

abbrev in_close : Looped ℕ
in_close = record { stop = closed; goroutines = 1; caller = waiting; state = 1 }

in_close-Reach : Reach Unchanged Counted 0 in_close
in_close-Reach =
    next (next (next here (opens 0 refl refl)) (closes refl refl)) (ticks 1 (omega arith) refl)

in_close-IsTidy : IsTidy Unchanged Counted in_close-Reach
unfolding in_close-Reach
in_close-IsTidy = (((tt, λ h. cc h), tt), tt)

close-Returns_example : Returns Unchanged Counted in_close
close-Returns_example = close-Returns Unchanged Counted in_close-Reach in_close-IsTidy refl

abbrev after : Looped ℕ
after = record { stop = closed; goroutines = 0; caller = free; state = 1 }

after-Reach : Reach Unchanged Counted 0 after
after-Reach = next (next in_close-Reach (ends 0 refl refl)) (returns refl refl)
