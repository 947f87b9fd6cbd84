-- ===== src/Program/Stages.antt =====
-- The stages of main among its events, and when they are in an order.
use strimzi_canary.Common.{
  ◌≡◌, refl, sym, ap, ap₂, ◌∙◌, Bool, Bool-cases, inl, inr, true, false, List, [], ◌∷◌, ◌++◌, map,
  append-nil, append_assoc, if◌then◌else◌, Outcome, ok, crash,
}
use strimzi_canary.Common.Trace.{Traced, after_events, ◌>>=◌, lift, tell, of_service}
use strimzi_canary.Program.{
  Event, set_tracer_provider, shutdown_tracer_provider, new_watcher, close_watcher,
  start_http_server, stop_http_server, new_sync_producer, new_consumer_group, got_signal,
  close_producer_client, close_consumer_client, new_producer_client, new_consumer_client,
  start_manager, stop_manager,
}

abbrev pub is_stage : Event → Bool
is_stage set_tracer_provider = true
is_stage new_watcher = true
is_stage start_http_server = true
is_stage new_producer_client = true
is_stage new_consumer_client = true
is_stage start_manager = true
is_stage stop_manager = true
is_stage new_sync_producer = true
is_stage new_consumer_group = true
is_stage got_signal = true
is_stage stop_http_server = true
is_stage close_watcher = true
is_stage close_producer_client = true
is_stage close_consumer_client = true
is_stage e = false

abbrev pub stages : List Event → List Event
stages [] = []
stages (e ∷ es) = if is_stage e then e ∷ stages es else stages es

pub stages-append : (xs ys : List Event) → stages (xs ++ ys) ≡ stages xs ++ stages ys
stages-append [] ys = refl
stages-append (e ∷ xs) ys = elim (Bool-cases (is_stage e)) [
  | inl kept ↦ rw kept (ap (λ (l : List Event). e ∷ l) (stages-append xs ys))
  | inr left ↦ rw left (stages-append xs ys)
]

abbrev pub Whole : {A : Type 0} → List Event → Traced Event A → Type 0
Whole l (t, ok a) = stages t ≡ l
Whole l (t, crash c) = Unit {0}

-- The stages of a run are those of a list, all of them if it ends with a value, and else the first ones.
pub record InOrder {A : Type 0} (l : List Event) (run : Traced Event A) : Type 0 where
  pub rest : List Event
  pub prefix : stages run.0 ++ rest ≡ l
  pub whole : Whole l run

pub lift-InOrder : {A : Type 0} (end : Outcome A) → InOrder [] (lift end)
lift-InOrder (ok a) = record { rest = []; prefix = refl; whole = refl }
lift-InOrder (crash c) = record { rest = []; prefix = refl; whole = tt }

stages-map :
    {Of : Type 0} (f : Of → Event) (t : List Of)
    → ((x : Of) → is_stage (f x) ≡ false)
    → stages (map f t) ≡ []
stages-map f [] other = refl
stages-map f (x ∷ t) other = rw (other x) (stages-map f t other)

pub of_service-InOrder :
    {Of A : Type 0} (f : Of → Event) (run : Traced Of A)
    → ((x : Of) → is_stage (f x) ≡ false)
    → InOrder [] (of_service f run)
of_service-InOrder f (t, ok a) other = record {
  rest = [];
  prefix = append-nil _ ∙ stages-map f t other;
  whole = stages-map f t other;
}
of_service-InOrder f (t, crash c) other = record {
  rest = [];
  prefix = append-nil _ ∙ stages-map f t other;
  whole = tt;
}

pub after-InOrder :
    {A : Type 0} (l l' t : List Event) (run : Traced Event A)
    → stages t ≡ l
    → InOrder l' run
    → InOrder (l ++ l') (after_events t run)
after-InOrder l l' t (u, ok a) first h = record {
  rest = h.rest;
  prefix =
      ap (λ (x : List Event). x ++ h.rest) (stages-append t u)
      ∙ append_assoc (stages t) (stages u) h.rest
      ∙ ap₂ ◌++◌ first h.prefix;
  whole = stages-append t u ∙ ap₂ ◌++◌ first h.whole;
}
after-InOrder l l' t (u, crash c) first h = record {
  rest = h.rest;
  prefix =
      ap (λ (x : List Event). x ++ h.rest) (stages-append t u)
      ∙ append_assoc (stages t) (stages u) h.rest
      ∙ ap₂ ◌++◌ first h.prefix;
  whole = tt;
}

pub bind-InOrder :
    {A B : Type 0} (l l' : List Event) (run : Traced Event A) (f : A → Traced Event B)
    → InOrder l run
    → ((a : A) → InOrder l' (f a))
    → InOrder (l ++ l') (run >>= f)
bind-InOrder l l' (t, ok a) f h k = after-InOrder l l' t (f a) h.whole (k a)
bind-InOrder l l' (t, crash c) f h k = record {
  rest = h.rest ++ l';
  prefix = sym (append_assoc (stages t) h.rest l') ∙ ap (λ (x : List Event). x ++ l') h.prefix;
  whole = tt;
}

pub then_ok :
    {A B : Type 0} (l : List Event) (end : Outcome A) {f : A → Traced Event B}
    → ((a : A) → InOrder l (f a))
    → InOrder l (lift end >>= f)
then_ok l end {f} k = bind-InOrder [] l (lift end) f (lift-InOrder end) k

pub then_service :
    {Of A B : Type 0} (l : List Event) (wrap : Of → Event) (run : Traced Of A)
    {f : A → Traced Event B}
    → ((x : Of) → is_stage (wrap x) ≡ false)
    → ((a : A) → InOrder l (f a))
    → InOrder l (of_service wrap run >>= f)
then_service l wrap run {f} other k =
    bind-InOrder [] l (of_service wrap run) f (of_service-InOrder wrap run other) k

pub if-InOrder :
    {A : Type 0} (l : List Event) (b : Bool) (x y : Traced Event A)
    → InOrder l x
    → InOrder l y
    → InOrder l (if b then x else y)
if-InOrder l true x y h k = h
if-InOrder l false x y h k = k

pub tell_stage : (e : Event) → is_stage e ≡ true → InOrder (e ∷ []) (tell e)
tell_stage e h = record { rest = []; prefix = rw h refl; whole = rw h refl }

pub tell_other : (e : Event) → is_stage e ≡ false → InOrder [] (tell e)
tell_other e h = record { rest = []; prefix = rw h refl; whole = rw h refl }

-- The shutdown of the tracer is no stage.
pub stages_shutdown :
    (b : Bool) (t : List Event)
    → stages (t ++ (if b then shutdown_tracer_provider ∷ [] else [])) ≡ stages t
stages_shutdown true t = stages-append t (shutdown_tracer_provider ∷ []) ∙ append-nil (stages t)
stages_shutdown false t = ap stages (append-nil t)
