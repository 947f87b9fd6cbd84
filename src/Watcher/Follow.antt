-- ===== src/Watcher/Follow.antt =====
-- Which configuration is in effect after some ticks of the watcher.
use text.Mathlib.Text.{◌==◌ as str_eq}
use strimzi_canary.Common.{
  ℕ, zero, suc, ◌≡◌, ◌≢◌, refl, sym, ap, ◌∙◌, ◌⊎◌, inl, inr, Bool, true, false, not, ◌&&◌, List, [],
  ◌∷◌, Option, none, some, String, Bool-cases, Option-cases, Outcome, ok, ◌>>=◌,
}
use strimzi_canary.Common.Int.{ℤ, pos, ltb_ℤ}
use strimzi_canary.Common.Maps.{string_eq}
use strimzi_canary.Watcher.{
  Files, Watcher, idle, close, Look, missing, unknown, present, read_and_hash, first_read,
  new_dynamic_config_watcher, apply_read, tick,
}

-- the watcher closed `n` times
pub closes : ℕ → Watcher → Outcome Watcher
closes zero w = ok w
closes (suc n) w = close w >>= closes n

closes_closed : (n : ℕ) (w : Watcher) → w.closed ≡ true → closes n w ≡ ok w
unfolding closes close
closes_closed zero w h = refl
closes_closed (suc n) w h = simp (h, closes_closed n w h)

module _ (fs : Files) where
  abbrev with_applied : fs.Config → Option fs.Config → fs.Config
  with_applied c none = c
  with_applied c (some c') = c'

  -- The watcher and the configuration in effect: the last one applied, or the one before.
  unfoldable pub follow : Watcher → fs.Config → List (Look fs) → Watcher × fs.Config
  follow w c [] = (w, c)
  follow w c (l ∷ ls) = let (w', applied) = tick fs w l in follow w' (with_applied c applied) ls

  -- the configuration of the last contents that can be read and decoded
  abbrev pub reading : fs.Config → Look fs → fs.Config
  reading c (present (some b)) = with_applied c (fs.parse b)
  reading c (present none) = c
  reading c missing = c
  reading c unknown = c

  abbrev pub latest : fs.Config → List (Look fs) → fs.Config
  latest c [] = c
  latest c (l ∷ ls) = latest (reading c l) ls

  abbrev pub is_missing : Look fs → Bool
  is_missing missing = true
  is_missing unknown = false
  is_missing (present b) = false

  abbrev pub NeverMissing : List (Look fs) → Type 0
  NeverMissing [] = Unit {0}
  NeverMissing (l ∷ ls) = (is_missing l ≡ false) × NeverMissing ls

  -- The hash in the watcher is still the empty one, or that of contents with this configuration.
  abbrev Tracks : Watcher → fs.Config → Type 0
  Tracks w c = (w.hash ≡ "") ⊎ ((b : fs.Bytes) × (fs.hash b ≡ w.hash) × (fs.parse b ≡ some c))

  module _ (separates : (a b : fs.Bytes) → fs.hash a ≡ fs.hash b → fs.parse a ≡ fs.parse b)
      (nonempty : (a : fs.Bytes) → fs.hash a ≢ "") where
    -- one tick keeps the hash and the configuration in effect together
    record Step (w : Watcher) (c : fs.Config) (l : Look fs) : Type 0 where
      tracks : Tracks (tick fs w l).0 (with_applied c (tick fs w l).1)
      reads : with_applied c (tick fs w l).1 ≡ reading c l

    same_hash :
        (w : Watcher) (c c' : fs.Config) (b : fs.Bytes)
        → Tracks w c
        → fs.parse b ≡ some c'
        → fs.hash b ≡ w.hash
        → c ≡ c'
    same_hash w c c' b (inl unread) decoded same = absurd (nonempty b (same ∙ unread))
    same_hash w c c' b (inr (b', h, decoded')) decoded same =
        cc (separates b b' (same ∙ sym h), decoded, decoded')

    tick-Step :
        (w : Watcher) (c : fs.Config) (l : Look fs) → is_missing l ≡ false → Tracks w c → Step w c l
    unfolding tick
    tick-Step w c missing h t = absurd (cc h)
    tick-Step w c unknown h t = record { tracks = t; reads = refl }
    tick-Step w c (present none) h t = record { tracks = t; reads = refl }
    tick-Step w c (present (some b)) h t = elim (Option-cases (fs.parse b)) [
      | inl undecoded ↦ record {
        tracks = rw (undecoded, tick, read_and_hash, apply_read, with_applied) t;
        reads = rw (undecoded, tick, read_and_hash, apply_read, with_applied) refl;
      }
      | inr (c', decoded) ↦ elim (Bool-cases (str_eq (fs.hash b) w.hash)) [
        | inl same ↦ record {
          tracks = rw (decoded, same, tick, read_and_hash, apply_read, with_applied) t;
          reads =
              rw (decoded, same, tick, read_and_hash, apply_read, with_applied)
                (same_hash w c c' b t decoded ((string_eq.beq_iff (fs.hash b) w.hash).0 same));
        }
        | inr other ↦ record {
          tracks =
              rw (decoded, other, tick, read_and_hash, apply_read, with_applied)
                (inr (b, refl, decoded));
          reads = rw (decoded, other, tick, read_and_hash, apply_read, with_applied) refl;
        }
      ]
    ]

    follow-from :
        (w : Watcher) (c : fs.Config) (ls : List (Look fs))
        → NeverMissing ls
        → Tracks w c
        → (follow w c ls).1 ≡ latest c ls
    unfolding follow
    follow-from w c [] h t = refl
    follow-from w c (l ∷ ls) (h, hs) t =
        let step = tick-Step w c l h t in
        follow-from (tick fs w l).0 (with_applied c (tick fs w l).1) ls hs step.tracks
        ∙ ap (λ d. latest d ls) step.reads

    first_read-Step :
        (contents : Option fs.Bytes)
        → (Tracks
            (first_read fs (read_and_hash fs contents)).0
            (with_applied fs.default (first_read fs (read_and_hash fs contents)).1))
          × (with_applied fs.default (first_read fs (read_and_hash fs contents)).1
              ≡ reading fs.default (present contents))
    unfolding first_read read_and_hash
    first_read-Step none = (inl refl, refl)
    first_read-Step (some b) = elim (Option-cases (fs.parse b)) [
      | inl undecoded ↦ rw (undecoded, first_read, read_and_hash, with_applied) (inl refl, refl)
      | inr (c, decoded) ↦
          rw (decoded, first_read, read_and_hash, with_applied) (inr (b, refl, decoded), refl)
    ]

    -- While the file is never found missing, the configuration in effect is that of the last contents
    -- that could be read and decoded, at the start or at a tick, and the default one if none could. This is
    -- for a watcher with a file and an interval, and a hash that is the same only for contents that decode
    -- the same, and never empty.
    pub follow-latest :
        (file : String) (interval : ℤ) (contents : Option fs.Bytes) (ls : List (Look fs))
        → (not (str_eq file "") && ltb_ℤ (pos 0) interval) ≡ true
        → NeverMissing ls
        → (follow
            (new_dynamic_config_watcher fs file interval contents).0
            (with_applied fs.default (new_dynamic_config_watcher fs file interval contents).1)
            ls).1
          ≡ latest (reading fs.default (present contents)) ls
    unfolding new_dynamic_config_watcher
    follow-latest file interval contents ls enabled h =
        let (t, same) = first_read-Step contents in
        rw (enabled, ← same)
          (follow-from (first_read fs (read_and_hash fs contents)).0
            (with_applied fs.default (first_read fs (read_and_hash fs contents)).1) ls h t)

  same_string : (a : String) → str_eq a a ≡ true
  same_string a = (string_eq.beq_iff a a).1 refl

  tick_decoded :
      (w : Watcher) (c : fs.Config) (b : fs.Bytes)
      → fs.parse b ≡ some c
      → ((tick fs w (present (some b))).0.exists ≡ true)
        × ((tick fs w (present (some b))).0.hash ≡ fs.hash b)
  unfolding tick
  tick_decoded w c b decoded = elim (Bool-cases (str_eq (fs.hash b) w.hash)) [
    | inl same ↦
        rw (decoded, same, tick, read_and_hash, apply_read)
          (refl, sym ((string_eq.beq_iff (fs.hash b) w.hash).0 same))
    | inr other ↦ rw (decoded, other, tick, read_and_hash, apply_read) (refl, refl)
  ]

  tick_missing :
      (w : Watcher)
      → w.exists ≡ true
      → ((tick fs w missing).0 ≡ record w { exists = false })
        × ((tick fs w missing).1 ≡ some fs.default)
  unfolding tick
  tick_missing w h = simp h (refl, refl)

  tick_same :
      (w : Watcher) (c : fs.Config) (b : fs.Bytes)
      → fs.parse b ≡ some c
      → w.hash ≡ fs.hash b
      → (tick fs w (present (some b))).1 ≡ none
  unfolding tick
  tick_same w c b decoded h =
      let same : str_eq (fs.hash b) w.hash ≡ true =
        (string_eq.beq_iff (fs.hash b) w.hash).1 (sym h) in
      rw (decoded, same, tick, read_and_hash, apply_read) refl

  -- If a file that could be decoded is deleted and comes back with the same contents, the defaults stay
  -- in effect, whatever the watcher had seen before.
  pub follow-missing :
      (w : Watcher) (c c' : fs.Config) (b : fs.Bytes)
      → fs.parse b ≡ some c'
      → (follow w c (present (some b) ∷ missing ∷ present (some b) ∷ [])).1 ≡ fs.default
  unfolding follow
  follow-missing w c c' b decoded =
      let (first, given) = tick fs w (present (some b)) in
      let (there, hashed) = tick_decoded w c' b decoded in
      let (left, applied) = tick_missing first there in
      let second = (tick fs first missing).0 in
      ap (λ a. with_applied (with_applied (with_applied c given) (tick fs first missing).1) a)
        (tick_same second c' b decoded (ap (λ v. v.hash) left ∙ hashed))
      ∙ ap (λ a. with_applied (with_applied c given) a) applied

-- However often a new watcher is closed, Close does not panic, and the channel is closed from the
-- first time on.
pub closes-close : (n : ℕ) → (w : Watcher) × (closes (suc n) idle ≡ ok w) × (w.quit ≡ true)
unfolding closes close
closes-close n = (record idle { closed = true; quit = true }, closes_closed n _ refl, refl)
