-- ===== src/Watcher/Debounce.antt =====
-- internal/watcher/watcher.go: the timer over a sequence of events. The loop deals with one event after
-- another, so that an event that comes while it sleeps waits; what it does takes no time but the sleep.
use lazyfwd.Base.{
  ℕ, ◌+◌, ◌<◌, ◌≤◌, ◌≡◌, refl, ap, sym, subst, ◌∙◌, Bool, true, false, ◌||◌, Option, none, some,
  List, [], ◌∷◌, arith, leb, if◌then◌else◌, Result, ok, err, Bool-cases, inl, inr,
}
use lazyfwd.Config.{Config}
use lazyfwd.Config.Load.{LoadError}
use lazyfwd.Watcher.{
  Ops, ConfigWatcher, asleep, is_change, rename_delay, arm, on_event, wake, reload_config, fire,
}

pub record Event : Type 0 where
  pub time : ℕ
  pub added : Bool
  pub ops : Ops

-- The timer runs out, if it does, by a time.
unfoldable pub fire_due : Result LoadError Config → ℕ → Option ℕ → ConfigWatcher → ConfigWatcher
fire_due loaded now none w = w
fire_due loaded now (some due) w = if leb due now then fire loaded w else w

-- The watcher at a time before which nothing but the timer happens.
unfoldable pub run_to : Result LoadError Config → ℕ → ConfigWatcher → ConfigWatcher
unfolding fire_due
run_to loaded now w = fire_due loaded now w.timer w

-- One turn of the loop that takes an event at a time: the timer may run out before, and in the sleep.
unfoldable pub turn : Result LoadError Config → ℕ → Event → ConfigWatcher → ConfigWatcher
turn loaded now e w =
    let taken = on_event now e.ops (run_to loaded now w) in
    if e.ops.rename
    then wake (now + rename_delay e.ops) e.added (run_to loaded (now + rename_delay e.ops) taken)
    else taken

-- When the loop takes an event, if it is free from a time on.
abbrev pub taken_at : ℕ → Event → ℕ
taken_at free e = if leb free e.time then e.time else free

abbrev pub done_at : ℕ → Event → ℕ
done_at free e = taken_at free e + rename_delay e.ops

-- `watchLoop` over a sequence of events, free from a time on, and the timer in between.
unfoldable pub watch : Result LoadError Config → ℕ → List Event → ConfigWatcher → ConfigWatcher
watch loaded free [] w = w
watch loaded free (e ∷ es) w = watch loaded (done_at free e) es (turn loaded (taken_at free e) e w)

-- When the loop has dealt with an event, a tenth of a second after a rename.
abbrev pub settled_at : ℕ → Event → ℕ
settled_at free e = (if leb free e.time then e.time else free) + (if e.ops.rename then 100 else 0)

abbrev pub IsChange : Ops → Type 0
IsChange o = (o.write || o.create || o.chmod || o.rename) ≡ true

-- Changes each of which the loop has dealt with, a sleep included, before the timer that the one
-- before it has set runs out, half a second after that one.
abbrev pub Burst : ℕ → ℕ → List Event → Type 0
Burst free d [] = Unit
Burst free d (e ∷ es) =
    (settled_at free e < d)
    × IsChange e.ops
    × Burst (settled_at free e) (settled_at free e + 500) es

abbrev pub last_due : ℕ → ℕ → List Event → ℕ
last_due free d [] = d
last_due free d (e ∷ es) = last_due (settled_at free e) (settled_at free e + 500) es

-- A watcher that has reloaded nothing since, and whose timer runs out at a time.
pub record IsWaiting (d : ℕ) (w v : ConfigWatcher) : Type 0 where
  pub timer_set : v.timer ≡ some d
  pub config_kept : v.current_config ≡ w.current_config
  pub pending_kept : v.pending ≡ w.pending
  pub verbose_kept : v.cli_verbose ≡ w.cli_verbose

-- A watcher that has reloaded once since, and has no timer: a configuration that can be loaded is there
-- and signalled, and verbose if the command line asks for it; another changes nothing.
abbrev pub ReloadedOnce : Result LoadError Config → ConfigWatcher → ConfigWatcher → Type 0
ReloadedOnce (err e) w v =
    (v.timer ≡ none) × (v.current_config ≡ w.current_config) × (v.pending ≡ w.pending)
ReloadedOnce (ok c) w v =
    (v.timer ≡ none)
    × (v.pending ≡ true)
    × (w.cli_verbose ≡ true → v.current_config ≡ record c { verbose = true })
    × (w.cli_verbose ≡ false → v.current_config ≡ c)

not_yet :
    (loaded : Result LoadError Config) (now d : ℕ) (w : ConfigWatcher)
    → w.timer ≡ some d
    → now < d
    → run_to loaded now w ≡ w
unfolding run_to
not_yet loaded now d w t soon = let e : leb d now ≡ false = ground arith in rw (t, fire_due, e) refl

run_out :
    (loaded : Result LoadError Config) (now d : ℕ) (w : ConfigWatcher)
    → w.timer ≡ some d
    → d ≤ now
    → run_to loaded now w ≡ fire loaded w
unfolding run_to
run_out loaded now d w t late = let e : leb d now ≡ true = ground arith in rw (t, fire_due, e) refl

fire-ReloadedOnce :
    (loaded : Result LoadError Config) (w : ConfigWatcher) → ReloadedOnce loaded w (fire loaded w)
unfolding fire reload_config
fire-ReloadedOnce (err e) w = (refl, refl, refl)
fire-ReloadedOnce (ok c) w = (refl, refl, (λ v. rw v refl), λ v. rw v refl)

ReloadedOnce-waiting :
    (loaded : Result LoadError Config) (d : ℕ) (u w v : ConfigWatcher)
    → IsWaiting d u w
    → ReloadedOnce loaded w v
    → ReloadedOnce loaded u v
ReloadedOnce-waiting (err e) d u w v k (timer, config, pending) =
    (timer, config ∙ k.config_kept, pending ∙ k.pending_kept)
ReloadedOnce-waiting (ok c) d u w v k (timer, pending, loud, quiet) =
    (timer, pending, (λ h. loud (k.verbose_kept ∙ h)), λ h. quiet (k.verbose_kept ∙ h))

wake-IsWaiting :
    (now : ℕ) (added : Bool) (w v : ConfigWatcher) (d : ℕ)
    → IsWaiting d w v
    → IsWaiting (now + 500) w (wake now added v)
unfolding wake arm
wake-IsWaiting now added w v d k = record {
  timer_set = refl;
  config_kept = k.config_kept;
  pending_kept = k.pending_kept;
  verbose_kept = k.verbose_kept;
}

taken_rename :
    (now : ℕ) (o : Ops) (w : ConfigWatcher)
    → is_change o ≡ true
    → o.rename ≡ true
    → on_event now o w ≡ record w { loop = asleep }
unfolding on_event
taken_rename now o w change r = rw (change, r) refl

taken_other :
    (now : ℕ) (o : Ops) (w : ConfigWatcher)
    → is_change o ≡ true
    → o.rename ≡ false
    → on_event now o w ≡ arm now w
unfolding on_event
taken_other now o w change r = rw (change, r) refl

turn-IsWaiting :
    (loaded : Result LoadError Config) (now d : ℕ) (e : Event) (w : ConfigWatcher)
    → w.timer ≡ some d
    → now + rename_delay e.ops < d
    → is_change e.ops ≡ true
    → IsWaiting (now + rename_delay e.ops + 500) w (turn loaded now e w)
unfolding turn arm
turn-IsWaiting loaded now d e w t soon change =
    let still : run_to loaded now w ≡ w = not_yet loaded now d w t (omega (arith, soon)) in
    elim (Bool-cases e.ops.rename) [
      | inl r ↦
          let later : now + 100 < d = rw r at soon in
          let sleeper : ConfigWatcher = record w { loop = asleep } in
          rw
            (
              still,
              taken_rename now e.ops w change r,
              r,
              not_yet loaded (now + 100) d sleeper t later,
            )
            (wake-IsWaiting (now + 100) e.added w sleeper d (record {
              timer_set = t;
              config_kept = refl;
              pending_kept = refl;
              verbose_kept = refl;
            }))
      | inr r ↦
          rw (still, taken_other now e.ops w change r, r)
            (record {
              timer_set = ap some (omega arith);
              config_kept = refl;
              pending_kept = refl;
              verbose_kept = refl;
            })
    ]

IsWaiting-trans :
    (d d' : ℕ) (u v w : ConfigWatcher) → IsWaiting d u v → IsWaiting d' v w → IsWaiting d' u w
IsWaiting-trans d d' u v w h k = record {
  timer_set = k.timer_set;
  config_kept = k.config_kept ∙ h.config_kept;
  pending_kept = k.pending_kept ∙ h.pending_kept;
  verbose_kept = k.verbose_kept ∙ h.verbose_kept;
}

watch-IsWaiting :
    (loaded : Result LoadError Config) (free d : ℕ) (es : List Event) (w : ConfigWatcher)
    → w.timer ≡ some d
    → Burst free d es
    → IsWaiting (last_due free d es) w (watch loaded free es w)
unfolding watch
watch-IsWaiting loaded free d [] w t b = record {
  timer_set = t;
  config_kept = refl;
  pending_kept = refl;
  verbose_kept = refl;
}
watch-IsWaiting loaded free d (e ∷ es) w t (soon, change, b) =
    let k = turn-IsWaiting loaded (taken_at free e) d e w t soon change in
    IsWaiting-trans _ _ w _ _ k
      (watch-IsWaiting loaded (done_at free e) (done_at free e + 500) es _ k.timer_set b)

-- In a burst of changes, each of which the loop has dealt with, its sleep after a rename included,
-- before the timer runs out, there is no reload, and none until half a second after the last change
-- has been dealt with. Then there is one: a configuration that can be loaded is there and signalled,
-- verbose if the command line asks for it, one that cannot be loaded changes nothing, and no timer
-- is left for a second reload.
pub Burst-waits :
    (loaded : Result LoadError Config) (free d : ℕ) (es : List Event) (w : ConfigWatcher)
    → w.timer ≡ some d
    → Burst free d es
    → let v = watch loaded free es w in
      ((now : ℕ)
        → now < last_due free d es
        → IsWaiting (last_due free d es) w (run_to loaded now v))
      × ((now : ℕ) → last_due free d es ≤ now → ReloadedOnce loaded w (run_to loaded now v))
Burst-waits loaded free d es w t b =
    let k = watch-IsWaiting loaded free d es w t b in
    (
      (λ now soon. subst (IsWaiting _ w) (sym (not_yet loaded now _ _ k.timer_set soon)) k),
      λ now late.
          subst (ReloadedOnce loaded w) (sym (run_out loaded now _ _ k.timer_set late))
            (ReloadedOnce-waiting loaded _ w _ _ k (fire-ReloadedOnce loaded _)),
    )
