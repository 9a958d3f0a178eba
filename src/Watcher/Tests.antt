-- ===== src/Watcher/Tests.antt =====
-- A watcher through a burst of two changes, a reload and a stop.
use lazyfwd.Base.{◌≡◌, refl, ℕ, ◌<◌, ◌≤◌, true, false, some, List, [], ◌∷◌, arith, codes, ok, err}
use lazyfwd.Config.Load.{Outside, unreadable, load_config}
use lazyfwd.Manager.Sample.{config_of, config_of-IsValid}
use lazyfwd.Watcher.{
  Ops, ConfigWatcher, new_config_watcher, arm, on_event, wake, leave, reload_config, fire, stop,
}
use lazyfwd.Watcher.Steps.{
  noticed, fired, halted, left, Steps, here, next, IsCurrent, Steps-IsCurrent,
}
use lazyfwd.Watcher.Debounce.{
  Event, IsWaiting, ReloadedOnce, fire_due, run_to, turn, watch, Burst-waits,
}

-- The file is gone.
abbrev gone : Outside
gone = record {
  file = err (codes "no such file");
  unmarshal = λ text c. ok config_of;
  kubeconfig_env = [];
  home = codes "/h";
  join_path = λ ps. [];
  trim_space = λ s. s;
}

abbrev wrote : Ops
wrote = record { write = true; create = false; chmod = false; rename = false }

abbrev first : ConfigWatcher
first = new_config_watcher config_of true

first-IsCurrent : IsCurrent first
unfolding new_config_watcher
first-IsCurrent = record { valid = config_of-IsValid; talkative = λ e. cc (e); quiet = λ e. refl }

-- `Stop` and the loop's return by a closed channel of the watcher
abbrev left_early : ConfigWatcher → ConfigWatcher
left_early w = leave false (stop w)

-- The reload that an event has set off may still come after `Stop`.
late_run : Steps first (fire (load_config gone) (left_early (on_event 3 wrote first)))
unfolding new_config_watcher on_event arm leave stop
late_run = next (noticed 3 wrote first refl) (
    next (halted (on_event 3 wrote first) refl) (
      next (left false (stop (on_event 3 wrote first)) refl refl)
        (next (fired 503 gone (left_early (on_event 3 wrote first)) refl) (here _))))

Steps-IsCurrent_example : IsCurrent (fire (load_config gone) (left_early (on_event 3 wrote first)))
Steps-IsCurrent_example = Steps-IsCurrent late_run first-IsCurrent

abbrev renamed : Ops
renamed = record { write = false; create = false; chmod = false; rename = true }

-- The second change comes while the loop sleeps.
abbrev two_changes : List Event
two_changes =
    record { time = 3; added = true; ops = renamed }
    ∷ record { time = 90; added = true; ops = wrote }
    ∷ []

abbrev waiting : ConfigWatcher
waiting = record first { timer = some 500 }

Burst-waits_example :
    (let v = watch (err (unreadable [])) 0 two_changes waiting in
      ((now : ℕ) → now < 603 → IsWaiting 603 waiting (run_to (err (unreadable [])) now v))
      × ((now : ℕ)
          → 603 ≤ now
          → ReloadedOnce (err (unreadable [])) waiting (run_to (err (unreadable [])) now v)))
Burst-waits_example =
    Burst-waits (err (unreadable [])) 0 500 two_changes waiting refl
      (omega arith, refl, (omega arith, refl, tt))

-- A rename just before the timer runs out: the timer runs out in the sleep.
abbrev late_rename : List Event
late_rename = record { time = 450; added = true; ops = renamed } ∷ []

reload_in_sleep : (watch (ok config_of) 0 late_rename waiting).pending ≡ true
unfolding watch turn run_to fire_due fire reload_config on_event wake arm new_config_watcher
reload_in_sleep = refl
