-- ===== src/Watcher.antt =====
-- internal/watcher/watcher.go: when a change of the file leads to a reload, and what a reload does.
-- Times are in milliseconds. The loop's sleep after a rename is a state of its own, in which the timer
-- may run out. `reloadConfig` runs as one step, though Go's timer runs it in a goroutine of its own.
pub mod Steps
pub mod Debounce
mod Tests
use lazyfwd.Base.{
  ℕ, ◌+◌, Bool, true, false, ◌||◌, Option, none, some, List, [], ◌∷◌, leb, if◌then◌else◌, Result,
  ok, err,
}
use lazyfwd.Config.{Config}
use lazyfwd.Config.Load.{LoadError}

-- The bits of `event.Op` that the loop tests.
pub record Ops : Type 0 where
  pub write : Bool
  pub create : Bool
  pub chmod : Bool
  pub rename : Bool

-- Where `watchLoop` is: in its select, in the sleep after a rename, or returned, having seen `stopChan`
-- closed, or the channel of the events or the errors.
pub data Loop : Type 0 where
  selecting asleep left_by_stop left_by_close : Loop

-- `ConfigWatcher`. The timer holds when it runs out; `pending` is the channel `ReloadChan`, of
-- capacity one; `watched` says whether the path is watched; `closed` whether `Stop` has closed
-- `stopChan` and the watcher, and with it its channels.
pub record ConfigWatcher : Type 0 where
  pub cli_verbose : Bool
  pub current_config : Config
  pub timer : Option ℕ
  pub pending : Bool
  pub watched : Bool
  pub closed : Bool
  pub loop : Loop

-- `NewConfigWatcher`, where the path can be watched
unfoldable pub new_config_watcher : Config → Bool → ConfigWatcher
new_config_watcher c cli_verbose = record {
  cli_verbose = cli_verbose;
  current_config = c;
  timer = none;
  pending = false;
  watched = true;
  closed = false;
  loop = selecting;
}

abbrev pub is_change : Ops → Bool
is_change o = o.write || o.create || o.chmod || o.rename

-- The wait for the new file after a rename.
abbrev pub rename_delay : Ops → ℕ
rename_delay o = if o.rename then 100 else 0

abbrev pub debounce : ℕ
debounce = 500

-- The timer is replaced by one that runs from now.
unfoldable pub arm : ℕ → ConfigWatcher → ConfigWatcher
arm now w = record w { timer = some (now + debounce) }

-- The loop takes an event: a rename puts it to sleep, another change replaces the timer at once.
unfoldable pub on_event : ℕ → Ops → ConfigWatcher → ConfigWatcher
unfolding arm
on_event now o w =
    if is_change o then (if o.rename then record w { loop = asleep } else arm now w) else w

-- The sleep is over: the path is watched again, where that can be done, and the timer is replaced.
unfoldable pub wake : ℕ → Bool → ConfigWatcher → ConfigWatcher
unfolding arm
wake now added w = arm now (record w { watched = added; loop = selecting })

abbrev pub with_verbose : Bool → Config → Config
with_verbose cli c = if cli then record c { verbose = true } else c

-- `reloadConfig`, with what `LoadConfig` returns
unfoldable pub reload_config : Result LoadError Config → ConfigWatcher → ConfigWatcher
reload_config (err e) w = w
reload_config (ok c) w = record w { current_config = with_verbose w.cli_verbose c; pending = true }

-- The timer has run out.
unfoldable pub fire : Result LoadError Config → ConfigWatcher → ConfigWatcher
fire loaded w = reload_config loaded (record w { timer = none })

-- The main loop takes the signal.
unfoldable pub take_reload : ConfigWatcher → ConfigWatcher
take_reload w = record w { pending = false }

-- `Stop` up to its wait for the loop
unfoldable pub stop : ConfigWatcher → ConfigWatcher
stop w = record w { watched = false; closed = true }

-- The loop returns. All its channels are closed, so its select may take any of them: only the case of
-- `stopChan` stops the timer.
unfoldable pub leave : Bool → ConfigWatcher → ConfigWatcher
leave true w = record w { timer = none; loop = left_by_stop }
leave false w = record w { loop = left_by_close }
