-- ===== src/Watcher/Steps.antt =====
-- The steps of the watcher, and what they keep.
use lazyfwd.Base.{
  ℕ, ◌≡◌, ◌≢◌, refl, Bool, true, false, none, some, Result, ok, err, Bool-cases, inl, inr,
}
use lazyfwd.Config.{Config}
use lazyfwd.Config.Validate.Spec.{IsValid}
use lazyfwd.Config.Load.{Outside, LoadError, load_config, load_config-IsValid}
use lazyfwd.Watcher.{
  Ops, ConfigWatcher, selecting, asleep, left_by_stop, is_change, arm, on_event, wake, leave,
  with_verbose, reload_config, fire, take_reload, stop,
}

pub data Step : ConfigWatcher → ConfigWatcher → Type 0 where
  noticed : (now : ℕ) (o : Ops) (w : ConfigWatcher) → w.loop ≡ selecting → Step w (on_event now o w)
  woken : (now : ℕ) (added : Bool) (w : ConfigWatcher) → w.loop ≡ asleep → Step w (wake now added w)
  fired :
      (due : ℕ) (o : Outside) (w : ConfigWatcher)
      → w.timer ≡ some due
      → Step w (fire (load_config o) w)
  taken : (w : ConfigWatcher) → w.pending ≡ true → Step w (take_reload w)
  halted : (w : ConfigWatcher) → w.closed ≡ false → Step w (stop w)
  left :
      (by_stop : Bool) (w : ConfigWatcher)
      → w.closed ≡ true
      → w.loop ≡ selecting
      → Step w (leave by_stop w)

pub data Steps : ConfigWatcher → ConfigWatcher → Type 0 where
  here : (w : ConfigWatcher) → Steps w w
  next : {v w x : ConfigWatcher} → Step v w → Steps w x → Steps v x

-- The current configuration is valid; one that waits to be taken up is as talkative as the command line
-- asks for; and there is no timer once the loop has returned from the case of `stopChan`.
pub record IsCurrent (w : ConfigWatcher) : Type 0 where
  pub valid : IsValid w.current_config
  pub talkative : w.pending ≡ true → w.cli_verbose ≡ true → w.current_config.verbose ≡ true
  pub quiet : w.loop ≡ left_by_stop → w.timer ≡ none

pub with_verbose-IsValid : (b : Bool) (c : Config) → IsValid c → IsValid (with_verbose b c)
with_verbose-IsValid false c v = v
with_verbose-IsValid true c v = record {
  version_known = v.version_known;
  listen_given = v.listen_given;
  timeout_valid = v.timeout_valid;
  routes_valid = v.routes_valid;
  tcp_valid = elim v.tcp_valid [
    | inl none_given ↦ inl none_given
    | inr (p, t) ↦ inr (
      p,
      record {
        timeout_valid = t.timeout_valid;
        port_known = t.port_known;
        routes_valid = t.routes_valid;
        jumps_valid = t.jumps_valid;
        ports_distinct = t.ports_distinct;
      },
    )
  ];
}

arm-IsCurrent :
    (now : ℕ) (w : ConfigWatcher) → w.loop ≢ left_by_stop → IsCurrent w → IsCurrent (arm now w)
unfolding arm
arm-IsCurrent now w live k = record {
  valid = k.valid;
  talkative = k.talkative;
  quiet = λ s. absurd (live s);
}

on_event-IsCurrent :
    (now : ℕ) (o : Ops) (w : ConfigWatcher)
    → w.loop ≡ selecting
    → IsCurrent w
    → IsCurrent (on_event now o w)
unfolding on_event
on_event-IsCurrent now o w live k = elim (Bool-cases (is_change o)) [
  | inr e ↦ rw e k
  | inl e ↦ elim (Bool-cases o.rename) [
    | inl r ↦ rw (e, r) (record { valid = k.valid; talkative = k.talkative; quiet = λ s. cc (s) })
    | inr r ↦ rw (e, r) (arm-IsCurrent now w (λ s. cc (live, s)) k)
  ]
]

fire-IsCurrent :
    (o : Outside) (w : ConfigWatcher) → IsCurrent w → IsCurrent (fire (load_config o) w)
unfolding fire
fire-IsCurrent o w k = from (load_config o) refl
  where
    from :
        (r : Result LoadError Config)
        → load_config o ≡ r
        → IsCurrent (reload_config r (record w { timer = none }))
    from (err e) q =
        unfold reload_config in
        record { valid = k.valid; talkative = k.talkative; quiet = λ s. refl }
    from (ok c) q =
        unfold reload_config in
        record {
          valid = with_verbose-IsValid w.cli_verbose c (load_config-IsValid o c q);
          talkative = λ p v. rw v refl;
          quiet = λ s. refl;
        }

step-IsCurrent : {v w : ConfigWatcher} → Step v w → IsCurrent v → IsCurrent w
unfolding take_reload stop wake leave
step-IsCurrent (noticed now o w live) k = on_event-IsCurrent now o w live k
step-IsCurrent (woken now added w live) k =
    arm-IsCurrent now (record w { watched = added; loop = selecting }) (λ s. cc (s))
      (record { valid = k.valid; talkative = k.talkative; quiet = λ s. cc (s) })
step-IsCurrent (fired due o w set) k = fire-IsCurrent o w k
step-IsCurrent (taken w p) k = record { valid = k.valid; talkative = λ q. cc (q); quiet = k.quiet }
step-IsCurrent (halted w live) k = record {
  valid = k.valid;
  talkative = k.talkative;
  quiet = k.quiet;
}
step-IsCurrent (left true w closed live) k = record {
  valid = k.valid;
  talkative = k.talkative;
  quiet = λ s. refl;
}
step-IsCurrent (left false w closed live) k = record {
  valid = k.valid;
  talkative = k.talkative;
  quiet = λ s. cc (s);
}

-- Whatever events, sleeps, reloads of readable or broken files, restarts and a stop follow each other, a
-- watcher whose configuration is valid keeps a valid one; a configuration that waits to be taken up is
-- verbose if the command line asks for it; and no timer runs once the loop has returned from the
-- case of `stopChan`.
pub Steps-IsCurrent : {v w : ConfigWatcher} → Steps v w → IsCurrent v → IsCurrent w
Steps-IsCurrent (here w) k = k
Steps-IsCurrent (next s ss) k = Steps-IsCurrent ss (step-IsCurrent s k)
