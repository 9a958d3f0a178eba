-- ===== src/Handle/Sample.antt =====
-- A sound manager with a running tunnel, and what a request meets, on which the tests run.
use lazyfwd.Base.{refl, none, [], ◌∷◌, Bytes, codes, ok}
use lazyfwd.Base.Int.{pos}
use lazyfwd.Tunnel.{running, open_chan, ready}
use lazyfwd.Manager.Sample.{running_one, with_tunnel-IsWf}
use lazyfwd.Handle.{Weather}
use lazyfwd.Handle.Sound.{IsSound}

pub running_one-IsSound : IsSound running_one
running_one-IsSound = record {
  wf = with_tunnel-IsWf running open_chan 0;
  settled = (
    record { running_open = λ e. refl; not_starting = λ e. cc (e); not_stopping = λ e. cc (e) },
    tt,
  );
}

-- Every start succeeds.
abbrev pub fair : Weather Bytes
fair = record {
  now = 5;
  later = 6;
  attempt = record {
    discovery = ok (codes "pod", pos 80);
    transport = none;
    forwarder = λ fw. none;
    outcome = λ fw. ready (ok (31000 ∷ []));
  };
  joined = λ t. none;
}
