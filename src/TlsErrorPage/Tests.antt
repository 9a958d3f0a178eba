-- ===== src/TlsErrorPage/Tests.antt =====
-- A ClientHello that is read again in small pieces.
use lazyfwd.Base.{ℕ, ◌≡◌, refl, false, [], ◌∷◌, ◌++◌, Bytes, codes, take, drop, take-append_drop}
use lazyfwd.TlsErrorPage.{replay_read}
use lazyfwd.TlsErrorPage.Replay.{remaining, replay_reads, replay_reads-in_order}

-- A connection whose state is what has not been read.
abbrev read : ℕ → Bytes → Bytes × Bytes
read n c = (take n c, drop n c)

replay_reads-in_order_example :
    (let r =
        replay_reads read
          (3 ∷ 1 ∷ 9 ∷ 2 ∷ [])
          (record { conn = codes "more"; initial = codes "hello"; replayed = false }) in
      r.0 ++ remaining (λ c. c) r.1 ≡ codes "hello" ++ codes "more")
replay_reads-in_order_example =
    replay_reads-in_order read (λ c. c) (λ n c. take-append_drop n c) (3 ∷ 1 ∷ 9 ∷ 2 ∷ [])
      (codes "more") (codes "hello")

-- The reads in turn.
in_pieces :
    (replay_reads read
      (3 ∷ 1 ∷ 9 ∷ 2 ∷ [])
      (record { conn = codes "more"; initial = codes "hello"; replayed = false })).0
    ≡ codes "hellomo"
unfolding replay_reads replay_read
in_pieces = refl
