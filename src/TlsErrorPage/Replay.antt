-- ===== src/TlsErrorPage/Replay.antt =====
-- What the TLS server of the error page reads from a replayed connection.
use lazyfwd.Base.{
  ℕ, suc, ◌≡◌, ◌≤◌, refl, sym, ap, ◌∙◌, Bool, true, false, List, [], ◌∷◌, ◌++◌, append_assoc, arith,
  Bytes, length, length-take, take-append_drop, take, drop, leb, if◌then◌else◌, Bool-cases, inl,
  inr,
}
use lazyfwd.TlsErrorPage.{ReplayConn, replay_read, read_conn, copy_initial}

module _ {Conn : Type 0} where
  -- What a reader has still to get, where `pending` is that of the connection.
  abbrev pub remaining : (Conn → Bytes) → ReplayConn Conn → Bytes
  remaining pending r = (if r.replayed then [] else r.initial) ++ pending r.conn

  -- Several reads, with the sizes of their buffers.
  unfoldable pub replay_reads :
      (ℕ → Conn → Bytes × Conn) → List ℕ → ReplayConn Conn → Bytes × ReplayConn Conn
  replay_reads read [] r = ([], r)
  replay_reads read (n ∷ ns) r =
      let (b, r') = replay_read read n r in
      let (bs, r'') = replay_reads read ns r' in (b ++ bs, r'')

  copied :
      (pending : Conn → Bytes) (n : ℕ) (i : Bytes) (c : Conn)
      → let r = copy_initial n (record { conn = c; initial = i; replayed = false }) in
        r.0 ++ remaining pending r.1 ≡ i ++ pending c
  unfolding copy_initial
  copied pending n i c = elim (Bool-cases (leb (length i) n)) [
    | inl e ↦ rw e refl
    | inr e ↦ rw e (
        sym (append_assoc (take n i) (drop n i) (pending c))
        ∙ ap (λ t. t ++ pending c) (take-append_drop n i))
  ]

  -- One read takes its bytes off what remains.
  replay_read-remaining :
      (read : ℕ → Conn → Bytes × Conn) (pending : Conn → Bytes)
      → ((n : ℕ) (c : Conn) → (read n c).0 ++ pending (read n c).1 ≡ pending c)
      → (n : ℕ) (c : Conn) (i : Bytes) (b : Bool)
      → let r : ReplayConn Conn = record { conn = c; initial = i; replayed = b } in
        (replay_read read n r).0 ++ remaining pending (replay_read read n r).1 ≡ remaining pending r
  unfolding replay_read read_conn
  replay_read-remaining read pending honest n c i true = honest n c
  replay_read-remaining read pending honest n c [] false = honest n c
  replay_read-remaining read pending honest n c (x ∷ i) false = copied pending n (x ∷ i) c

  reads :
      (read : ℕ → Conn → Bytes × Conn) (pending : Conn → Bytes)
      → ((n : ℕ) (c : Conn) → (read n c).0 ++ pending (read n c).1 ≡ pending c)
      → (ns : List ℕ) (r : ReplayConn Conn)
      → (replay_reads read ns r).0 ++ remaining pending (replay_reads read ns r).1
        ≡ remaining pending r
  unfolding replay_reads
  reads read pending honest [] r = refl
  reads read pending honest (n ∷ ns) r =
      let (b, r') = replay_read read n r in
      append_assoc (replay_read read n r).0 (replay_reads read ns (replay_read read n r).1).0 _
      ∙ ap (λ t. (replay_read read n r).0 ++ t)
          (reads read pending honest ns (replay_read read n r).1)
      ∙ replay_read-remaining read pending honest n r.conn r.initial r.replayed

  -- However large its buffers, the reader of a replayed connection gets the bytes that were read
  -- already and then those of the connection, in order, each once: what it has got and what remains
  -- make up both. The connection is assumed to hand out its pending bytes in order.
  pub replay_reads-in_order :
      (read : ℕ → Conn → Bytes × Conn) (pending : Conn → Bytes)
      → ((n : ℕ) (c : Conn) → (read n c).0 ++ pending (read n c).1 ≡ pending c)
      → (ns : List ℕ) (c : Conn) (hello : Bytes)
      → let r = replay_reads read ns (record { conn = c; initial = hello; replayed = false }) in
        r.0 ++ remaining pending r.1 ≡ hello ++ pending c
  replay_reads-in_order read pending honest ns c hello =
      reads read pending honest ns (record { conn = c; initial = hello; replayed = false })

  -- As long as bytes of the ClientHello are left, a read into a buffer that is not empty returns at
  -- least one byte and no more than fit.
  pub replay_read-progress :
      (read : ℕ → Conn → Bytes × Conn) (n : ℕ) (c : Conn) (x : ℕ) (i : Bytes)
      → let got =
          (replay_read read (suc n) (record { conn = c; initial = x ∷ i; replayed = false })).0 in
        (1 ≤ length got) × (length got ≤ suc n)
  unfolding replay_read copy_initial
  replay_read-progress read n c x i = elim (Bool-cases (leb (length (x ∷ i)) (suc n))) [
    | inl e ↦ rw e (ground arith)
    | inr e ↦
        let fit : suc n ≤ length (x ∷ i) = ground arith in
        let l = length-take (suc n) (x ∷ i) fit in rw e (omega (arith, l), omega (arith, l))
  ]
