-- ===== src/Sni/Fields.antt =====
-- The fields of an encoded ClientHello that are skipped.
use lazyfwd.Base.{
  ℕ, ◌+◌, ◌/◌, ◌%◌, ◌≤◌, ◌≡◌, refl, ap, subst, ◌∙◌, false, ◌∷◌, ◌++◌, append_assoc, arith, Bytes,
  length, length-append, drop-append_add, ltb, ok,
}
use lazyfwd.Sni.{at, slice_from, skip_compression, skip_ciphers, skip_to_extensions}
use lazyfwd.Sni.Safe.{slice_from-ok}
use lazyfwd.Sni.Extensions.{be16-parts, at-append}

-- A number in two bytes, and what it counts or announces.
abbrev pub counted : Bytes → Bytes
counted t = length t / 256 ∷ length t % 256 ∷ t

-- The variable parts of the handshake, one behind the other: a part with its length in one byte.
module _ (pre part t : Bytes) (pos : ℕ) (e : pos ≡ length pre) where
  field : Bytes
  field = length part ∷ part

  at-field : at (pre ++ (field ++ t)) pos ≡ ok (length part)
  unfolding at field
  at-field = at-append pre (field ++ t) 0 pos (omega arith)

  length-field : length (pre ++ (field ++ t)) ≡ pos + (1 + length part) + length t
  unfolding field
  length-field = omega (arith, length-append {0} pre (field ++ t), length-append {0} field t)

  at_behind : (n i : ℕ) → i ≡ pos + (1 + length part) + n → at (pre ++ (field ++ t)) i ≡ at t n
  unfolding field
  at_behind n i h =
      at-append pre (field ++ t) (1 + length part + n) i (omega arith)
      ∙ at-append field t n (1 + length part + n) (omega arith)

module _ (pre comp exts : Bytes) (pos : ℕ) (e : pos ≡ length pre) where
  skip_compression-encoded :
      skip_compression (pre ++ ((length comp ∷ comp) ++ counted exts)) pos
      ≡ ok (pos + (1 + length comp) + 2, length exts)
  unfolding skip_compression field
  skip_compression-encoded =
      let big : ℕ = length (pre ++ ((length comp ∷ comp) ++ counted exts)) in
      let size : big ≡ pos + (1 + length comp) + length (counted exts) =
        length-field pre comp (counted exts) pos e in
      let a : ltb big (pos + 1) ≡ false = ground arith in
      let b : ltb big (pos + (1 + length comp) + 2) ≡ false = ground arith in
      rw
        (
          a,
          at-field pre comp (counted exts) pos e,
          b,
          at_behind pre comp (counted exts) pos e 0 (pos + (1 + length comp)) (omega arith),
          at_behind pre comp (counted exts) pos e 1 (pos + (1 + length comp) + 1) (omega arith),
        )
        (unfold at in rw (be16-parts (length exts)) refl)

module _ (pre ciphers comp exts : Bytes) (pos : ℕ) (e : pos ≡ length pre) where
  behind_ciphers : Bytes
  behind_ciphers = (length comp ∷ comp) ++ counted exts

  skip_ciphers-encoded :
      skip_ciphers (pre ++ (counted ciphers ++ behind_ciphers)) pos
      ≡ ok (pos + (2 + length ciphers) + (1 + length comp) + 2, length exts)
  unfolding skip_ciphers behind_ciphers
  skip_ciphers-encoded =
      let t : Bytes = counted ciphers ++ behind_ciphers in
      let big : ℕ = length (pre ++ t) in
      let a : ltb big (pos + 2) ≡ false = ground (arith, length-append {0} pre t) in
      rw (a, at-append pre t 0 pos (omega arith), at-append pre t 1 (pos + 1) (omega arith))
        (unfold at in
          rw (be16-parts (length ciphers)) (
            subst
              (λ u.
                skip_compression u (pos + (2 + length ciphers))
                ≡ ok (pos + (2 + length ciphers) + (1 + length comp) + 2, length exts))
              (append_assoc pre (counted ciphers) behind_ciphers)
              (skip_compression-encoded (pre ++ counted ciphers) comp exts _
                (omega (arith, length-append {0} pre (counted ciphers))))))

module _ (opening session ciphers comp exts : Bytes) (long : length opening ≡ 37) where
  unfoldable pub behind_session : Bytes
  behind_session = counted ciphers ++ ((length comp ∷ comp) ++ counted exts)

  unfoldable pub handshake : Bytes
  handshake = (0x01 ∷ opening) ++ ((length session ∷ session) ++ behind_session)

  pub skip_to_extensions-encoded :
      skip_to_extensions handshake
      ≡ ok (38 + (1 + length session) + (2 + length ciphers) + (1 + length comp) + 2, length exts)
  unfolding skip_to_extensions handshake behind_session field behind_ciphers
  skip_to_extensions-encoded =
      let pre : Bytes = 0x01 ∷ opening in
      let a : ltb (length handshake) (38 + 1) ≡ false =
        ground (arith, length-field pre session behind_session 38 (omega arith)) in
      rw (a, at-field pre session behind_session 38 (omega arith))
        (subst
          (λ u.
            skip_ciphers u (38 + (1 + length session))
            ≡ ok (
              38 + (1 + length session) + (2 + length ciphers) + (1 + length comp) + 2,
              length exts,
            ))
          (append_assoc pre (length session ∷ session) behind_session)
          (skip_ciphers-encoded (pre ++ (length session ∷ session)) ciphers comp exts _
            (omega (arith, length-append {0} pre (length session ∷ session)))))

  -- Behind the parts that are skipped stand the extensions.
  pub slice_from-encoded :
      slice_from handshake
        (38 + (1 + length session) + (2 + length ciphers) + (1 + length comp) + 2)
      ≡ ok exts
  unfolding handshake behind_session
  slice_from-encoded =
      let pre : Bytes = 0x01 ∷ opening in
      let f1 : Bytes = length session ∷ session in
      let f2 : Bytes = counted ciphers in
      let f3 : Bytes = length comp ∷ comp in
      let t3 : Bytes = f3 ++ counted exts in
      let n : ℕ = 38 + (1 + length session) + (2 + length ciphers) + (1 + length comp) + 2 in
      let regroup : n ≡ length pre + (length f1 + (length f2 + (length f3 + 2))) = omega arith in
      let fits : n ≤ length (pre ++ (f1 ++ (f2 ++ t3))) = omega (
        arith,
        length-append {0} pre (f1 ++ (f2 ++ t3)),
        length-append {0} f1 (f2 ++ t3),
        length-append {0} f2 t3,
        length-append {0} f3 (counted exts),
      ) in
      slice_from-ok (pre ++ (f1 ++ (f2 ++ t3))) n fits
      ∙ ap ok (
          rw (
            regroup,
            drop-append_add pre (f1 ++ (f2 ++ t3)) (length f1 + (length f2 + (length f3 + 2))),
            drop-append_add f1 (f2 ++ t3) (length f2 + (length f3 + 2)),
            drop-append_add f2 t3 (length f3 + 2),
            drop-append_add f3 (counted exts) 2,
          ))
