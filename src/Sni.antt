-- ===== src/Sni.antt =====
-- internal/httpserver/tls_passthrough.go: `extractSNI`, which reads the server's name out of the
-- first record of a TLS connection. An index or a slice out of range is the error `panic`, so that
-- the absence of panics is a theorem; the loop over extensions runs on fuel, and `out_of_fuel`
-- says that it ran out.
pub mod Safe
pub mod Hello
pub mod Extensions
pub mod Fields
pub mod RoundTrip
pub mod Sample
mod Tests
use lazyfwd.Base.{
  ℕ, zero, suc, ◌+◌, ◌-◌, ◌*◌, Bool, true, false, not, ◌&&◌, Option, none, some, List, Bytes,
  length, get_elem?, take, drop, ltb, leb, nat_beq, if◌then◌else◌, Result, ok, err, ◌>>=◌, ◌>>◌,
  refuse,
}

pub data SniError : Type 0 where
  record_too_short not_handshake record_incomplete handshake_too_short not_client_hello : SniError
  no_session_id no_cipher_suites no_compression no_extensions : SniError
  sni_too_short sni_truncated sni_not_found : SniError
  panic out_of_fuel : SniError

-- `int(hi)<<8 | int(lo)`: of two bytes, which share no bit.
abbrev pub be16 : ℕ → ℕ → ℕ
be16 hi lo = hi * 256 + lo

-- `s[i]`
unfoldable pub at : Bytes → ℕ → Result SniError ℕ
at s i = elim (get_elem? s i) [ none ↦ err panic | some b ↦ ok b ]

-- `s[n:]`
unfoldable pub slice_from : Bytes → ℕ → Result SniError Bytes
slice_from s n = if leb n (length s) then ok (drop n s) else err panic

-- `s[lo:hi]`
unfoldable pub slice : Bytes → ℕ → ℕ → Result SniError Bytes
slice s lo hi =
    if leb lo hi && leb hi (length s) then ok (take (hi - lo) (drop lo s)) else err panic

-- `validateTLSHandshake`
unfoldable pub validate_tls_handshake : Bytes → Result SniError Bytes
validate_tls_handshake input = do
  refuse (ltb (length input) 5) record_too_short
  record_type ← at input 0
  refuse (not (nat_beq record_type 0x16)) not_handshake
  hi ← at input 3
  lo ← at input 4
  refuse (ltb (length input) (5 + be16 hi lo)) record_incomplete
  handshake ← slice_from input 5
  refuse (ltb (length handshake) 4) handshake_too_short
  kind ← at handshake 0
  refuse (not (nat_beq kind 0x01)) not_client_hello
  ok handshake

-- The length of the list of extensions stands at `pos`.
skip_compression : Bytes → ℕ → Result SniError (ℕ × ℕ)
skip_compression handshake pos = do
  refuse (ltb (length handshake) (pos + 1)) no_compression
  compression_len ← at handshake pos
  let pos' = pos + (1 + compression_len)
  refuse (ltb (length handshake) (pos' + 2)) no_extensions
  hi ← at handshake pos'
  lo ← at handshake (pos' + 1)
  ok (pos' + 2, be16 hi lo)

skip_ciphers : Bytes → ℕ → Result SniError (ℕ × ℕ)
unfolding skip_compression
skip_ciphers handshake pos = do
  refuse (ltb (length handshake) (pos + 2)) no_cipher_suites
  hi ← at handshake pos
  lo ← at handshake (pos + 1)
  skip_compression handshake (pos + (2 + be16 hi lo))

-- `skipToExtensions`: the header of 4 bytes, the version of 2 and the random of 32 come first.
unfoldable pub skip_to_extensions : Bytes → Result SniError (ℕ × ℕ)
unfolding skip_ciphers
skip_to_extensions handshake = do
  refuse (ltb (length handshake) (38 + 1)) no_session_id
  session_id_len ← at handshake 38
  skip_ciphers handshake (38 + (1 + session_id_len))

-- The name in the extension `extensions[pos : pos+len]`.
unfoldable pub read_name : Bytes → ℕ → ℕ → Result SniError Bytes
read_name extensions pos len = do
  ext ← slice extensions pos (pos + len)
  refuse (ltb (length ext) 5) sni_too_short
  hi ← at ext 3
  lo ← at ext 4
  refuse (ltb (length ext) (5 + be16 hi lo)) sni_truncated
  slice ext 5 (5 + be16 hi lo)

-- The body of the loop; `next` is the loop from another position, and its `break` ends in the
-- error behind the loop.
unfoldable pub scan_extension : (ℕ → Result SniError Bytes) → Bytes → ℕ → Result SniError Bytes
scan_extension next extensions pos = do
  type_hi ← at extensions pos
  type_lo ← at extensions (pos + 1)
  len_hi ← at extensions (pos + 2)
  len_lo ← at extensions (pos + 3)
  let pos' = pos + 4
  let len = be16 len_hi len_lo
  refuse (ltb (length extensions) (pos' + len)) sni_not_found
  if nat_beq (be16 type_hi type_lo) 0 then read_name extensions pos' len else next (pos' + len)

-- The loop of `findSNIInExtensions`, from a position on.
unfoldable pub find_sni_from : ℕ → Bytes → ℕ → ℕ → Result SniError Bytes
find_sni_from zero extensions ext_len pos = err out_of_fuel
find_sni_from (suc fuel) extensions ext_len pos =
    if leb (pos + 4) ext_len && leb (pos + 4) (length extensions)
    then scan_extension (find_sni_from fuel extensions ext_len) extensions pos
    else err sni_not_found

-- `findSNIInExtensions`: each round moves on by four bytes at least.
unfoldable pub find_sni : Bytes → ℕ → Result SniError Bytes
find_sni extensions ext_len = find_sni_from (suc (length extensions)) extensions ext_len 0

-- `extractSNI`
unfoldable pub extract_sni : Bytes → Result SniError Bytes
extract_sni input = do
  handshake ← validate_tls_handshake input
  (ext_start, ext_len) ← skip_to_extensions handshake
  extensions ← slice_from handshake ext_start
  find_sni extensions ext_len
