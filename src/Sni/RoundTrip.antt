-- ===== src/Sni/RoundTrip.antt =====
-- The name of an encoded ClientHello is found again.
use lazyfwd.Base.{ℕ, ◌≤◌, ◌≡◌, ◌∷◌, ◌++◌, arith, Bytes, length, length-append, ok}
use lazyfwd.Sni.{at, validate_tls_handshake, extract_sni}
use lazyfwd.Sni.Safe.{slice_from-ok}
use lazyfwd.Sni.Hello.{Hello, IsHello, hello_extensions, encode_session, encode_record}
use lazyfwd.Sni.Extensions.{be16-parts, find_sni-encoded}
use lazyfwd.Sni.Fields.{
  counted, behind_session, handshake, skip_to_extensions-encoded, slice_from-encoded,
}

validate-encoded :
    (b : Bytes) (v w : ℕ)
    → 4 ≤ length (0x01 ∷ b)
    → let h : Bytes = 0x01 ∷ b in validate_tls_handshake (0x16 ∷ v ∷ w ∷ counted h) ≡ ok h
unfolding validate_tls_handshake at
validate-encoded b v w k =
    let h : Bytes = 0x01 ∷ b in
    ground (arith, slice_from-ok (0x16 ∷ v ∷ w ∷ counted h) 5, be16-parts (length h))

-- The name that a well-formed ClientHello carries is the name that is extracted, whatever
-- extensions of other types stand before it and whatever stands behind it.
pub extract_sni-encode : (h : Hello) → IsHello h → extract_sni (encode_record h) ≡ ok h.name
unfolding extract_sni encode_record handshake behind_session
extract_sni-encode h k =
    let exts : Bytes = hello_extensions h in
    rw
      (
        validate-encoded (h.opening ++ encode_session h) 3 1
            (omega (arith, k.opening_length, length-append {0} h.opening (encode_session h))),
        skip_to_extensions-encoded h.opening h.session_id h.ciphers h.compression exts
            k.opening_length,
        slice_from-encoded h.opening h.session_id h.ciphers h.compression exts k.opening_length,
      )
      (find_sni-encoded h k)
