-- ===== src/Sni/Tests.antt =====
-- Records that hold a server's name, and some that do not.
use lazyfwd.Base.{◌≡◌, refl, true, [], ◌∷◌, codes, ok, err}
use lazyfwd.Sni.{
  record_too_short, at, slice_from, slice, validate_tls_handshake, skip_to_extensions, read_name,
  scan_extension, find_sni_from, find_sni, extract_sni,
}
use lazyfwd.Sni.Safe.{is_proper, extract_sni-proper}
use lazyfwd.Sni.Hello.{Hello, encode_record}
use lazyfwd.Sni.Sample.{hello_for, hello_for-IsHello}
use lazyfwd.Sni.RoundTrip.{extract_sni-encode}

abbrev hello : Hello
hello = hello_for (codes "app.localhost")

extract_sni-encode_example : extract_sni (encode_record hello) ≡ ok (codes "app.localhost")
extract_sni-encode_example = extract_sni-encode hello (hello_for-IsHello (codes "app.localhost"))

extract_sni-proper_example :
    is_proper (extract_sni (22 ∷ 3 ∷ 1 ∷ 0 ∷ 4 ∷ 1 ∷ 0 ∷ 0 ∷ 0 ∷ [])) ≡ true
extract_sni-proper_example = extract_sni-proper (22 ∷ 3 ∷ 1 ∷ 0 ∷ 4 ∷ 1 ∷ 0 ∷ 0 ∷ 0 ∷ [])

short_refused : extract_sni (22 ∷ 3 ∷ 1 ∷ 0 ∷ []) ≡ err record_too_short
unfolding extract_sni validate_tls_handshake
short_refused = refl

encoded_read : extract_sni (encode_record hello) ≡ ok (codes "app.localhost")
unfolding extract_sni validate_tls_handshake at slice_from slice skip_to_extensions read_name
    scan_extension find_sni_from find_sni encode_record
encoded_read = refl
