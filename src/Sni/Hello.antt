-- ===== src/Sni/Hello.antt =====
-- An independent description of the bytes that `extractSNI` reads: a TLS record with one
-- ClientHello, whose extensions may stand before and behind the server's name.
use lazyfwd.Base.{ℕ, ◌+◌, ◌/◌, ◌%◌, ◌≡◌, ◌≢◌, List, [], ◌∷◌, ◌++◌, Bytes, length, All}
use lazyfwd.Sni.{be16}

-- A number in two bytes, the high one first.
abbrev pub be2 : ℕ → Bytes
be2 n = n / 256 ∷ n % 256 ∷ []

pub record Extension : Type 0 where
  pub kind_hi : ℕ
  pub kind_lo : ℕ
  pub body : Bytes

abbrev pub encode_extension : Extension → Bytes
encode_extension x = x.kind_hi ∷ x.kind_lo ∷ length x.body / 256 ∷ length x.body % 256 ∷ x.body

abbrev pub encode_extensions : List Extension → Bytes
encode_extensions [] = []
encode_extensions (x ∷ xs) = encode_extension x ++ encode_extensions xs

-- The list of one name: its length, the type 0 of a host name, the name's length, the name.
abbrev pub name_list : Bytes → Bytes
name_list name =
    (3 + length name) / 256
    ∷ (3 + length name) % 256
    ∷ 0
    ∷ length name / 256
    ∷ length name % 256
    ∷ name

abbrev pub server_name : Bytes → Extension
server_name name = record { kind_hi = 0; kind_lo = 0; body = name_list name }

-- The parts of a ClientHello. `opening` holds its length, the version and the random.
pub record Hello : Type 0 where
  pub opening : Bytes
  pub session_id : Bytes
  pub ciphers : Bytes
  pub compression : Bytes
  pub before : List Extension
  pub name : Bytes
  pub after : Bytes

pub record IsHello (h : Hello) : Type 0 where
  pub opening_length : length h.opening ≡ 37
  pub before_others : All (λ x. be16 x.kind_hi x.kind_lo ≢ 0) h.before

abbrev pub hello_extensions : Hello → Bytes
hello_extensions h =
    encode_extensions h.before ++ (encode_extension (server_name h.name) ++ h.after)

abbrev pub encode_extension_list : Hello → Bytes
encode_extension_list h =
    length (hello_extensions h) / 256 ∷ length (hello_extensions h) % 256 ∷ hello_extensions h

abbrev pub encode_compression : Hello → Bytes
encode_compression h = length h.compression ∷ (h.compression ++ encode_extension_list h)

abbrev pub encode_ciphers : Hello → Bytes
encode_ciphers h =
    length h.ciphers / 256 ∷ length h.ciphers % 256 ∷ (h.ciphers ++ encode_compression h)

abbrev pub encode_session : Hello → Bytes
encode_session h = length h.session_id ∷ (h.session_id ++ encode_ciphers h)

abbrev pub encode_handshake : Hello → Bytes
encode_handshake h = (0x01 ∷ h.opening) ++ encode_session h

-- The record: its type, the version, its length.
unfoldable pub encode_record : Hello → Bytes
encode_record h =
    0x16
    ∷ 3
    ∷ 1
    ∷ length (encode_handshake h) / 256
    ∷ length (encode_handshake h) % 256
    ∷ encode_handshake h
