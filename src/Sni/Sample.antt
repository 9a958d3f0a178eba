-- ===== src/Sni/Sample.antt =====
-- A ClientHello with a name, on which the tests run.
use lazyfwd.Base.{refl, [], ◌∷◌, Bytes}
use lazyfwd.Sni.Hello.{Hello, IsHello}

abbrev opening : Bytes
opening =
    0 ∷ 0 ∷ 90 ∷ 3 ∷ 3 ∷ 1 ∷ 2 ∷ 3 ∷ 4 ∷ 5 ∷ 6 ∷ 7 ∷ 8 ∷ 9 ∷ 10 ∷ 11 ∷ 12 ∷ 13 ∷ 14 ∷ 15 ∷ 16 ∷ 17
    ∷ 18 ∷ 19 ∷ 20 ∷ 21 ∷ 22 ∷ 23 ∷ 24 ∷ 25 ∷ 26 ∷ 27 ∷ 28 ∷ 29 ∷ 30 ∷ 31 ∷ 32 ∷ []

-- One extension of another type stands before the name.
abbrev pub hello_for : Bytes → Hello
hello_for name = record {
  opening = opening;
  session_id = 7 ∷ 7 ∷ [];
  ciphers = 0x13 ∷ 0x01 ∷ [];
  compression = 0 ∷ [];
  before = record { kind_hi = 0; kind_lo = 23; body = 1 ∷ 2 ∷ [] } ∷ [];
  name = name;
  after = 0 ∷ 16 ∷ 0 ∷ 0 ∷ [];
}

pub hello_for-IsHello : (name : Bytes) → IsHello (hello_for name)
hello_for-IsHello name = record { opening_length = refl; before_others = (cc, tt) }
