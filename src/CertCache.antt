-- ===== src/CertCache.antt =====
-- internal/httpserver/tls_error_cert.go: the cache of certificates for error pages, a map from
-- hostnames to the elements of a list that is kept in the order of use. The making of a certificate
-- (crypto/x509) is an argument. An element of `container/list` is known by its number, as Go knows
-- it by its address.
pub mod Elements
pub mod Find
pub mod Refines
mod Tests
use lazyfwd.Base.{
  ℕ, suc, Bool, true, false, Option, none, some, List, [], ◌∷◌, Bytes, bytes_eq, length, leb,
  nat_beq, if◌then◌else◌, Result, ok, err,
}
use lazyfwd.GoMap.{GoMap, lookup, delete, insert}

abbrev pub max_cert_cache_size : ℕ
max_cert_cache_size = 1000

-- A `list.Element` with its `certCacheEntry`, which is never written again.
pub record Element (Cert : Type 0) : Type 0 where
  pub number : ℕ
  pub hostname : Bytes
  pub cert : Cert

-- `next` is the number of the next element to be made.
pub record Cache (Cert : Type 0) : Type 0 where
  pub cert_cache : GoMap Bytes (Element Cert)
  pub lru_list : List (Element Cert)
  pub next : ℕ

module _ {Cert : Type 0} where
  unfoldable pub new_cache : Cache Cert
  new_cache = record { cert_cache = []; lru_list = []; next = 0 }

  -- Is an element in the list?
  unfoldable pub holds : ℕ → List (Element Cert) → Bool
  holds n [] = false
  holds n (e ∷ l) = if nat_beq e.number n then true else holds n l

  -- `list.Remove`
  unfoldable pub remove : ℕ → List (Element Cert) → List (Element Cert)
  remove n [] = []
  remove n (e ∷ l) = let rest = remove n l in if nat_beq e.number n then l else e ∷ rest

  -- `list.MoveToFront`: an element that has left the list stays out.
  unfoldable pub move_to_front : Element Cert → List (Element Cert) → List (Element Cert)
  move_to_front e l = if holds e.number l then e ∷ remove e.number l else l

  -- `list.Back`
  unfoldable pub back : List (Element Cert) → Option (Element Cert)
  back [] = none
  back (e ∷ []) = some e
  back (e ∷ f ∷ l) = back (f ∷ l)

  found : Option (Element Cert) → Cache Cert → Option Cert × Cache Cert
  found none c = (none, c)
  found (some e) c = (some e.cert, record c { lru_list = move_to_front e c.lru_list })

  -- The first critical section of `GetCertificate`: a hit moves to the front.
  unfoldable pub find_cached : Bytes → Cache Cert → Option Cert × Cache Cert
  unfolding found
  find_cached hostname c = found (lookup c.cert_cache hostname) c

  dropped : Option (Element Cert) → Cache Cert → Cache Cert
  dropped none c = c
  dropped (some e) c = record c {
    cert_cache = delete c.cert_cache e.hostname;
    lru_list = remove e.number c.lru_list;
  }

  -- The least recently used entry goes where the cache is full.
  unfoldable pub evict : Cache Cert → Cache Cert
  unfolding dropped
  evict c = if leb max_cert_cache_size (length c.lru_list) then dropped (back c.lru_list) c else c

  unfoldable pub push : Bytes → Cert → Cache Cert → Cache Cert
  push hostname cert c =
      let e : Element Cert = record { number = c.next; hostname = hostname; cert = cert } in
      record {
        cert_cache = insert c.cert_cache hostname e;
        lru_list = e ∷ c.lru_list;
        next = suc c.next;
      }

  added : Bytes → Cert → Option Cert × Cache Cert → Cert × Cache Cert
  unfolding evict push
  added hostname cert (some old, c) = (old, c)
  added hostname cert (none, c) = (cert, push hostname cert (evict c))

  -- The second critical section: another goroutine may have added the hostname.
  unfoldable pub add_cert : Bytes → Cert → Cache Cert → Cert × Cache Cert
  unfolding added
  add_cert hostname cert c = added hostname cert (find_cached hostname c)

  returned : Cert × Cache Cert → Result Bytes Cert × Cache Cert
  returned (cert, c) = (ok cert, c)

  generated :
      (Cache Cert → Cache Cert)
      → Bytes
      → Result Bytes Cert
      → Option Cert × Cache Cert
      → Result Bytes Cert × Cache Cert
  unfolding returned
  generated others hostname made (some cert, c) = (ok cert, c)
  generated others hostname (err e) (none, c) = (err e, others c)
  generated others hostname (ok cert) (none, c) = returned (add_cert hostname cert (others c))

  -- `GetCertificate`. The certificate is made outside the lock: `others` is what other goroutines
  -- do to the cache in the meantime.
  unfoldable pub get_certificate :
      (Bytes → Result Bytes Cert)
      → (Cache Cert → Cache Cert)
      → Bytes
      → Cache Cert
      → Result Bytes Cert × Cache Cert
  unfolding generated
  get_certificate make others hostname c =
      generated others hostname (make hostname) (find_cached hostname c)
