-- ===== src/CertCache/Tests.antt =====
-- A cache that is filled, and used again.
use lazyfwd.Base.{◌≡◌, refl, [], ◌∷◌, Bytes, bytes_beq, codes, arith, Result, ok}
use lazyfwd.GoMap.{lookup, insert, delete}
use lazyfwd.CertCache.{
  Cache, new_cache, find_cached, move_to_front, holds, remove, evict, push, add_cert,
  get_certificate,
}
use lazyfwd.CertCache.Elements.{view, element_of}
use lazyfwd.CertCache.Find.{IsWf, Refined}
use lazyfwd.CertCache.Refines.{ideal_get, add_cert-Refined, get_certificate-Refined}

-- A certificate is the name it is for.
abbrev make : Bytes → Result Bytes Bytes
make h = ok h

new_cache-IsWf : IsWf (new_cache {Cert = Bytes})
unfolding new_cache lookup element_of
new_cache-IsWf = record { differ = tt; agrees = λ h. refl; below = tt; bounded = omega arith }

abbrev warm : Cache Bytes
warm = (add_cert (codes "a") (codes "a") new_cache).1

warm-IsWf : IsWf warm
warm-IsWf = (add_cert-Refined (codes "a") (codes "a") new_cache new_cache-IsWf).wf

get_certificate-Refined_example :
    Refined
      (get_certificate make (λ d. d) (codes "b") warm)
      (ideal_get (ok (codes "b")) (codes "b") (view warm.lru_list) (view warm.lru_list))
get_certificate-Refined_example =
    get_certificate-Refined make (λ d. d) (codes "b") warm (λ d w. w) warm-IsWf

-- The second use of `a` moves it before `b`.
order_of_use :
    view (find_cached (codes "a") (get_certificate make (λ d. d) (codes "b") warm).1).1.lru_list
    ≡ (codes "a", codes "a") ∷ (codes "b", codes "b") ∷ []
unfolding get_certificate add_cert find_cached move_to_front holds remove evict push new_cache
    lookup insert delete bytes_beq
order_of_use = refl
