-- ===== src/Limiter/Windows.antt =====
-- What the limiter of src/integration/rate-limiter.js grants: one of what remains at a time, and in a
-- window no more than its limit.
use wait_a_minute_plugin.Base.{
  ℕ, suc, ◌+◌, ◌-◌, ◌≤◌, ◌<◌, ◌≡◌, refl, sym, subst, ◌↔◌, inl, inr, Bool, true, false, List, [],
  ◌∷◌, arith, leb, if◌then◌else◌, leb→le, length, In,
}
use wait_a_minute_plugin.Limiter.{Options, Limiter, create, try_acquire, remaining, used}

-- Under a positive window, a limiter that holds at most its limit grants a call exactly when some of
-- the limit remains. What is used and what remains then still make up the limit, what is used has
-- grown by one if the call was granted and not at all if it was refused.
pub try_acquire-remaining :
    (o : Options) (now : ℕ) (l : Limiter)
    → 0 < o.window_ms
    → l.count ≤ o.limit
    → let (granted, l') = try_acquire o now l in
      ((granted ≡ true) ↔ (0 < remaining o now l))
      × (used o now l' + remaining o now l' ≡ o.limit)
      × (used o now l' ≡ used o now l + (if granted then 1 else 0))
      × (l'.count ≤ o.limit)
unfolding try_acquire remaining used
try_acquire-remaining o now l some_ few =
    ((λ h. ground arith, λ h. ground arith), ground arith, ground arith, ground arith)

-- The number of calls granted, for calls at these times.
unfoldable pub grants : Options → Limiter → List ℕ → ℕ
grants o l [] = 0
grants o l (t ∷ ts) = (if (try_acquire o t l).0 then 1 else 0) + grants o (try_acquire o t l).1 ts

-- Calls within one window.
abbrev pub Within : Options → ℕ → List ℕ → Type 0
Within o start ts = (t : ℕ) → In t ts → t - start < o.window_ms

-- n calls granted of `len`, where `c` were granted before.
abbrev Granted : ℕ → ℕ → ℕ → ℕ → Type 0
Granted n len c limit =
    (n ≤ len) × (n + c ≤ limit) × (len + c ≤ limit → n ≡ len) × (limit ≤ len + c → n + c ≡ limit)

abbrev counted : ℕ → ℕ → Limiter
counted start c = record { window_start = start; count = c }

try_acquire_full :
    (o : Options) (start c t : ℕ)
    → t - start < o.window_ms
    → leb o.limit c ≡ true
    → try_acquire o t (counted start c) ≡ (false, counted start c)
unfolding try_acquire
try_acquire_full o start c t inside e = ground arith

try_acquire_free :
    (o : Options) (start c t : ℕ)
    → t - start < o.window_ms
    → leb o.limit c ≡ false
    → try_acquire o t (counted start c) ≡ (true, counted start (suc c))
unfolding try_acquire
try_acquire_free o start c t inside e = ground arith

grants-Granted :
    (o : Options) (start c : ℕ) (ts : List ℕ)
    → c ≤ o.limit
    → Within o start ts
    → Granted (grants o (counted start c) ts) (length ts) c o.limit
unfolding grants
grants-Granted o start c [] few w = (omega arith, omega arith, λ _. refl, λ h. omega arith)
grants-Granted o start c (t ∷ ts) few w =
    one (leb o.limit c) refl (grants-Granted o start c ts few later)
      (λ h. grants-Granted o start (suc c) ts h later)
  where
    later : Within o start ts
    later x m = w x (inr m)

    one :
        (b : Bool)
        → leb o.limit c ≡ b
        → Granted (grants o (counted start c) ts) (length ts) c o.limit
        → (suc c ≤ o.limit
            → Granted (grants o (counted start (suc c)) ts) (length ts) (suc c) o.limit)
        → (let r = try_acquire o t (counted start c) in
            Granted ((if r.0 then 1 else 0) + grants o r.1 ts) (suc (length ts)) c o.limit)
    one true e (a, b, f, g) rest =
        subst (λ r. Granted ((if r.0 then 1 else 0) + grants o r.1 ts) (suc (length ts)) c o.limit)
          (sym (try_acquire_full o start c t (w t (inl refl)) e))
          (
            omega arith,
            omega arith,
            λ h. absurd (omega (arith, leb→le o.limit c e)),
            λ h. omega (arith, leb→le o.limit c e),
          )
    one false e _ rest =
        let room : suc c ≤ o.limit = ground arith in
        let (a, b, f, g) = rest room in
        subst (λ r. Granted ((if r.0 then 1 else 0) + grants o r.1 ts) (suc (length ts)) c o.limit)
          (sym (try_acquire_free o start c t (w t (inl refl)) e))
          (
            omega (arith, a),
            omega (arith, b),
            λ h. omega (arith, f (omega arith)),
            λ h. omega (arith, g (omega arith)),
          )

-- Of calls within one window from its start on, a fresh limiter grants all if they are at most its
-- limit, and else as many as its limit.
pub grants-limit :
    (o : Options) (start : ℕ) (ts : List ℕ)
    → Within o start ts
    → let g = grants o (create start) ts in
      (length ts ≤ o.limit → g ≡ length ts) × (o.limit ≤ length ts → g ≡ o.limit)
grants-limit o start ts w =
    let (_, _, all_, full) = grants-Granted o start 0 ts (omega arith) w in
    (λ h. all_ (omega arith), λ h. omega (arith, full (omega arith)))
