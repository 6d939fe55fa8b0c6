-- ===== src/Limiter/Pipelines.antt =====
-- Any number of requests share one limiter: each is admitted or refused on arrival, and an
-- admitted one releases its slot when it finishes (the `finally` of `ingest_audit_report`).
use highthroughputingestion.Base.{
  ℕ, ◌≤◌, ◌≡◌, refl, true, false, List, [], ◌∷◌, ◌++◌, arith, length,
}
use highthroughputingestion.Base.{length-append, ◌*◌, ◌∙◌, ap}
use highthroughputingestion.Float.{Float, IsIeee, of_ℕ, exact_limit}
use highthroughputingestion.Limiter.{Limiter, new_limiter, acquire, release}
use highthroughputingestion.Limiter.Bounds.{
  IsValid, acquire-IsValid, release-IsValid, new_limiter-IsValid,
}
use highthroughputingestion.Limiter.Admission.{acquire_bounded, acquire_refuses}

-- The limiter and the requests that hold a slot.
pub record Pipelines (F : Float) : Type 0 where
  pub limiter : Limiter F
  pub active : List ℕ

pub data Step (F : Float) : Pipelines F → Pipelines F → Type 0 where
  admit :
      (s : Pipelines F) (id : ℕ)
      → (acquire F s.limiter).0.0 ≡ true
      → Step F s (record { limiter = (acquire F s.limiter).1; active = id ∷ s.active })
  refuse :
      (s : Pipelines F)
      → (acquire F s.limiter).0.0 ≡ false
      → Step F s (record { limiter = (acquire F s.limiter).1; active = s.active })
  finish :
      (s : Pipelines F) (id : ℕ) (before after : List ℕ) (rtt : F.Carrier)
      → s.active ≡ before ++ (id ∷ after)
      → Step F s (record { limiter = release F rtt s.limiter; active = before ++ after })

pub data Reach {F : Float} (s : Pipelines F) : Pipelines F → Type 0 where
  here : Reach s s
  next : {t u : Pipelines F} → Reach s t → Step F t u → Reach s u

-- The counter is the number of slots that are held, and fits under the upper limit.
pub record IsCounted {F : Float} (cap : ℕ) (s : Pipelines F) : Type 0 where
  pub valid : IsValid s.limiter
  pub capacity : s.limiter.max_limit ≡ cap
  pub counted : s.limiter.in_flight ≡ length s.active
  pub bounded : length s.active ≤ cap

module _ {F : Float} (I : IsIeee F) where
  max_limit-acquire : (l : Limiter F) → (acquire F l).1.max_limit ≡ l.max_limit
  unfolding acquire
  max_limit-acquire l = ground arith

  pub Step-IsCounted :
      {cap : ℕ} {s t : Pipelines F} → IsCounted cap s → Step F s t → IsCounted cap t
  unfolding release
  Step-IsCounted c (admit s id ok) = record {
    valid = acquire-IsValid I c.valid;
    capacity = max_limit-acquire s.limiter ∙ c.capacity;
    counted = omega (arith, acquire_bounded I s.limiter c.valid ok);
    bounded = omega (arith, acquire_bounded I s.limiter c.valid ok);
  }
  Step-IsCounted c (refuse s full) =
      let (d, same, _) = acquire_refuses I s.limiter full in rw same c
  Step-IsCounted c (finish s id before after rtt split) = record {
    valid = release-IsValid I rtt c.valid;
    capacity = c.capacity;
    counted =
        omega
          (arith, length-append before (id ∷ after), length-append before after, ap length split);
    bounded =
        omega
          (arith, length-append before (id ∷ after), length-append before after, ap length split);
  }

  Reach-IsCounted : {cap : ℕ} {s t : Pipelines F} → IsCounted cap s → Reach s t → IsCounted cap t
  Reach-IsCounted c here = c
  Reach-IsCounted c (next r st) = Step-IsCounted (Reach-IsCounted c r) st

  -- From a fresh limiter whose settings are usable (twice the lower limit is at most the upper one,
  -- which is at most 2 ^ 53; alpha is not negative, and beta is at most 1), in every reachable state the counter is the number of requests that hold a slot, these are at
  -- most the upper limit, and the ceiling lies between the limits.
  pub pipelines-IsCounted :
      (low high : ℕ) (target alpha beta : F.Carrier) {s : Pipelines F}
      → low * 2 ≤ high
      → high ≤ exact_limit
      → F.le (of_ℕ F 0) alpha ≡ true
      → F.le beta (of_ℕ F 1) ≡ true
      → Reach (record { limiter = new_limiter F low high target alpha beta; active = [] }) s
      → IsCounted high s
  unfolding new_limiter
  pipelines-IsCounted low high target alpha beta room small up down r =
      Reach-IsCounted
        (record {
          valid = new_limiter-IsValid I low high target alpha beta room small up down;
          capacity = refl;
          counted = refl;
          bounded = omega arith;
        })
        r
