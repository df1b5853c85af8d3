-- ===== src/Service/Bounds.antt =====
-- internal/service: the bounds that the services put on what a client asks for.
use scoreplay_media_api.Prelude.{ℕ, zero, suc, ◌≤◌, ◌≡◌, min, refl, arith, ltb, if◌then◌else◌}
use scoreplay_media_api.Service.{clamp_limit}
use scoreplay_media_api.Atoi.{ℤ, pos, negsuc}

clamped : (n : ℕ) → (if ltb 100 (suc n) then 100 else suc n) ≡ min (suc n) 100
clamped n = ground arith

-- The limit that is asked for, if it is positive, and 50 otherwise.
abbrev pub wanted : ℤ → ℕ
wanted (negsuc n) = 50
wanted (pos zero) = 50
wanted (pos (suc n)) = suc n

-- A page limit becomes 50 if it is not positive, and at most 100; so it lies between 1 and 100.
pub clamp_limit_bounds :
    (limit : ℤ)
    → (clamp_limit limit ≡ min (wanted limit) 100)
      × (1 ≤ clamp_limit limit)
      × (clamp_limit limit ≤ 100)
unfolding clamp_limit
clamp_limit_bounds (negsuc n) = (refl, omega arith, omega arith)
clamp_limit_bounds (pos zero) = (refl, omega arith, omega arith)
clamp_limit_bounds (pos (suc n)) = (clamped n, ground arith, ground arith)
