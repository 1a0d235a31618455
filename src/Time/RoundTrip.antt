-- ===== src/Time/RoundTrip.antt =====
-- A printed time of day is read back.
use provider_exoscale.Prelude.{
  ℕ, zero, suc, ◌<◌, Bool, true, false, ◌&&◌, ◌≡◌, refl, none, some, arith,
}
use provider_exoscale.Prelude.Int.{pos, int_eq, int_eq_iff}
use provider_exoscale.Time.{Parsed, parse}
use provider_exoscale.Time.Format.{time_text}

-- A test that holds of every number under a bound.
holds_under : (ℕ → Bool) → ℕ → Bool
holds_under test zero = true
holds_under test (suc bound) = holds_under test bound && test bound

holds_at :
    (test : ℕ → Bool) (bound i : ℕ) → i < bound → holds_under test bound ≡ true → test i ≡ true
unfolding holds_under
holds_at test zero i small held = absurd (omega arith)
holds_at test (suc bound) i small held = ground (arith, holds_at test bound i)

gives : ℕ → ℕ → Parsed → Bool
gives h m (a, b, c, none) = int_eq a (pos h) && int_eq b (pos m) && int_eq c (pos 0)
gives h m (a, b, c, some e) = false

gives_sound : (h m : ℕ) (r : Parsed) → gives h m r ≡ true → r ≡ (pos h, pos m, pos 0, none)
unfolding gives
gives_sound h m (a, b, c, none) e =
    ground (arith, int_eq_iff a (pos h), int_eq_iff b (pos m), int_eq_iff c (pos 0))
gives_sound h m (a, b, c, some x) e = cc

check : ℕ → ℕ → Bool
check h m = gives h m (parse (time_text (pos h) (pos m)))

table : holds_under (λ h. holds_under (check h) 60) 24 ≡ true
unfolding holds_under check gives parse time_text
table = refl

-- "%02d:%02d:00" of an hour below 24 and a minute below 60 is parsed to them and second 0.
pub parse-time_text :
    (h m : ℕ) → h < 24 → m < 60 → parse (time_text (pos h) (pos m)) ≡ (pos h, pos m, pos 0, none)
unfolding check
parse-time_text h m p q =
    gives_sound h m _
      (holds_at (check h) 60 m q (holds_at (λ k. holds_under (check k) 60) 24 h p table))
