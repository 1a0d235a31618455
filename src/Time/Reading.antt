-- ===== src/Time/Reading.antt =====
-- TimeOfDay.Parse computes a direct reading of the text.
use provider_exoscale.Prelude.{
  Bool-cases, ◌==◌, ℕ, ◌+◌, ◌*◌, ◌-◌, ◌<◌, true, false, ◌&&◌, ◌≡◌, refl, List, [], ◌∷◌, Option,
  none, some, String, msg, if◌then◌else◌, arith, Option-cases, eq_iff, ◌≢◌, inl, inr,
}
use provider_exoscale.Prelude.Int.{pos}
use provider_exoscale.Prelude.Text.{codes}
use provider_exoscale.Time.{TimeOfDay, Parsed, failed, parse, parse_codes, fill_parts, parse_int}
use provider_exoscale.Time.Laws.{is_digit, is_tail, is_hour, expected_groups, find_submatch_lem}

abbrev pub two_digit_value : ℕ → ℕ → ℕ
two_digit_value a b = (a - b'0') * 10 + (b - b'0')

-- "h:mm:ss" or "hh:mm:ss", read off the bytes: hours below 24, minutes and seconds below 60.
abbrev pub clock_time : List ℕ → Option (ℕ × ℕ × ℕ)
clock_time (h ∷ c1 ∷ m1 ∷ m2 ∷ c2 ∷ s1 ∷ s2 ∷ []) =
    if is_digit h && is_tail c1 m1 m2 c2 s1 s2
    then some (h - b'0', two_digit_value m1 m2, two_digit_value s1 s2)
    else none
clock_time (h1 ∷ h2 ∷ c1 ∷ m1 ∷ m2 ∷ c2 ∷ s1 ∷ s2 ∷ []) =
    if is_hour h1 h2 && is_tail c1 m1 m2 c2 s1 s2
    then some (two_digit_value h1 h2, two_digit_value m1 m2, two_digit_value s1 s2)
    else none
clock_time _ = none

parse_int-one : (a : ℕ) → is_digit a ≡ true → parse_int (a ∷ []) ≡ (pos (a - b'0'), false)
unfolding parse_int
parse_int-one a h = ground arith

parse_int-two :
    (a b : ℕ)
    → is_digit a ≡ true
    → is_digit b ≡ true
    → parse_int (a ∷ b ∷ []) ≡ (pos (two_digit_value a b), false)
unfolding parse_int
parse_int-two a b h k = ground arith

-- The three groups that the pattern finds fill hour, minute and second.
fill_parts-groups :
    (h : List ℕ) (v m1 m2 s1 s2 : ℕ)
    → parse_int h ≡ (pos v, false)
    → is_digit m1 && is_digit m2 && (is_digit s1 && is_digit s2) ≡ true
    → fill_parts 0 (pos 0, pos 0, pos 0) (h ∷ (m1 ∷ m2 ∷ []) ∷ (s1 ∷ s2 ∷ []) ∷ [])
      ≡ (pos v, pos (two_digit_value m1 m2), pos (two_digit_value s1 s2), none)
unfolding fill_parts
fill_parts-groups h v m1 m2 s1 s2 e d =
    rw
      (
        e,
        parse_int-two m1 m2 (ground arith) (ground arith),
        parse_int-two s1 s2 (ground arith) (ground arith),
      )
      refl

abbrev pub reading : TimeOfDay → Option (ℕ × ℕ × ℕ) → Parsed
reading t (some (h, m, s)) = (pos h, pos m, pos s, none)
reading t none = failed (msg "invalid format for time of day (hh:mm:ss): %s" (t ∷ []))

parse_codes-seven :
    (t : String) (a b c d e f g : ℕ)
    → let s = a ∷ b ∷ c ∷ d ∷ e ∷ f ∷ g ∷ [] in parse_codes t s ≡ reading t (clock_time s)
unfolding parse_codes expected_groups
parse_codes-seven t a b c d e f g = ground (
  arith,
  find_submatch_lem (a ∷ b ∷ c ∷ d ∷ e ∷ f ∷ g ∷ []),
  fill_parts-groups (a ∷ []) (a - b'0') c d f g,
  parse_int-one a,
)

parse_codes-eight :
    (t : String) (a b c d e f g h : ℕ)
    → let s = a ∷ b ∷ c ∷ d ∷ e ∷ f ∷ g ∷ h ∷ [] in parse_codes t s ≡ reading t (clock_time s)
unfolding parse_codes expected_groups
parse_codes-eight t a b c d e f g h = ground (
  arith,
  find_submatch_lem (a ∷ b ∷ c ∷ d ∷ e ∷ f ∷ g ∷ h ∷ []),
  fill_parts-groups (a ∷ b ∷ []) (two_digit_value a b) d e g h,
  parse_int-two a b,
)

parse_codes-reading : (t : String) (s : List ℕ) → parse_codes t s ≡ reading t (clock_time s)
unfolding parse_codes expected_groups
parse_codes-reading t [] = ground (arith, find_submatch_lem [])
parse_codes-reading t (a ∷ []) = ground (arith, find_submatch_lem (a ∷ []))
parse_codes-reading t (a ∷ b ∷ []) = ground (arith, find_submatch_lem (a ∷ b ∷ []))
parse_codes-reading t (a ∷ b ∷ c ∷ []) = ground (arith, find_submatch_lem (a ∷ b ∷ c ∷ []))
parse_codes-reading t (a ∷ b ∷ c ∷ d ∷ []) = ground (arith, find_submatch_lem (a ∷ b ∷ c ∷ d ∷ []))
parse_codes-reading t (a ∷ b ∷ c ∷ d ∷ e ∷ []) =
    ground (arith, find_submatch_lem (a ∷ b ∷ c ∷ d ∷ e ∷ []))
parse_codes-reading t (a ∷ b ∷ c ∷ d ∷ e ∷ f ∷ []) =
    ground (arith, find_submatch_lem (a ∷ b ∷ c ∷ d ∷ e ∷ f ∷ []))
parse_codes-reading t (a ∷ b ∷ c ∷ d ∷ e ∷ f ∷ g ∷ []) = parse_codes-seven t a b c d e f g
parse_codes-reading t (a ∷ b ∷ c ∷ d ∷ e ∷ f ∷ g ∷ h ∷ []) = parse_codes-eight t a b c d e f g h
parse_codes-reading t (a ∷ b ∷ c ∷ d ∷ e ∷ f ∷ g ∷ h ∷ i ∷ s) =
    ground (arith, find_submatch_lem (a ∷ b ∷ c ∷ d ∷ e ∷ f ∷ g ∷ h ∷ i ∷ s))

-- Parse is a direct reading of the text: "h:mm:ss" and "hh:mm:ss" give the three numbers, an empty
-- text and any other text give -1 three times and an error.
pub parse-reading :
    (t : TimeOfDay)
    → parse t ≡ (
        if t == ""
        then failed (msg "time cannot be empty" [])
        else reading t (clock_time (codes t)))
unfolding parse
parse-reading t = ground (arith, parse_codes-reading t (codes t))

parse_of_clock :
    (t : TimeOfDay) {h m s : ℕ}
    → clock_time (codes t) ≡ some (h, m, s)
    → parse t ≡ (pos h, pos m, pos s, none)
parse_of_clock t q = elim (Bool-cases (t == "")) [
  | inl e ↦ cc (rw ((eq_iff t "").0 e) at q)
  | inr n ↦ ground (arith, parse-reading t)
]

not_failed : (t : TimeOfDay) → clock_time (codes t) ≡ none → (parse t).3 ≢ none
not_failed t n e = ground (arith, parse-reading t)

clock_time_bounds :
    (s : List ℕ) {h m n : ℕ} → clock_time s ≡ some (h, m, n) → (h < 24) × (m < 60) × (n < 60)
clock_time_bounds (a ∷ b ∷ c ∷ d ∷ e ∷ f ∷ g ∷ []) q = ground arith
clock_time_bounds (a ∷ b ∷ c ∷ d ∷ e ∷ f ∷ g ∷ h ∷ []) q = ground arith
clock_time_bounds _ q = cc

-- Where Parse reports no error, the hour is below 24 and the minute and the second are below 60.
pub parse_in_range :
    (t : TimeOfDay)
    → (parse t).3 ≡ none
    → (h : ℕ) × (m : ℕ) × (s : ℕ) × (parse t ≡ (pos h, pos m, pos s, none))
      × (h < 24)
      × (m < 60)
      × (s < 60)
parse_in_range t e = elim (Option-cases (clock_time (codes t))) [
  | inl n ↦ absurd (not_failed t n e)
  | inr ((h, m, s), q) ↦
      let (below_h, below_m, below_s) = clock_time_bounds (codes t) q in
      (h, m, s, parse_of_clock t q, below_h, below_m, below_s)
]
