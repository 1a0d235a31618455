-- ===== src/Time/Laws.antt =====
-- What TimeOfDay.Parse accepts, against a direct reading of the text.
use provider_exoscale.Prelude.{
  ℕ, Bool, ◌&&◌, ◌||◌, ◌≡◌, refl, List, [], ◌∷◌, ◌++◌, ◌∙◌, Option, none, some, leb, if◌then◌else◌,
  arith,
}
use provider_exoscale.Prelude.Tests.{◌==◌}
use provider_exoscale.Time.{hour_regex, tail_regex, time_of_day_regex}
use provider_exoscale.Time.Regex.{Groups, match_re, at_end, find_submatch}

abbrev pub between : ℕ → ℕ → ℕ → Bool
between lo hi c = leb lo c && leb c hi

abbrev pub is_digit : ℕ → Bool
is_digit = between b'0' b'9'

-- ":mm:ss", as six bytes.
abbrev pub is_tail : ℕ → ℕ → ℕ → ℕ → ℕ → ℕ → Bool
is_tail c1 m1 m2 c2 s1 s2 =
    c1 == b':'
    && between b'0' b'5' m1
    && is_digit m2
    && (c2 == b':' && between b'0' b'5' s1 && is_digit s2)

-- "0" to "19", or "20" to "23".
abbrev pub is_hour : ℕ → ℕ → Bool
is_hour h1 h2 = (between b'0' b'1' h1 && is_digit h2) || (h1 == b'2' && between b'0' b'3' h2)

unfoldable pub expected_groups : List ℕ → Option Groups
expected_groups (h ∷ c1 ∷ m1 ∷ m2 ∷ c2 ∷ s1 ∷ s2 ∷ []) =
    if is_digit h && is_tail c1 m1 m2 c2 s1 s2
    then some ((h ∷ []) ∷ (m1 ∷ m2 ∷ []) ∷ (s1 ∷ s2 ∷ []) ∷ [])
    else none
expected_groups (h1 ∷ h2 ∷ c1 ∷ m1 ∷ m2 ∷ c2 ∷ s1 ∷ s2 ∷ []) =
    if is_hour h1 h2 && is_tail c1 m1 m2 c2 s1 s2
    then some ((h1 ∷ h2 ∷ []) ∷ (m1 ∷ m2 ∷ []) ∷ (s1 ∷ s2 ∷ []) ∷ [])
    else none
expected_groups _ = none

-- What follows the hour.
match_tail : List ℕ → Groups → Option Groups
match_tail s g = match_re tail_regex s g at_end

match_tail-five : (a b c d e : ℕ) (g : Groups) → match_tail (a ∷ b ∷ c ∷ d ∷ e ∷ []) g ≡ none
unfolding match_tail match_re
match_tail-five a b c d e g = ground arith

match_tail-six :
    (a b c d e f : ℕ) (g : Groups)
    → match_tail (a ∷ b ∷ c ∷ d ∷ e ∷ f ∷ []) g
      ≡ (if is_tail a b c d e f then some ((g ++ (b ∷ c ∷ []) ∷ []) ++ (e ∷ f ∷ []) ∷ []) else none)
unfolding match_tail match_re
match_tail-six a b c d e f g = ground arith

match_tail-long :
    (a b c d e f h : ℕ) (s : List ℕ) (g : Groups)
    → match_tail (a ∷ b ∷ c ∷ d ∷ e ∷ f ∷ h ∷ s) g ≡ none
unfolding match_tail match_re
match_tail-long a b c d e f h s g = ground arith

find_submatch-match_tail :
    (s : List ℕ) → find_submatch time_of_day_regex s ≡ match_re hour_regex s [] match_tail
unfolding find_submatch match_tail match_re
find_submatch-match_tail s = refl

hour_seven :
    (a b c d e f g : ℕ)
    → match_re hour_regex (a ∷ b ∷ c ∷ d ∷ e ∷ f ∷ g ∷ []) [] match_tail
      ≡ expected_groups (a ∷ b ∷ c ∷ d ∷ e ∷ f ∷ g ∷ [])
unfolding match_re expected_groups
hour_seven a b c d e f g = ground (
  arith,
  match_tail-five c d e f g ((a ∷ b ∷ []) ∷ []),
  match_tail-six b c d e f g ((a ∷ []) ∷ []),
)

hour_eight :
    (a b c d e f g h : ℕ)
    → match_re hour_regex (a ∷ b ∷ c ∷ d ∷ e ∷ f ∷ g ∷ h ∷ []) [] match_tail
      ≡ expected_groups (a ∷ b ∷ c ∷ d ∷ e ∷ f ∷ g ∷ h ∷ [])
unfolding match_re expected_groups
hour_eight a b c d e f g h = ground (
  arith,
  match_tail-six c d e f g h ((a ∷ b ∷ []) ∷ []),
  match_tail-long b c d e f g h [] ((a ∷ []) ∷ []),
)

pub find_submatch_lem : (s : List ℕ) → find_submatch time_of_day_regex s ≡ expected_groups s
unfolding find_submatch expected_groups
find_submatch_lem [] = refl
find_submatch_lem (a ∷ []) = ground arith
find_submatch_lem (a ∷ b ∷ []) = ground arith
find_submatch_lem (a ∷ b ∷ c ∷ []) = ground arith
find_submatch_lem (a ∷ b ∷ c ∷ d ∷ []) = ground arith
find_submatch_lem (a ∷ b ∷ c ∷ d ∷ e ∷ []) = ground arith
find_submatch_lem (a ∷ b ∷ c ∷ d ∷ e ∷ f ∷ []) = ground arith
find_submatch_lem (a ∷ b ∷ c ∷ d ∷ e ∷ f ∷ g ∷ []) =
    find_submatch-match_tail (a ∷ b ∷ c ∷ d ∷ e ∷ f ∷ g ∷ []) ∙ hour_seven a b c d e f g
find_submatch_lem (a ∷ b ∷ c ∷ d ∷ e ∷ f ∷ g ∷ h ∷ []) =
    find_submatch-match_tail (a ∷ b ∷ c ∷ d ∷ e ∷ f ∷ g ∷ h ∷ []) ∙ hour_eight a b c d e f g h
find_submatch_lem (a ∷ b ∷ c ∷ d ∷ e ∷ f ∷ g ∷ h ∷ i ∷ s) = ground arith
