-- ===== src/Time.antt =====
-- apis/exoscale/v1/dbaas_types.go: TimeOfDay and its Parse, over Go's regexp and strconv.
pub mod Regex
pub mod Format
pub mod Laws
pub mod Reading
pub mod RoundTrip
use provider_exoscale.Prelude.{
  ℕ, zero, suc, ◌+◌, ◌*◌, ◌-◌, ◌^◌, String, Bool, true, false, ◌&&◌, ◌||◌, List, [], ◌∷◌, Option,
  none, some, Error, msg, if◌then◌else◌, leb, ltb, length, ◌==◌ as str_eq,
}
use provider_exoscale.Prelude.Int.{ℤ, pos, negsuc}
use provider_exoscale.Prelude.Tests.{◌==◌}
use provider_exoscale.Prelude.Text.{codes}
use provider_exoscale.Time.Regex.{Re, byte_in, byte, opt, alt, seq, group, find_submatch}

-- type TimeOfDay string.
abbrev pub TimeOfDay : Type 0
TimeOfDay = String

-- The parts of "^([0-1]?[0-9]|2[0-3]):([0-5][0-9]):([0-5][0-9])$"; find_submatch has the anchors.
abbrev pub hour_regex : Re
hour_regex =
    group (
      alt (seq (opt (byte_in b'0' b'1')) (byte_in b'0' b'9')) (seq (byte b'2') (byte_in b'0' b'3')))

abbrev pub sixty_regex : Re
sixty_regex = group (seq (byte_in b'0' b'5') (byte_in b'0' b'9'))

abbrev pub tail_regex : Re
tail_regex = seq (byte b':') (seq sixty_regex (seq (byte b':') sixty_regex))

abbrev pub time_of_day_regex : Re
time_of_day_regex = seq hour_regex tail_regex

-- strconv.ParseInt(s, 10, 64): the digits, read from the left.
unfoldable pub digits_value : ℕ → List ℕ → Option ℕ
digits_value acc [] = some acc
digits_value acc (c ∷ s) =
    let rest = digits_value (acc * 10 + (c - b'0')) s in
    if leb b'0' c && leb c b'9' then rest else none

abbrev pub max_int64 : ℕ
max_int64 = 2 ^ 63 - 1

-- The value and whether there was an error: -2^63 ≤ value ≤ 2^63 - 1, and 0 for a syntax error.
unfoldable pub parse_magnitude : Bool → List ℕ → ℤ × Bool
unfolding digits_value
parse_magnitude negative [] = (pos 0, true)
parse_magnitude negative (c ∷ s) = elim (digits_value 0 (c ∷ s)) [
  | none ↦ (pos 0, true)
  | some n ↦
      if negative
      then (if leb n 0
          then (pos 0, false)
          else if leb (n - 1) max_int64
          then (negsuc (n - 1), false)
          else (negsuc max_int64, true))
      else (if leb n max_int64 then (pos n, false) else (pos max_int64, true))
]

unfoldable pub parse_int : List ℕ → ℤ × Bool
unfolding parse_magnitude
parse_int [] = (pos 0, true)
parse_int (c ∷ s) =
    if c == b'-'
    then parse_magnitude true s
    else if c == b'+'
    then parse_magnitude false s
    else parse_magnitude false (c ∷ s)

-- hour, minute, second and err.
abbrev pub Parsed : Type 0
Parsed = ℤ × ℤ × ℤ × Option Error

abbrev pub failed : Error → Parsed
failed e = (negsuc 0, negsuc 0, negsuc 0, some e)

-- parts[i] = parsed.
abbrev set_part : ℕ → ℤ → ℤ × ℤ × ℤ → ℤ × ℤ × ℤ
set_part zero v (h, m, s) = (v, m, s)
set_part (suc zero) v (h, m, s) = (h, v, s)
set_part (suc (suc i)) v (h, m, s) = (h, m, v)

abbrev is_empty : List ℕ → Bool
is_empty [] = true
is_empty (c ∷ s) = false

-- The loop over arr[1:]; the pattern has three groups, so i stays below 3.
unfoldable pub fill_parts : ℕ → ℤ × ℤ × ℤ → List (List ℕ) → Parsed
fill_parts i (h, m, s) [] = (h, m, s, none)
fill_parts i parts (part ∷ rest) =
    let (parsed, bad) = parse_int part in
    let more = fill_parts (suc i) (set_part i parsed parts) rest in
    if bad && (if is_empty part then false else true)
    then failed (msg "invalid time given for time of day: %w" [])
    else more

-- arr has the whole match at 0, and then the groups.
unfoldable pub parse_codes : String → List ℕ → Parsed
parse_codes t s = elim (find_submatch time_of_day_regex s) [
  | none ↦ failed (msg "invalid format for time of day (hh:mm:ss): %s" (t ∷ []))
  | some groups ↦
      if ltb (suc (length groups)) 3
      then failed (msg "invalid format for time of day (hh:mm:ss): %s" (t ∷ []))
      else fill_parts 0 (pos 0, pos 0, pos 0) groups
]

unfoldable pub parse : TimeOfDay → Parsed
unfolding parse_codes find_submatch fill_parts parse_int
parse t = if str_eq t "" then failed (msg "time cannot be empty" []) else parse_codes t (codes t)
