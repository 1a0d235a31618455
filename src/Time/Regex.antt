-- ===== src/Time/Regex.antt =====
-- The part of Go's regexp that TimeOfDay.Parse (apis/exoscale/v1/dbaas_types.go) uses: byte classes,
-- `?`, alternation, concatenation and groups, between `^` and `$`. Alternatives are tried from the
-- left and `?` takes a byte where it can, and the matcher goes back where the rest does not match.
use provider_exoscale.Prelude.{
  ℕ, ◌-◌, ◌&&◌, List, [], ◌∷◌, ◌++◌, Option, none, some, if◌then◌else◌, leb, length,
}
use provider_exoscale.Prelude.Lists.{take}

pub data Re : Type 0 where
  byte_in : ℕ → ℕ → Re
  opt : Re → Re
  alt : Re → Re → Re
  seq : Re → Re → Re
  group : Re → Re

abbrev pub byte : ℕ → Re
byte c = byte_in c c

-- The texts of the groups that have matched, in order.
abbrev pub Groups : Type 0
Groups = List (List ℕ)

abbrev or_else : Option Groups → Option Groups → Option Groups
or_else (some g) r = some g
or_else none r = r

-- What stands in `s` in front of its end `rest`.
abbrev consumed : List ℕ → List ℕ → List ℕ
consumed s rest = take (length s - length rest) s

abbrev step_byte : ℕ → ℕ → List ℕ → (List ℕ → Option Groups) → Option Groups
step_byte lo hi [] k = none
step_byte lo hi (c ∷ s) k = if leb lo c && leb c hi then k s else none

unfoldable pub match_re : Re → List ℕ → Groups → (List ℕ → Groups → Option Groups) → Option Groups
match_re (byte_in lo hi) s g k = step_byte lo hi s (λ rest. k rest g)
match_re (opt r) s g k = or_else (match_re r s g k) (k s g)
match_re (alt r q) s g k = or_else (match_re r s g k) (match_re q s g k)
match_re (seq r q) s g k = match_re r s g (λ rest g'. match_re q rest g' k)
match_re (group r) s g k = match_re r s g (λ rest g'. k rest (g' ++ consumed s rest ∷ []))

-- `$`.
abbrev pub at_end : List ℕ → Groups → Option Groups
at_end [] g = some g
at_end (c ∷ s) g = none

-- FindStringSubmatch of `^re$`: the groups, without the whole match.
unfoldable pub find_submatch : Re → List ℕ → Option Groups
unfolding match_re
find_submatch re s = match_re re s [] at_end
