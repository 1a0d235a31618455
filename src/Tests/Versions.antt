-- ===== src/Tests/Versions.antt =====
-- Versions of databases: two of them, and what the lifecycles need of their order.
use Prim.Native.String.{◌++◌}
use provider_exoscale.Prelude.{
  String, Bool, true, false, not, ◌≡◌, refl, sym, ap, [], inr, msg, ok, err, ◌==◌, if◌then◌else◌,
}
use provider_exoscale.Mapper.Versions.{VersionLib}
use provider_exoscale.Dbaas.Lifecycle.{IsOrdered, AtMost}

-- Two versions, each of one number.
pub data Release : Type 0 where
  eight : Release
  nine : Release

abbrev number : Release → String
number eight = "8"
number nine = "9"

abbrev above : Release → Release → Bool
above nine eight = true
above nine nine = false
above eight w = false

abbrev pub releases : VersionLib
releases = record {
  Version = Release;
  Constraint = Release;
  new_version = λ s.
      if s == "8"
      then ok eight
      else (if s == "9" then ok nine else err (msg "malformed version" []));
  segments = λ v. [];
  show = number;
  greater_than = above;
  new_constraint = λ s.
      if s == "<= 8"
      then ok eight
      else (if s == "<= 9" then ok nine else err (msg "malformed constraint" []));
  check = λ c v. not (above v c);
}

above_trans : (a b c : Release) → above a b ≡ false → above b c ≡ false → above a c ≡ false
above_trans eight b c h k = refl
above_trans nine eight c h k = cc
above_trans nine nine c h k = k

check_sound :
    (v w c : Release)
    → releases.new_constraint ("<= " ++ number v) ≡ ok c
    → not (above w c) ≡ true
    → above w v ≡ false
check_sound nine eight c e h = refl
check_sound nine nine c e h = refl
check_sound eight eight c e h = refl
check_sound eight nine eight e h = cc
check_sound eight nine nine e h = cc

pub releases-IsOrdered : IsOrdered releases
releases-IsOrdered = record {
  not_greater_trans = above_trans;
  le_sound = check_sound;
  empty_malformed = λ v h. cc;
}

-- A version that reads as the text "8" is not above eight.
pub eight_AtMost : (v : String) → "8" ≡ v → AtMost releases eight v
eight_AtMost v same = inr (eight, ap releases.new_version (sym same), refl)
