-- ===== src/Mapper/Versions.antt =====
-- operator/mapper/dbaas.go: CompareMajorVersion. github.com/hashicorp/go-version is a parameter.
use provider_exoscale.Prelude.{
  ℕ, String, Bool, List, [], ◌∷◌, Result, ok, panic, index_range, ◌>>=◌,
}
use provider_exoscale.Prelude.Tests

pub record VersionLib : Type 1 where
  pub Version : Type 0
  pub Constraint : Type 0
  pub new_version : String → Result Version
  pub segments : Version → List ℕ
  pub show : Version → String
  pub greater_than : Version → Version → Bool
  pub new_constraint : String → Result Constraint
  pub check : Constraint → Version → Bool

-- s[0].
abbrev head : List ℕ → Result ℕ
head [] = panic index_range
head (n ∷ ns) = ok n

module _ (lib : VersionLib) where
  unfoldable pub compare_major_version : String → String → Result Bool
  compare_major_version a b = do
    va ← lib.new_version a
    vb ← lib.new_version b
    ma ← head (lib.segments va)
    mb ← head (lib.segments vb)
    ok (Tests.◌==◌ ma mb)
