-- ===== src/Json.antt =====
-- JSON values as Go decodes them (map[string]interface{} and what it holds), comparison of such
-- values by `==`, and the raw JSON of a Kubernetes RawExtension (operator/mapper/alias.go, ToMap
-- and ToRawExtension). A float64 is its IEEE 754 bit pattern. The order of a `Fields` is the order
-- in which a `range` loop visits the map.
pub mod Laws
use Prim.Native.Nat.{ℕ, suc, ◌%◌, ◌^◌}
use provider_exoscale.Prelude.{
  String, Bool, true, false, ◌&&◌, ◌||◌, Option, none, some, Result, ok, err, panic, uncomparable,
  ◌==◌, if◌then◌else◌,
}
use provider_exoscale.Prelude.Int.{ℤ, int_eq}
use provider_exoscale.Prelude.Tests

mutual
  pub data Json : Type 0 where
    null : Json
    bool : Bool → Json
    int : ℤ → Json
    float : ℕ → Json
    str : String → Json
    arr : Items → Json
    obj : Fields → Json

  pub data Items : Type 0 where
    nil : Items
    cons : Json → Items → Items

  pub data Fields : Type 0 where
    end : Fields
    field : String → Json → Fields → Fields

-- m[k] with its presence flag.
unfoldable pub lookup : String → Fields → Option Json
lookup k end = none
lookup k (field j v m) = if j == k then some v else lookup k m

-- m[k] = v.
unfoldable pub insert : String → Json → Fields → Fields
insert k v end = field k v end
insert k v (field j w m) = if j == k then field k v m else field j w (insert k v m)

-- len(m).
unfoldable pub size : Fields → ℕ
size end = 0
size (field k v m) = suc (size m)

-- m[k] without the flag: nil where the key is missing.
unfoldable pub index : String → Fields → Json
unfolding lookup
index k m = elim (lookup k m) [ none ↦ null | some v ↦ v ]

abbrev is_zero_float : ℕ → Bool
is_zero_float x = Tests.◌==◌ (x % 2 ^ 63) 0

-- `==` on float64; JSON has no NaN, and 0 equals -0.
abbrev pub float_eq : ℕ → ℕ → Bool
float_eq x y = Tests.◌==◌ x y || (is_zero_float x && is_zero_float y)

abbrev pub bool_eq : Bool → Bool → Bool
bool_eq true b = b
bool_eq false true = false
bool_eq false false = true

-- `==` on two interface values: values of different dynamic types differ, and two slices or two
-- maps make the program panic.
unfoldable pub iface_eq : Json → Json → Result Bool
iface_eq null null = ok true
iface_eq (bool a) (bool b) = ok (bool_eq a b)
iface_eq (int a) (int b) = ok (int_eq a b)
iface_eq (float a) (float b) = ok (float_eq a b)
iface_eq (str a) (str b) = ok (a == b)
iface_eq (arr a) (arr b) = panic uncomparable
iface_eq (obj a) (obj b) = panic uncomparable
iface_eq _ _ = ok false

-- runtime.RawExtension: the field Raw.
pub record RawExtension : Type 0 where
  pub raw : String

-- k8s.io/apimachinery/pkg/util/json on map[string]interface{}. The text `null`, which decodes to a nil
-- map, is read as the empty map: they differ only in setDefaults, which writes to the map of a
-- specification, and the decoding of a RawExtension keeps no such text.
pub record JsonCodec : Type 0 where
  pub unmarshal : String → Result Fields
  pub marshal : Fields → Result String

module _ (codec : JsonCodec) where
  unfoldable pub to_map : RawExtension → Result Fields
  to_map raw = if raw.raw == "" then ok end else codec.unmarshal raw.raw

  unfoldable pub to_raw_extension : Option Fields → Result RawExtension
  to_raw_extension none = ok (record { raw = "" })
  to_raw_extension (some m) = elim (codec.marshal m) [
    | ok s ↦ ok (record { raw = s })
    | err e ↦ err e
    | panic p ↦ panic p
  ]
