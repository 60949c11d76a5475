-- ===== src/Dependencies/Yaml.antt =====
-- The values that `yaml.load` returns, and what the analysis does with them. Numbers, Booleans and
-- dates are scalars, kept by their text: the analysis only compares them.
use text.Mathlib.Text.{find?}
use configuration.Base.{
  ◌≡◌, ◌↔◌, Bool, true, false, ◌||◌, Option, none, some, List, [], ◌∷◌, String, arith, Eq, ◌==◌,
  string_eq, eq_iff, if◌then◌else◌, Result, ok, raised, type_error, key_error, system_exit,
}

mutual
  pub data Yaml : Type 0 where
    null : Yaml
    string scalar : String → Yaml
    sequence : Items → Yaml
    mapping : Fields → Yaml

  pub data Items : Type 0 where
    nil : Items
    cons : Yaml → Items → Items

  pub data Fields : Type 0 where
    end : Fields
    field : String → Yaml → Fields → Fields

-- What `yaml.load` makes of a file.
pub data Loaded : Type 0 where
  invalid : Loaded
  loaded : Yaml → Loaded

-- `_open_yaml_file`: the error is logged and the process ended.
unfoldable pub open_yaml_file : Loaded → Result Yaml
open_yaml_file invalid = raised (system_exit 1)
open_yaml_file (loaded y) = ok y

abbrev pub field_of : String → Fields → Option Yaml
field_of k end = none
field_of k (field j y rest) = if j == k then some y else field_of k rest

abbrev is_text : String → Yaml → Bool
is_text k (string s) = s == k
is_text k _ = false

abbrev item_in : String → Items → Bool
item_in k nil = false
item_in k (cons y rest) = is_text k y || item_in k rest

abbrev is_found {ℓ} : {A : Type ℓ} → Option A → Bool
is_found none = false
is_found (some a) = true

-- `key in value`: a key of a mapping, an item of a sequence or a part of a text.
unfoldable pub has_key : String → Yaml → Result Bool
has_key k (mapping fields) = ok (is_found (field_of k fields))
has_key k (sequence items) = ok (item_in k items)
has_key k (string s) = ok (is_found (find? s k))
has_key k _ = raised type_error

abbrev found_or_key_error : Option Yaml → Result Yaml
found_or_key_error none = raised key_error
found_or_key_error (some y) = ok y

-- `value[key]`, with a text for a key
unfoldable pub get_item : String → Yaml → Result Yaml
get_item k (mapping fields) = found_or_key_error (field_of k fields)
get_item k _ = raised type_error

abbrev listed : Items → List Yaml
listed nil = []
listed (cons y rest) = y ∷ listed rest

abbrev keys : Fields → List Yaml
keys end = []
keys (field k y rest) = string k ∷ keys rest

abbrev letters : String → List Yaml
letters String.[] = []
letters (String.◌∷◌ c s) = string (String.◌∷◌ c String.[]) ∷ letters s

-- `for item in value`
unfoldable pub iterate : Yaml → Result (List Yaml)
iterate (sequence items) = ok (listed items)
iterate (mapping fields) = ok (keys fields)
iterate (string s) = ok (letters s)
iterate _ = raised type_error

-- `_get_role_name`: `None` where the role is neither a mapping nor a text.
unfoldable pub get_role_name : Yaml → Result Yaml
unfolding get_item
get_role_name (mapping fields) = get_item "role" (mapping fields)
get_role_name (string s) = ok (string s)
get_role_name _ = ok null

-- The name of a graph node: a value that can be hashed.
pub data Name : Type 0 where
  no_name : Name
  called valued : String → Name

unfoldable pub hashed : Yaml → Result Name
hashed null = ok no_name
hashed (string s) = ok (called s)
hashed (scalar s) = ok (valued s)
hashed _ = raised type_error

abbrev pub name_beq : Name → Name → Bool
name_beq no_name no_name = true
name_beq (called s) (called t) = s == t
name_beq (valued s) (valued t) = s == t
name_beq _ _ = false

pub name_beq_iff : (a b : Name) → (name_beq a b ≡ true) ↔ (a ≡ b)
name_beq_iff no_name no_name = ground arith
name_beq_iff (called s) (called t) = ground (arith, eq_iff s t)
name_beq_iff (valued s) (valued t) = ground (arith, eq_iff s t)
name_beq_iff no_name (called t) = ground arith
name_beq_iff no_name (valued t) = ground arith
name_beq_iff (called s) no_name = ground arith
name_beq_iff (called s) (valued t) = ground arith
name_beq_iff (valued s) no_name = ground arith
name_beq_iff (valued s) (called t) = ground arith

instance abbrev pub name_eq : Eq Name
name_eq = record { beq = name_beq; beq_iff = name_beq_iff }
