-- ===== src/Registry/Values.antt =====
-- pw_registry_set and pw_registry_query of projects/prospero-win/src/pw_registry.c.
pub mod Map
pub mod Laws
use ps5_homebrew_lab.Common.{
  ℕ, zero, suc, ◌+◌, ◌-◌, ◌*◌, ◌/◌, ◌%◌, ◌^◌, Bool, true, false, not, ◌&&◌, ◌||◌, Option, none,
  some, List, [], ◌∷◌, ◌++◌, map, length, get_elem?, set, replicate, ltb, leb, ◌==◌, if◌then◌else◌,
}
use ps5_homebrew_lab.Pe.Bytes.{Bytes}
use ps5_homebrew_lab.Registry.{
  Status, success, file_not_found, access_denied, invalid_handle, invalid_parameter, more_data, Key,
  Value, Registry, current_user, handle_base, path_max, value_name_max, data_max, fold, equal,
  key_index, compose, live_key,
}

-- A value is that of a key under a name.
abbrev pub is_value : ℕ → Bytes → Value → Bool
is_value key name v = v.used && v.key_index == key && equal v.name name

abbrev pub or_unused : Option ℕ → ℕ → Value → Option ℕ
or_unused (some j) i v = some j
or_unused none i v = if not v.used then some i else none

-- The search of pw_registry_set: the value with the name, else the first place that is unused.
unfoldable pub find_slot : List Value → ℕ → Bytes → ℕ → Option ℕ → Option ℕ
find_slot [] key name i slot = slot
find_slot (v ∷ vs) key name i slot =
    let rest = find_slot vs key name (i + 1) (or_unused slot i v) in
    if is_value key name v then some i else rest

abbrev pub same_data : Bytes → Bytes → Bool
same_data [] [] = true
same_data [] (b ∷ ys) = false
same_data (a ∷ xs) [] = false
same_data (a ∷ xs) (b ∷ ys) = a == b && same_data xs ys

abbrev pub new_value : ℕ → Bytes → ℕ → Bytes → Value
new_value key name type bytes = record {
  name = name;
  bytes = bytes;
  type = type;
  key_index = key;
  used = true;
}

-- The write to a place; an equal value is left as it is.
unfoldable pub put_value : Registry → ℕ → Value → Option Value → Registry × Status
put_value r i value none = (r, access_denied)
put_value r i value (some v) =
    if v.used && v.type == value.type && same_data v.bytes value.bytes then (r, success) else (
      record r { values = set r.values i value; generation = (r.generation + 1) % 2 ^ 64 },
      success,
    )

-- REG_SZ, REG_BINARY and REG_DWORD
abbrev pub known_type : ℕ → Bool
known_type type = type == 1 || type == 3 || type == 4

unfoldable pub set_at : Registry → ℕ → Bytes → ℕ → Bytes → Registry × Status
set_at r key name type bytes =
    if ltb value_name_max (length name)
    then (r, invalid_parameter)
    else elim (find_slot r.values key name 0 none) [
      | none ↦ (r, access_denied)
      | some i ↦ put_value r i (new_value key name type bytes) (get_elem? r.values i)
    ]

unfoldable pub set_value : Registry → ℕ → Bytes → ℕ → Bytes → Registry × Status
set_value r handle name type bytes =
    if ltb data_max (length bytes) || not (known_type type)
    then (r, invalid_parameter)
    else elim (live_key r handle) [
      | none ↦ (r, invalid_handle)
      | some key ↦ set_at r key name type bytes
    ]

-- What a query stores: the size and the type of the value that is found, and its bytes.
pub record Answer : Type 0 where
  pub status : Status
  pub found : Option (ℕ × ℕ)
  pub copied : Option Bytes

-- A buffer is given by its capacity.
abbrev pub answer : Option ℕ → Value → Answer
answer none v = record { status = success; found = some (length v.bytes, v.type); copied = none }
answer (some capacity) v =
    if ltb capacity (length v.bytes)
    then record { status = more_data; found = some (length v.bytes, v.type); copied = none }
    else record { status = success; found = some (length v.bytes, v.type); copied = some v.bytes }

abbrev pub no_answer : Status → Answer
no_answer status = record { status = status; found = none; copied = none }

pub find_value : List Value → ℕ → Bytes → Option Value
find_value [] key name = none
find_value (v ∷ vs) key name =
    let rest = find_value vs key name in if is_value key name v then some v else rest

pub query_value : Registry → ℕ → Bytes → Option ℕ → Answer
query_value r handle name buffer = elim (live_key r handle) [
  | none ↦ no_answer invalid_handle
  | some key ↦ elim (find_value r.values key name) [
    | none ↦ no_answer file_not_found
    | some v ↦ answer buffer v
  ]
]
