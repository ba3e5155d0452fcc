-- ===== src/Registry.antt =====
-- projects/prospero-win/src/pw_registry.h and pw_registry.c: the keys and values that the guest's registry
-- calls see. A string is the list of its bytes before the NUL; `none` is a NULL that the source tests.
-- The capacities are the lengths of the two tables. The data of a value are its first `size` bytes.
pub mod Keys
pub mod Values
mod Tests
use ps5_homebrew_lab.Common.{
  ℕ, zero, suc, ◌+◌, ◌-◌, ◌*◌, ◌/◌, ◌%◌, ◌^◌, Bool, true, false, not, ◌&&◌, ◌||◌, Option, none,
  some, List, [], ◌∷◌, ◌++◌, map, length, get_elem?, set, replicate, ltb, leb, ◌==◌, if◌then◌else◌,
}
use ps5_homebrew_lab.Pe.Bytes.{Bytes}

-- The codes that the calls return.
pub data Status : Type 0 where
  success file_not_found access_denied invalid_handle invalid_parameter more_data : Status

pub record Key : Type 0 where
  pub path : Bytes
  pub handle : ℕ
  pub open_count : ℕ
  pub used : Bool

pub record Value : Type 0 where
  pub name : Bytes
  pub bytes : Bytes
  pub type : ℕ
  pub key_index : ℕ
  pub used : Bool

pub record Registry : Type 0 where
  pub keys : List Key
  pub values : List Value
  pub generation : ℕ

abbrev pub current_user : ℕ
current_user = 0x8000_0001

abbrev pub handle_base : ℕ
handle_base = 0xd100_0000

abbrev pub path_max : ℕ
path_max = 255

abbrev pub value_name_max : ℕ
value_name_max = 63

abbrev pub data_max : ℕ
data_max = 512

pub fold : ℕ → ℕ
fold c = if leb 0x41 c && leb c 0x5a then c + 0x20 else c

pub equal : Bytes → Bytes → Bool
equal [] [] = true
equal [] (b ∷ ys) = false
equal (a ∷ xs) [] = false
equal (a ∷ xs) (b ∷ ys) = fold a == fold b && equal xs ys

abbrev pub no_key : Key
no_key = record { path = []; handle = 0; open_count = 0; used = false }

abbrev pub no_value : Value
no_value = record { name = []; bytes = []; type = 0; key_index = 0; used = false }

pub init : ℕ → ℕ → Option Registry
init key_capacity value_capacity =
    if key_capacity == 0 || value_capacity == 0
    then none
    else some (record {
      keys = replicate key_capacity no_key;
      values = replicate value_capacity no_value;
      generation = 0;
    })

abbrev pub owns : ℕ → ℕ → Option Key → Option ℕ
owns handle i none = none
owns handle i (some k) = if k.used && k.handle == handle then some i else none

-- The place of the key that a handle names.
pub key_index : Registry → ℕ → Option ℕ
key_index r handle =
    if ltb handle handle_base || not ((handle - handle_base) % 16 == 0)
    then none
    else owns handle ((handle - handle_base) / 16) (get_elem? r.keys ((handle - handle_base) / 16))

pub skip_separators : Bytes → Bytes
skip_separators [] = []
skip_separators (c ∷ cs) =
    let rest = skip_separators cs in if c == 0x5c || c == 0x2f then rest else c ∷ cs

abbrev pub path_of : Registry → ℕ → Bytes
path_of r i = elim (get_elem? r.keys i) [ none ↦ [] | some k ↦ k.path ]

abbrev pub separator : Bytes → Bytes → Bytes
separator prefix subkey =
    if not (length prefix == 0) && not (length subkey == 0) then 0x5c ∷ [] else []

-- The prefix and the subkey, joined where both are there.
pub join : Bytes → Bytes → Status × Bytes
join prefix subkey =
    if ltb path_max (length (prefix ++ separator prefix subkey ++ subkey))
    then (invalid_parameter, [])
    else (
      success,
      prefix ++ separator prefix subkey ++ map (λ c. if c == 0x2f then 0x5c else c) subkey,
    )

pub compose : Registry → ℕ → Option Bytes → Status × Bytes
compose r parent none = (invalid_parameter, [])
compose r parent (some subkey) =
    if parent == current_user then join [] (skip_separators subkey) else elim (key_index r parent) [
      | none ↦ (invalid_handle, [])
      | some i ↦ join (path_of r i) (skip_separators subkey)
    ]

abbrev pub is_open : Registry → ℕ → Bool
is_open r i = elim (get_elem? r.keys i) [ none ↦ false | some k ↦ not (k.open_count == 0) ]

pub live_key : Registry → ℕ → Option ℕ
live_key r handle = elim (key_index r handle) [
  | none ↦ none
  | some i ↦ if is_open r i then some i else none
]
