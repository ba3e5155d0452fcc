-- ===== src/Registry/Tests.antt =====
-- A registry of two keys and two values, and the theorems on the registry at it.
use ps5_homebrew_lab.Common.{◌≡◌, inr, true, false, none, some, [], ◌∷◌, replicate, arith, refl}
use ps5_homebrew_lab.Pe.Bytes.{Bytes}
use ps5_homebrew_lab.Registry.{
  success, Key, Value, Registry, no_key, no_value, init, equal, fold, key_index, live_key,
}
use ps5_homebrew_lab.Registry.Keys.{Created, close_key, release_key}
use ps5_homebrew_lab.Registry.Values.{set_value, set_at, put_value, find_slot, query_value}
use ps5_homebrew_lab.Registry.Values.Map.{query_value-set_value, query_value_others}

abbrev empty : Registry
empty = record { keys = replicate 2 no_key; values = replicate 2 no_value; generation = 0 }

init_run : init 2 2 ≡ some empty
unfolding init
init_run = refl

-- `/Soft/x` and the names `Size` and `SIZE`.
abbrev subkey : Bytes
subkey = 0x2f ∷ 0x53 ∷ 0x6f ∷ 0x66 ∷ 0x74 ∷ 0x2f ∷ 0x78 ∷ []

abbrev path : Bytes
path = 0x53 ∷ 0x6f ∷ 0x66 ∷ 0x74 ∷ 0x5c ∷ 0x78 ∷ []

abbrev size_name : Bytes
size_name = 0x53 ∷ 0x69 ∷ 0x7a ∷ 0x65 ∷ []

abbrev upper_name : Bytes
upper_name = 0x53 ∷ 0x49 ∷ 0x5a ∷ 0x45 ∷ []

abbrev mode_name : Bytes
mode_name = 0x4d ∷ []

abbrev key : Key
key = record { path = path; handle = 0xd100_0000; open_count = 1; used = true }

abbrev keyed : Registry
keyed = record { keys = key ∷ no_key ∷ []; values = replicate 2 no_value; generation = 1 }

abbrev first : Created
first = record { status = success; handle = 0xd100_0000; created_new = true }

abbrev value : Value
value = record {
  name = size_name;
  bytes = 7 ∷ 0 ∷ 0 ∷ 0 ∷ [];
  type = 4;
  key_index = 0;
  used = true;
}

abbrev valued : Registry
valued = record { keys = key ∷ no_key ∷ []; values = value ∷ no_value ∷ []; generation = 2 }

set_run : set_value keyed 0xd100_0000 size_name 4 (7 ∷ 0 ∷ 0 ∷ 0 ∷ []) ≡ (valued, success)
unfolding set_value set_at put_value find_slot live_key key_index equal fold
set_run = refl

same_names : equal size_name upper_name ≡ true
unfolding equal fold
same_names = refl

other_names : equal size_name mode_name ≡ false
unfolding equal fold
other_names = refl

query_value-set_value_example :
    query_value valued 0xd100_0000 upper_name (some 8)
    ≡ record { status = success; found = some (4, 4); copied = some (7 ∷ 0 ∷ 0 ∷ 0 ∷ []) }
query_value-set_value_example =
    query_value-set_value keyed 0xd100_0000 size_name 4 (7 ∷ 0 ∷ 0 ∷ 0 ∷ []) valued upper_name 8
      set_run same_names (omega arith)

query_value_others_example :
    query_value valued 0xd100_0000 mode_name none ≡ query_value keyed 0xd100_0000 mode_name none
query_value_others_example =
    query_value_others keyed 0xd100_0000 size_name 4 (7 ∷ 0 ∷ 0 ∷ 0 ∷ []) valued 0xd100_0000
      mode_name none set_run (inr other_names)

-- The first close releases the only use; then the handle is no longer live.
close_run : live_key (close_key keyed 0xd100_0000).0 0xd100_0000 ≡ none
unfolding close_key release_key live_key key_index
close_run = refl
