-- ===== src/Registry/Keys.antt =====
-- pw_registry_create, pw_registry_open and pw_registry_close of projects/prospero-win/src/pw_registry.c.
pub mod Laws
use ps5_homebrew_lab.Common.{
  ℕ, zero, suc, ◌+◌, ◌-◌, ◌*◌, ◌/◌, ◌%◌, ◌^◌, Bool, true, false, not, ◌&&◌, ◌||◌, Option, none,
  some, List, [], ◌∷◌, ◌++◌, map, length, get_elem?, set, replicate, ltb, leb, ◌==◌, if◌then◌else◌,
}
use ps5_homebrew_lab.Pe.Bytes.{Bytes}
use ps5_homebrew_lab.Registry.{
  Status, success, file_not_found, access_denied, invalid_handle, invalid_parameter, more_data, Key,
  Value, Registry, current_user, handle_base, path_max, value_name_max, data_max, fold, equal,
  key_index, compose, live_key,
}

-- The first key with a path, from a place on.
unfoldable pub find_from : List Key → Bytes → ℕ → Option ℕ
find_from [] path i = none
find_from (k ∷ ks) path i =
    let rest = find_from ks path (i + 1) in if k.used && equal k.path path then some i else rest

unfoldable pub find_key : Registry → Bytes → Option ℕ
find_key r path = find_from r.keys path 0

unfoldable pub first_unused : List Key → ℕ → Option ℕ
first_unused [] i = none
first_unused (k ∷ ks) i = let rest = first_unused ks (i + 1) in if not k.used then some i else rest

-- One more use of a key that is there; its handle, unless the count is full.
pub retain : Registry → ℕ → Option Key → Registry × Status × ℕ
retain r i none = (r, access_denied, 0)
retain r i (some k) = if k.open_count == 2 ^ 32 - 1 then (r, access_denied, 0) else (
  record r { keys = set r.keys i (record k { open_count = k.open_count + 1 }) },
  success,
  k.handle,
)

-- The results of create and open: the handle, and for create whether the key is new.
pub record Created : Type 0 where
  pub status : Status
  pub handle : ℕ
  pub created_new : Bool

abbrev pub existing : Registry × Status × ℕ → Registry × Created
existing (r, status, handle) = (r, record { status = status; handle = handle; created_new = false })

abbrev pub refused : Status → Created
refused status = record { status = status; handle = 0; created_new = false }

-- A new key at a place that is unused.
abbrev pub new_key : Bytes → ℕ → Key
new_key path i = record {
  path = path;
  handle = (handle_base + i * 16) % 2 ^ 32;
  open_count = 1;
  used = true;
}

unfoldable pub add_key : Registry → Bytes → Option ℕ → Registry × Created
add_key r path none = (r, refused access_denied)
add_key r path (some i) = (
  record r { keys = set r.keys i (new_key path i); generation = (r.generation + 1) % 2 ^ 64 },
  record { status = success; handle = (new_key path i).handle; created_new = true },
)

abbrev pub create_at : Registry → Bytes → Option ℕ → Registry × Created
create_at r path (some i) = existing (retain r i (get_elem? r.keys i))
create_at r path none = add_key r path (first_unused r.keys 0)

abbrev pub after_compose {ℓ} : {A : Type ℓ} → Status × Bytes → (Status → A) → (Bytes → A) → A
after_compose (success, path) fails goes_on = goes_on path
after_compose (status, path) fails goes_on = fails status

unfoldable pub create : Registry → ℕ → Option Bytes → Registry × Created
create r parent subkey =
    after_compose (compose r parent subkey) (λ status. (r, refused status))
      (λ path. create_at r path (find_key r path))

-- A handle that is opened again through itself, which has to be open.
abbrev pub reopen_at : Registry → ℕ → Option Key → Registry × Status × ℕ
reopen_at r i none = (r, invalid_handle, 0)
reopen_at r i (some k) = if k.open_count == 0 then (r, invalid_handle, 0) else retain r i (some k)

pub reopen : Registry → ℕ → Registry × Status × ℕ
reopen r parent =
    if parent == current_user then (r, success, parent) else elim (key_index r parent) [
      | none ↦ (r, invalid_handle, 0)
      | some i ↦ reopen_at r i (get_elem? r.keys i)
    ]

pub open_path : Registry → Bytes → Registry × Status × ℕ
open_path r path = elim (find_key r path) [
  | none ↦ (r, file_not_found, 0)
  | some i ↦ retain r i (get_elem? r.keys i)
]

abbrev pub is_empty : Option Bytes → Bool
is_empty none = true
is_empty (some s) = length s == 0

pub open_key : Registry → ℕ → Option Bytes → Registry × Status × ℕ
open_key r parent subkey =
    if is_empty subkey
    then reopen r parent
    else after_compose (compose r parent subkey) (λ status. (r, status, 0))
        (λ path. open_path r path)

unfoldable pub release_key : Registry → ℕ → Option Key → Registry × Status
release_key r i none = (r, invalid_handle)
release_key r i (some k) =
    if k.open_count == 0
    then (r, invalid_handle)
    else (record r { keys = set r.keys i (record k { open_count = k.open_count - 1 }) }, success)

unfoldable pub close_key : Registry → ℕ → Registry × Status
close_key r handle = if handle == current_user then (r, success) else elim (key_index r handle) [
  | none ↦ (r, invalid_handle)
  | some i ↦ release_key r i (get_elem? r.keys i)
]
