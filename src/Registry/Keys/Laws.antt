-- ===== src/Registry/Keys/Laws.antt =====
-- Keys and their handles: a handle names the place of its key, and a key is found under its path.
use ps5_homebrew_lab.Common.{ℕ, ◌+◌, ◌*◌, ◌≤◌, ◌≡◌, true, some, length, get_elem?}
use ps5_homebrew_lab.Pe.Bytes.{Bytes}
use ps5_homebrew_lab.Registry.{Key, Registry, handle_base, live_key}
use ps5_homebrew_lab.Registry.Keys.{find_key, Created}

-- A handle below 2 ^ 32 for every place, and in every key that is used the handle of its place.
pub record IsRegistry (r : Registry) : Type 0 where
  pub few : length r.keys ≤ 0x2f0_0000
  pub handles :
      (i : ℕ) (k : Key)
      → get_elem? r.keys i ≡ some k
      → k.used ≡ true
      → k.handle ≡ handle_base + i * 16

-- What a call that has found or made a key at a place leaves.
pub record IsAt (path : Bytes) (i : ℕ) (r' : Registry) (c : Created) : Type 0 where
  pub found : find_key r' path ≡ some i
  pub live : live_key r' c.handle ≡ some i
  pub valid : IsRegistry r'
