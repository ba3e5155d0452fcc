-- ===== src/Registry/Values/Map.antt =====
-- pw_registry_set and pw_registry_query together: an abstract map.
use ps5_homebrew_lab.Common.{
  ℕ, ◌+◌, ◌-◌, ◌*◌, ◌/◌, ◌%◌, ◌^◌, ◌≤◌, ◌≡◌, ◌≢◌, ◌⊎◌, inl, inr, true, false, ◌&&◌, Option, none,
  some, length, get_elem?, set, ltb, ◌==◌, arith, refl, ap, sym, ◌∙◌, Bool-cases, Option-cases,
}
use ps5_homebrew_lab.Pe.Bytes.{Bytes}
use ps5_homebrew_lab.Registry.{success, Value, Registry, equal, live_key, key_index, handle_base}
use ps5_homebrew_lab.Registry.Values.{
  is_value, find_slot, same_data, new_value, put_value, set_at, set_value, find_value, answer,
  query_value,
}
use ps5_homebrew_lab.Registry.Values.Laws.{
  Apart, IsSlot, find_slot-IsSlot, find_value-set, find_value_others, find_value-Hit, Free-unused,
  find_value-equal, same_data_lem, equal_refl,
}

-- What a call that succeeds has done to the table of the values.
record Stored (r : Registry) (key : ℕ) (name : Bytes) (type : ℕ) (bytes : Bytes) (r' : Registry)
    : Type 0 where
  keys : r'.keys ≡ r.keys
  here :
      (v : Value) × (find_value r'.values key name ≡ some v) × (v.type ≡ type) × (v.bytes ≡ bytes)
  others :
      (key' : ℕ) (name' : Bytes)
      → Apart key name key' name'
      → find_value r'.values key' name' ≡ find_value r.values key' name'

kept_Stored :
    (r : Registry) (key : ℕ) (name : Bytes) (type : ℕ) (bytes : Bytes) (i : ℕ) (v : Value)
    (r' : Registry)
    → IsSlot r.values i key name
    → get_elem? r.values i ≡ some v
    → (v.used && v.type == type && same_data v.bytes bytes) ≡ true
    → r' ≡ r
    → Stored r key name type bytes r'
kept_Stored r key name type bytes i v r' (inl hit) there same e = rw e (record {
  keys = refl;
  here = (
    v,
    find_value-Hit r.values key name i v hit there,
    ground arith,
    same_data_lem v.bytes bytes (ground arith),
  );
  others = λ key' name' apart. refl;
})
kept_Stored r key name type bytes i v r' (inr free) there same e =
    let unused = Free-unused r.values key name i v free there in ground arith

put_value-Stored :
    (r : Registry) (key : ℕ) (name : Bytes) (type : ℕ) (bytes : Bytes) (i : ℕ) (r' : Registry)
    → IsSlot r.values i key name
    → put_value r i (new_value key name type bytes) (get_elem? r.values i) ≡ (r', success)
    → Stored r key name type bytes r'
unfolding put_value
put_value-Stored r key name type bytes i r' slot e = elim (Option-cases (get_elem? r.values i)) [
  | inl nothing ↦ ground arith
  | inr (v, there) ↦ elim (Bool-cases (v.used && v.type == type && same_data v.bytes bytes)) [
    | inl same ↦ kept_Stored r key name type bytes i v r' slot there same (ground arith)
    | inr fresh ↦
        let w = new_value key name type bytes in
        let h : is_value key name w ≡ true = ground (arith, equal_refl name) in
        let changed : r'
            ≡ record r { values = set r.values i w; generation = (r.generation + 1) % 2 ^ 64 } =
          ground arith in
        rw changed (record {
          keys = refl;
          here = (w, find_value-set r.values key name i w slot h, refl, refl);
          others =
              λ key' name' apart. find_value_others r.values key name i w key' name' slot h apart;
        })
  ]
]

-- A call that succeeds stores its value under its name.
set_value-Stored :
    (r : Registry) (handle : ℕ) (name : Bytes) (type : ℕ) (bytes : Bytes) (r' : Registry)
    → set_value r handle name type bytes ≡ (r', success)
    → (key : ℕ) × (live_key r handle ≡ some key) × Stored r key name type bytes r'
unfolding set_value set_at
set_value-Stored r handle name type bytes r' e = elim (Option-cases (live_key r handle)) [
  | inl dead ↦ ground arith
  | inr (key, live) ↦ elim (Option-cases (find_slot r.values key name 0 none)) [
    | inl full ↦ ground arith
    | inr (j, found) ↦
        let (i, place, slot) = find_slot-IsSlot r.values key name 0 j found in
        let at : j ≡ i = omega (arith, place) in
        (key, live, put_value-Stored r key name type bytes i r' slot (rw (← at) (ground arith)))
  ]
]

same_live :
    (r r' : Registry) (handle : ℕ) → r'.keys ≡ r.keys → live_key r' handle ≡ live_key r handle
unfolding live_key key_index
same_live r r' handle e = rw e refl

answered :
    (v : Value) (capacity type : ℕ) (bytes : Bytes)
    → v.type ≡ type
    → v.bytes ≡ bytes
    → length bytes ≤ capacity
    → answer (some capacity) v
      ≡ record { status = success; found = some (length bytes, type); copied = some bytes }
answered v capacity type bytes typed held room =
    let fits : ltb capacity (length bytes) ≡ false = ground arith in rw (typed, held, fits) refl

-- A handle is made from the place of its key.
key_index-place :
    (r : Registry) (handle i : ℕ) → key_index r handle ≡ some i → handle ≡ handle_base + i * 16
unfolding key_index
key_index-place r handle i e =
    let q = (handle - handle_base) / 16 in
    elim (Option-cases (get_elem? r.keys q)) [
      | inl nothing ↦ ground arith
      | inr (k, there) ↦
          let place : q ≡ i = ground arith in
          let whole : (handle - handle_base) % 16 ≡ 0 = ground arith in
          let low : handle_base ≤ handle = ground arith in omega (arith, place, whole, low)
    ]

live_key-place :
    (r : Registry) (handle i : ℕ) → live_key r handle ≡ some i → handle ≡ handle_base + i * 16
unfolding live_key
live_key-place r handle i e = elim (Option-cases (key_index r handle)) [
  | inl nothing ↦ ground arith
  | inr (j, there) ↦
      let same : j ≡ i = ground arith in rw (← same) (key_index-place r handle j there)
]

live_key-Apart :
    (r : Registry) (handle handle' key key' : ℕ) (name name' : Bytes)
    → live_key r handle ≡ some key
    → live_key r handle' ≡ some key'
    → (handle ≢ handle') ⊎ (equal name name' ≡ false)
    → Apart key name key' name'
live_key-Apart r handle handle' key key' name name' live live' (inl differ) =
    let here = live_key-place r handle key live in
    let there = live_key-place r handle' key' live' in
    inl (λ same. differ (here ∙ ap (λ t. handle_base + t * 16) same ∙ sym there))
live_key-Apart r handle handle' key key' name name' live live' (inr differ) = inr differ

-- Behind a call of pw_registry_set that succeeds, a query of the same handle for the name, in any case, and with a
-- buffer that is large enough, succeeds and gives the type, the size and the bytes that were stored.
pub query_value-set_value :
    (r : Registry) (handle : ℕ) (name : Bytes) (type : ℕ) (bytes : Bytes) (r' : Registry)
    (name' : Bytes) (capacity : ℕ)
    → set_value r handle name type bytes ≡ (r', success)
    → equal name name' ≡ true
    → length bytes ≤ capacity
    → query_value r' handle name' (some capacity)
      ≡ record { status = success; found = some (length bytes, type); copied = some bytes }
unfolding query_value
query_value-set_value r handle name type bytes r' name' capacity e near room =
    let (key, live, stored) = set_value-Stored r handle name type bytes r' e in
    let (v, found, typed, held) = stored.here in
    let alive : live_key r' handle ≡ some key = same_live r r' handle stored.keys ∙ live in
    let searched : find_value r'.values key name' ≡ some v =
      find_value-equal r'.values key name name' near ∙ found in
    rw (query_value, alive, searched) (answered v capacity type bytes typed held room)

-- A call of pw_registry_set that succeeds changes no answer for another handle, nor for a name that differs by more
-- than case.
pub query_value_others :
    (r : Registry) (handle : ℕ) (name : Bytes) (type : ℕ) (bytes : Bytes) (r' : Registry)
    (handle' : ℕ) (name' : Bytes) (buffer : Option ℕ)
    → set_value r handle name type bytes ≡ (r', success)
    → (handle ≢ handle') ⊎ (equal name name' ≡ false)
    → query_value r' handle' name' buffer ≡ query_value r handle' name' buffer
unfolding query_value
query_value_others r handle name type bytes r' handle' name' buffer e apart =
    let (key, live, stored) = set_value-Stored r handle name type bytes r' e in
    let same = same_live r r' handle' stored.keys in
    elim (Option-cases (live_key r handle')) [
      | inl dead ↦ rw (query_value, same, dead) refl
      | inr (key', live') ↦
          let kept =
            stored.others key' name'
              (live_key-Apart r handle handle' key key' name name' live live' apart) in
          rw (query_value, same, live', kept) refl
    ]
