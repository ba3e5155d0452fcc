-- ===== src/Pe/Reloc/Safety.antt =====
-- The walk over the relocation directory reads and writes in the image alone, and ends.
use ps5_homebrew_lab.Common.{
  ℕ, zero, suc, ◌+◌, ◌-◌, ◌*◌, ◌/◌, ◌%◌, ◌^◌, ◌≤◌, ◌<◌, ◌≡◌, ◌≢◌, Bool, true, false, Option, none,
  some, length, arith, leb, ltb, ◌==◌, Outcome, ok, err, fault, precondition, refl, if◌then◌else◌,
  Bool-cases, inl, inr, leb→le, ◌||◌,
}
use ps5_homebrew_lab.Pe.Bytes.{Bytes, u16, u32, u64, read_u16_ok, read_u32_ok, read_u64_ok}
use ps5_homebrew_lab.Pe.Image.{Directory}
use ps5_homebrew_lab.Pe.Reloc.{
  Stats, Progress, Walk, unless_zero, highlow_type, dir64_type, high_type, low_type, absolute_type,
  write, patch_u16, patch_u32, patch_u64, finish_patch, patch_entry, apply_entry, apply_entries,
  apply_block, bad_block_bytes, apply_blocks, apply_directory, apply_to, apply, proceed,
  count_block, delta_of, no_stats,
}
use ps5_homebrew_lab.Pe.Reloc.Store.{length-store}

-- No access out of bounds, and the mapping keeps its size.
pub record IsSafe (size : ℕ) (w : Walk) : Type 0 where
  pub kept : length w.0.mapped ≡ size
  pub inside : w.1 ≢ fault

proceed-IsSafe :
    (size : ℕ) (w : Walk) (f : Progress → Walk)
    → IsSafe size w
    → ((p : Progress) → length p.mapped ≡ size → IsSafe size (f p))
    → IsSafe size (proceed w f)
proceed-IsSafe size (p, ok _) f s h = h p s.kept
proceed-IsSafe size (p, err e) f s h = s
proceed-IsSafe size (p, fault) f s h = s

-- A property of both branches.
pub either {κ} : (P : Walk → Type κ) (b : Bool) (x y : Walk) → P x → P y → P (if b then x else y)
either P true x y h k = h
either P false x y h k = k

module _ (size image_bytes : ℕ) (mapped : image_bytes ≤ size) where
  patch_u16-kept :
      (m : Bytes) (target addend : ℕ)
      → length m ≡ size
      → (patch_u16 m image_bytes target addend ≢ fault)
        × ((m' : Bytes) → patch_u16 m image_bytes target addend ≡ ok m' → length m' ≡ size)
  unfolding patch_u16 write
  patch_u16-kept m target addend l =
      let v = (u16 m target + addend) % 2 ^ 16 in
      (
        ground (arith, read_u16_ok m target),
        λ m' e. ground (arith, read_u16_ok m target, length-store m target 2 v),
      )

  patch_u32-kept :
      (m : Bytes) (target addend : ℕ)
      → length m ≡ size
      → (patch_u32 m image_bytes target addend ≢ fault)
        × ((m' : Bytes) → patch_u32 m image_bytes target addend ≡ ok m' → length m' ≡ size)
  unfolding patch_u32 write
  patch_u32-kept m target addend l =
      let v = (u32 m target + addend) % 2 ^ 32 in
      (
        ground (arith, read_u32_ok m target),
        λ m' e. ground (arith, read_u32_ok m target, length-store m target 4 v),
      )

  patch_u64-kept :
      (m : Bytes) (target addend : ℕ)
      → length m ≡ size
      → (patch_u64 m image_bytes target addend ≢ fault)
        × ((m' : Bytes) → patch_u64 m image_bytes target addend ≡ ok m' → length m' ≡ size)
  unfolding patch_u64 write
  patch_u64-kept m target addend l =
      let v = (u64 m target + addend) % 2 ^ 64 in
      (
        ground (arith, read_u64_ok m target),
        λ m' e. ground (arith, read_u64_ok m target, length-store m target 8 v),
      )

  finish_patch-IsSafe :
      (p : Progress) (r : Outcome Bytes)
      → length p.mapped ≡ size
      → (r ≢ fault) × ((m' : Bytes) → r ≡ ok m' → length m' ≡ size)
      → IsSafe size (finish_patch p r)
  unfolding finish_patch
  finish_patch-IsSafe p (ok m) l k = record { kept = k.1 m refl; inside = λ e. cc }
  finish_patch-IsSafe p (err x) l k = record { kept = l; inside = λ e. cc }
  finish_patch-IsSafe p fault l k = absurd (k.0 refl)

  unless_zero-IsSafe :
      (delta : ℕ) (p : Progress) (r : Outcome Bytes)
      → length p.mapped ≡ size
      → (r ≢ fault) × ((m' : Bytes) → r ≡ ok m' → length m' ≡ size)
      → IsSafe size (unless_zero delta p r)
  unless_zero-IsSafe delta p r l k =
      either (IsSafe size) (delta == 0) _ _ (record { kept = l; inside = λ e. cc })
        (finish_patch-IsSafe p r l k)

  patch_entry-IsSafe :
      (delta kind target : ℕ) (p : Progress)
      → length p.mapped ≡ size
      → IsSafe size (patch_entry image_bytes delta kind target p)
  unfolding patch_entry
  patch_entry-IsSafe delta kind target p l =
      let safe = IsSafe size in
      either safe (kind == highlow_type) _ _
        (unless_zero-IsSafe delta _ _ l (patch_u32-kept p.mapped target (delta % 2 ^ 32) l))
        (either safe (kind == dir64_type) _ _
          (unless_zero-IsSafe delta _ _ l (patch_u64-kept p.mapped target delta l))
          (either safe (kind == high_type) _ _
            (unless_zero-IsSafe delta _ _ l
              (patch_u16-kept p.mapped target (delta / 2 ^ 16 % 2 ^ 16) l))
            (either safe (kind == low_type) _ _
              (unless_zero-IsSafe delta _ _ l (patch_u16-kept p.mapped target (delta % 2 ^ 16) l))
              (record { kept = l; inside = λ e. cc }))))

  apply_entry-IsSafe :
      (delta block_rva entry : ℕ) (p : Progress)
      → length p.mapped ≡ size
      → IsSafe size (apply_entry image_bytes delta block_rva entry p)
  unfolding apply_entry
  apply_entry-IsSafe delta block_rva entry p l =
      either (IsSafe size) (entry / 2 ^ 12 == absolute_type) _ _
        (record { kept = l; inside = λ e. cc })
        (either (IsSafe size) _ _ _ (record { kept = l; inside = λ e. cc })
          (patch_entry-IsSafe delta (entry / 2 ^ 12) ((block_rva + entry % 2 ^ 12) % 2 ^ 32) _ l))

  apply_entries-IsSafe :
      (delta block_rva at n : ℕ) (p : Progress)
      → length p.mapped ≡ size
      → at + n * 2 ≤ image_bytes
      → IsSafe size (apply_entries image_bytes delta block_rva at n p)
  unfolding apply_entries
  apply_entries-IsSafe delta block_rva at zero p l h = record { kept = l; inside = λ e. cc }
  apply_entries-IsSafe delta block_rva at (suc n) p l h =
      rw (read_u16_ok p.mapped at (omega arith)) (
        proceed-IsSafe size (apply_entry image_bytes delta block_rva (u16 p.mapped at) p)
          (λ q. apply_entries image_bytes delta block_rva (at + 2) n q)
          (apply_entry-IsSafe delta block_rva (u16 p.mapped at) p l)
          (λ q k. apply_entries-IsSafe delta block_rva (at + 2) n q k (omega arith)))

  apply_block-IsSafe :
      (delta cursor end : ℕ) (p : Progress) (again : ℕ → Progress → Walk)
      → length p.mapped ≡ size
      → cursor + 8 ≤ end
      → end ≤ image_bytes
      → image_bytes < 2 ^ 32
      → ((c : ℕ) (q : Progress)
          → cursor + 8 ≤ c
          → c ≤ end
          → length q.mapped ≡ size
          → IsSafe size (again c q))
      → IsSafe size (apply_block image_bytes delta cursor end p again)
  unfolding apply_block
  apply_block-IsSafe delta cursor end p again l h k w step =
      let rva = u32 p.mapped cursor in
      let n = u32 p.mapped (cursor + 4) in
      rw
        (read_u32_ok p.mapped cursor (omega arith), read_u32_ok p.mapped (cursor + 4) (omega arith))
        (either (IsSafe size) (n == 0) _ _ (record { kept = l; inside = λ e. cc })
          (elim (Bool-cases (bad_block_bytes cursor end n || leb image_bytes rva)) [
            | inl bad ↦ rw bad (record { kept = l; inside = λ e. cc })
            | inr good ↦
                let some_bytes : 8 ≤ n = ground arith in
                let room : cursor + n ≤ end = ground arith in
                let next : (cursor + n) % 2 ^ 32 ≡ cursor + n = omega arith in
                rw (good, next)
                  (proceed-IsSafe size
                    (apply_entries image_bytes delta rva (cursor + 8) ((n - 8) / 2) p)
                    (λ q. again (cursor + n) (count_block q))
                    (apply_entries-IsSafe delta rva (cursor + 8) ((n - 8) / 2) p l (omega arith))
                    (λ q kept. step (cursor + n) (count_block q) (omega arith) room kept))
          ]))

  apply_blocks-IsSafe :
      (fuel delta end cursor : ℕ) (p : Progress)
      → length p.mapped ≡ size
      → cursor ≤ end
      → end ≤ cursor + fuel
      → end ≤ image_bytes
      → image_bytes + 8 < 2 ^ 32
      → IsSafe size (apply_blocks fuel image_bytes delta end cursor p)
  unfolding apply_blocks
  apply_blocks-IsSafe zero delta end cursor p l h enough k w = record {
    kept = l;
    inside = ground arith;
  }
  apply_blocks-IsSafe (suc fuel) delta end cursor p l h enough k w =
      elim (Bool-cases (leb ((cursor + 8) % 2 ^ 32) end)) [
        | inl more ↦ rw more (
            apply_block-IsSafe delta cursor end p
              (λ c q. apply_blocks fuel image_bytes delta end c q) l
              (omega (arith, leb→le ((cursor + 8) % 2 ^ 32) end more)) k (omega arith)
              (λ c q low high kept.
                apply_blocks-IsSafe fuel delta end c q kept high (omega arith) k w))
        | inr done ↦ rw done (record { kept = l; inside = λ e. cc })
      ]

  apply_to-IsSafe :
      (delta : ℕ) (p : Progress) (d : Option Directory)
      → length p.mapped ≡ size
      → image_bytes + 8 < 2 ^ 32
      → IsSafe size (apply_to p image_bytes delta d)
  unfolding apply_to apply_directory
  apply_to-IsSafe delta p none l w = record { kept = l; inside = ground arith }
  apply_to-IsSafe delta p (some d) l w =
      either (IsSafe size) (d.virtual_address == 0 || d.size == 0) _ _
        (record { kept = l; inside = ground arith })
        (elim (Bool-cases
          (ltb image_bytes d.size || ltb (image_bytes - d.size) d.virtual_address)) [
            | inl bad ↦ rw bad (record { kept = l; inside = λ e. cc })
            | inr good ↦ rw good (
                apply_blocks-IsSafe d.size delta (d.virtual_address + d.size) d.virtual_address p l
                  (omega arith) (omega arith) (ground arith) w)
          ])

-- Every read and write of pe_reloc_apply is in the mapping, which keeps its size, whatever the
-- directory and the mapped bytes hold, if the image lies in the mapping and ends more than 8 bytes
-- before the end of the 32-bit addresses.
pub apply-IsSafe :
    (m : Bytes) (image_bytes : ℕ) (d : Option Directory) (preferred actual : ℕ) (stats : Stats)
    → image_bytes ≤ length m
    → image_bytes + 8 < 2 ^ 32
    → (length (apply m image_bytes d preferred actual stats).0.mapped ≡ length m)
      × ((apply m image_bytes d preferred actual stats).1 ≢ fault)
unfolding apply
apply-IsSafe m image_bytes d preferred actual stats h w =
    let delta = delta_of preferred actual in
    let refused : Progress = record { mapped = m; stats = stats } in
    let start : Progress = record { mapped = m; stats = record no_stats { delta = delta } } in
    let s =
      either (IsSafe (length m)) (image_bytes == 0) (refused, err precondition)
        (apply_to start image_bytes delta d) (record { kept = refl; inside = ground arith })
        (apply_to-IsSafe (length m) image_bytes h delta start d refl w) in
    (s.kept, s.inside)
