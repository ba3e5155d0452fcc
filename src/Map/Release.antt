-- ===== src/Map/Release.antt =====
-- What a call of pw_map_image does with its reservation, on every path.
use ps5_homebrew_lab.Common.{
  ◌+◌, ◌^◌, ◌≤◌, ◌≡◌, ◌⊎◌, inl, inr, false, not, ◌||◌, length, ltb, ◌==◌, Outcome, ok, err, fault,
  Error, arith, refl, sym, subst, Bool-cases, ◌≢◌,
}
use ps5_homebrew_lab.Pe.Bytes.{Bytes}
use ps5_homebrew_lab.Pe.Image.{Image, magic_pe32}
use ps5_homebrew_lab.Pe.Layout.{Layout}
use ps5_homebrew_lab.Pe.Reloc.{Walk}
use ps5_homebrew_lab.Map.{
  Region, Backend, backend_valid, Mapped, unsuitable, mapping, reserve_for, finish_reloc,
  finish_fill, finish_commit, finish_reserve, map_image,
}

module _ (b : Backend) where
  open b use {State, commit}

  -- The state in which a reservation has been given back.
  unfoldable pub IsReleased : State → Region → State → Type 0
  IsReleased s r s' = s' ≡ (b.release s r).0

  finish_reloc-err :
      (s : State) (im : Image) (l : Layout) (r : Region) (w : Walk) (s' : State) (e : Error)
      → finish_reloc b s im l r w ≡ (s', err e)
      → IsReleased s r s'
  unfolding finish_reloc IsReleased
  finish_reloc-err s im l r (p, ok done) s' e h = cc
  finish_reloc-err s im l r (p, err code) s' e h = cc
  finish_reloc-err s im l r (p, fault) s' e h = cc

  finish_fill-err :
      (s : State) (im : Image) (l : Layout) (r : Region) (o : Outcome Bytes) (s' : State)
      (e : Error)
      → finish_fill b s im l r o ≡ (s', err e)
      → IsReleased s r s'
  unfolding finish_fill IsReleased
  finish_fill-err s im l r (ok memory) s' e h = finish_reloc-err s im l r _ s' e h
  finish_fill-err s im l r (err code) s' e h = cc
  finish_fill-err s im l r fault s' e h = cc

  finish_commit-err :
      (im : Image) (l : Layout) (r : Region) (memory : Bytes) (c : State × Outcome (Unit {0}))
      (s' : State) (e : Error)
      → finish_commit b im l r memory c ≡ (s', err e)
      → IsReleased c.0 r s'
  unfolding finish_commit IsReleased
  finish_commit-err im l r memory (s, ok done) s' e h = finish_fill-err s im l r _ s' e h
  finish_commit-err im l r memory (s, err code) s' e h = cc
  finish_commit-err im l r memory (s, fault) s' e h = cc

  -- What a mapping that succeeded has checked of its region.
  pub record IsSuitable (im : Image) (l : Layout) (r : Region) : Type 0 where
    wide : l.image_bytes ≤ r.bytes
    written : r.write_base ≢ 0
    run : r.exec_base ≢ 0
    preferred : l.relocatable ≡ false → r.exec_base ≡ l.preferred_base
    low : im.optional_magic ≡ magic_pe32 → r.exec_base + l.image_bytes ≤ 2 ^ 32

  pub record IsMapping (im : Image) (l : Layout) (r : Region) (m : Mapped) : Type 0 where
    region : m.region ≡ r
    address : m.actual_base ≡ r.exec_base
    bytes : m.image_bytes ≡ l.image_bytes
    sections : m.section_count ≡ length l.sections
    unprotected : m.protections_applied ≡ false

  finish_reloc-ok :
      (s : State) (im : Image) (l : Layout) (r : Region) (w : Walk) (s' : State) (m : Mapped)
      → finish_reloc b s im l r w ≡ (s', ok m)
      → IsMapping im l r m × (s' ≡ s)
  unfolding finish_reloc
  finish_reloc-ok s im l r (p, ok done) s' m h =
      let same : mapping im l r p ≡ m = cc in
      rw (← same) (
        record { region = refl; address = refl; bytes = refl; sections = refl; unprotected = refl },
        cc,
      )
  finish_reloc-ok s im l r (p, err code) s' m h = cc
  finish_reloc-ok s im l r (p, fault) s' m h = cc

  finish_fill-ok :
      (s : State) (im : Image) (l : Layout) (r : Region) (o : Outcome Bytes) (s' : State)
      (m : Mapped)
      → finish_fill b s im l r o ≡ (s', ok m)
      → IsMapping im l r m × (s' ≡ s)
  unfolding finish_fill
  finish_fill-ok s im l r (ok memory) s' m h = finish_reloc-ok s im l r _ s' m h
  finish_fill-ok s im l r (err code) s' m h = cc
  finish_fill-ok s im l r fault s' m h = cc

  finish_commit-ok :
      (im : Image) (l : Layout) (r : Region) (memory : Bytes) (c : State × Outcome (Unit {0}))
      (s' : State) (m : Mapped)
      → finish_commit b im l r memory c ≡ (s', ok m)
      → IsMapping im l r m × (s' ≡ c.0) × (c.1 ≡ ok tt)
  unfolding finish_commit
  finish_commit-ok im l r memory (s, ok done) s' m h =
      let (mapped, same) = finish_fill-ok s im l r _ s' m h in (mapped, same, refl)
  finish_commit-ok im l r memory (s, err code) s' m h = cc
  finish_commit-ok im l r memory (s, fault) s' m h = cc

  abbrev after_commit : State → Layout → Region → State
  after_commit s l r = (commit s r 0 l.image_bytes 3).0

  -- A call whose reservation r succeeded, in state s₁, and that fails gives r back, as the last thing that it does:
  -- either at once, or behind the commit.
  pub map_image-IsReleased :
      (s : State) (im : Image) (l : Layout) (s₁ : State) (r : Region) (memory : Bytes) (s' : State)
      (e : Error)
      → (not (backend_valid b) || l.image_bytes == 0 || length l.sections == 0) ≡ false
      → reserve_for b s l ≡ (s₁, ok (r, memory))
      → map_image b s im l ≡ (s', err e)
      → IsReleased s₁ r s' ⊎ IsReleased (after_commit s₁ l r) r s'
  unfolding map_image finish_reserve IsReleased
  map_image-IsReleased s im l s₁ r memory s' e valid reserved h =
      let h₁ = rw (valid, reserved) at h in
      elim (Bool-cases (r.write_base == 0 || r.exec_base == 0 || ltb r.bytes l.image_bytes)) [
        | inl bad ↦ inl (ground arith)
        | inr good ↦ elim (Bool-cases (unsuitable im l r)) [
          | inl bad ↦ inl (ground arith)
          | inr fine ↦
              let h₂ = rw (good, fine) at h₁ in
              inr (finish_commit-err im l r memory (commit s₁ r 0 l.image_bytes 3) s' e h₂)
        ]
      ]

  finish_reserve-ok :
      (im : Image) (l : Layout) (o : State × Outcome (Region × Bytes)) (s' : State) (m : Mapped)
      → finish_reserve b im l o ≡ (s', ok m)
      → (s₁ : State) × (memory : Bytes) × (o ≡ (s₁, ok (m.region, memory)))
        × (commit s₁ m.region 0 l.image_bytes 3 ≡ (s', ok tt))
        × IsSuitable im l m.region
        × IsMapping im l m.region m
  unfolding finish_reserve unsuitable
  finish_reserve-ok im l (s, err e) s' m h = cc
  finish_reserve-ok im l (s, fault) s' m h = cc
  finish_reserve-ok im l (s, ok (r, memory)) s' m h =
      elim (Bool-cases (r.write_base == 0 || r.exec_base == 0 || ltb r.bytes l.image_bytes)) [
        | inl bad ↦ ground arith
        | inr good ↦ elim (Bool-cases (unsuitable im l r)) [
          | inl bad ↦ ground arith
          | inr fine ↦
              let h₂ = rw (good, fine) at h in
              let (mapped, same, done) =
                finish_commit-ok im l r memory (commit s r 0 l.image_bytes 3) s' m h₂ in
              let suitable : IsSuitable im l r = record {
                wide = ground arith;
                written = ground arith;
                run = ground arith;
                preferred = λ fixed. ground arith;
                low = λ magic. ground arith;
              } in
              let whole : commit s r 0 l.image_bytes 3 ≡ (s', ok tt) = cc in
              (
                s,
                memory,
                rw mapped.region refl,
                rw mapped.region whole,
                rw mapped.region suitable,
                subst (λ (t : Region). IsMapping im l t m) (sym mapped.region) mapped,
              )
        ]
      ]

  -- A call that succeeds leaves the reservation r in its mapping: r is wide enough, lies at the preferred base where
  -- the image cannot be relocated, and below 4 GiB for a PE32 image, and it is committed.
  pub map_image-IsSuitable :
      (s : State) (im : Image) (l : Layout) (s' : State) (m : Mapped)
      → map_image b s im l ≡ (s', ok m)
      → (s₁ : State) × (memory : Bytes) × (reserve_for b s l ≡ (s₁, ok (m.region, memory)))
        × (commit s₁ m.region 0 l.image_bytes 3 ≡ (s', ok tt))
        × IsSuitable im l m.region
        × IsMapping im l m.region m
  unfolding map_image
  map_image-IsSuitable s im l s' m h =
      elim (Bool-cases (not (backend_valid b) || l.image_bytes == 0 || length l.sections == 0)) [
        | inl bad ↦ ground arith
        | inr valid ↦ finish_reserve-ok im l (reserve_for b s l) s' m (rw valid at h)
      ]
