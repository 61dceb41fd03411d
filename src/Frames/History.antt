-- ===== src/Frames/History.antt =====
-- Any sequence of calls after `phys_mem_init`: the reserved frames stay used.
use hekaos_series.Base.{
  ℕ, zero, suc, ◌-◌, ◌/◌, ◌%◌, ◌≤◌, ◌<◌, ◌≡◌, ◌⊎◌, inl, inr, List, [], ◌∷◌, arith, ltb,
}
use hekaos_series.Word.{add32}
use hekaos_series.Frames.{
  Bitmap, total_frames, mem_size, region_start, reserved_frames, bitmap_size, fill_words, mem_init,
  alloc_frame, free_frame, alloc_contiguous, free_contiguous,
}
use hekaos_series.Frames.View.{used, used-clear_frames, used-fill_words}
use hekaos_series.Frames.Alloc.{alloc_frame-first_fit}
use hekaos_series.Frames.Free.{Reserved, free_frame-used, Granted-managed}
use hekaos_series.Frames.Contiguous.{alloc_contiguous-first_fit}
use hekaos_series.Frames.Release.{free_contiguous-cases}

-- `phys_mem_init` marks the frames of the managed region free, and those below it used.
pub used-mem_init :
    (f : ℕ) (m : Bitmap) → f < total_frames → used (mem_init m) f ≡ ltb f reserved_frames
unfolding mem_init
used-mem_init f m h =
    let full = fill_words bitmap_size 0 m in
    ground (
      arith,
      used-clear_frames (total_frames - reserved_frames) reserved_frames f full,
      used-fill_words f m,
    )

pub mem_init-Reserved : (m : Bitmap) → Reserved (mem_init m)
mem_init-Reserved m f h = ground (arith, used-mem_init f m)

-- A call of the allocator, by any of its four entry points.
pub data Call : Type 0 where
  alloc : Call
  free : ℕ → Call
  alloc_run : ℕ → Call
  free_run : ℕ → ℕ → Call

pub call : Call → Bitmap → Bitmap
call alloc m = (alloc_frame m).1
call (free addr) m = free_frame addr m
call (alloc_run n) m = (alloc_contiguous n m).1
call (free_run addr n) m = free_contiguous addr n m

pub calls : List Call → Bitmap → Bitmap
calls [] m = m
calls (c ∷ cs) m = calls cs (call c m)

alloc_frame-Reserved : (m : Bitmap) → Reserved m → Reserved (alloc_frame m).1
alloc_frame-Reserved m safe f h = elim (alloc_frame-first_fit m) [
  | inl e ↦ rw (e.same) (safe f h)
  | inr (g, granted) ↦ ground (arith, granted.marks f, safe f)
]

alloc_contiguous-Reserved : (n : ℕ) (m : Bitmap) → Reserved m → Reserved (alloc_contiguous n m).1
unfolding alloc_contiguous
alloc_contiguous-Reserved zero m safe f h = safe f h
alloc_contiguous-Reserved (suc n) m safe f h =
    elim (alloc_contiguous-first_fit (suc n) m (omega arith)) [
      | inl e ↦ rw (e.same) (safe f h)
      | inr (s, granted) ↦ ground (arith, granted.marks f, safe f)
    ]

-- No call frees a reserved frame, whatever its arguments.
pub call-Reserved : (c : Call) (m : Bitmap) → Reserved m → Reserved (call c m)
unfolding call
call-Reserved alloc m safe f h = alloc_frame-Reserved m safe f h
call-Reserved (free addr) m safe f h = ground (arith, (free_frame-used addr f 0 m).0, safe f)
call-Reserved (alloc_run n) m safe f h = alloc_contiguous-Reserved n m safe f h
call-Reserved (free_run addr n) m safe f h = rw (free_contiguous-cases addr n m) (
    ground
      (arith, used-clear_frames (add32 (addr / 4096) n - addr / 4096) (addr / 4096) f m, safe f))

pub calls-Reserved : (cs : List Call) (m : Bitmap) → Reserved m → Reserved (calls cs m)
unfolding calls
calls-Reserved [] m safe = safe
calls-Reserved (c ∷ cs) m safe = calls-Reserved cs (call c m) (call-Reserved c m safe)

-- After `phys_mem_init` and any calls, with any arguments, `phys_alloc_frame` returns null or the
-- aligned address of a frame between the start and the end of the managed region.
pub alloc_frame-in_region :
    (cs : List Call) (m : Bitmap)
    → let addr = (alloc_frame (calls cs (mem_init m))).0 in
      (addr ≡ 0) ⊎ ((region_start ≤ addr) × (addr < mem_size) × (addr % 4096 ≡ 0))
alloc_frame-in_region cs m =
    let now = calls cs (mem_init m) in
    elim (alloc_frame-first_fit now) [
      | inl e ↦ inl e.null
      | inr (f, granted) ↦
          let (above, _, _) =
            Granted-managed (calls-Reserved cs (mem_init m) (mem_init-Reserved m)) granted in
          inr (
            omega (arith, granted.address),
            omega (arith, granted.address, granted.managed),
            omega (arith, granted.address),
          )
    ]
