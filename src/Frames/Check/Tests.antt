-- ===== src/Frames/Check/Tests.antt =====
-- The theorem on `phys_mem_test` for a bitmap of zeros.
use hekaos_series.Base.{◌≡◌, some}
use hekaos_series.Frames.{Bitmap, mem_init}
use hekaos_series.Frames.Check.{phys_mem_test}
use hekaos_series.Frames.Check.Taken.{Taken}
use hekaos_series.Frames.Check.Passes.{phys_mem_test-Taken}

phys_mem_test-Taken_example :
    (m' : Bitmap) × (phys_mem_test (mem_init (λ i. 0)) ≡ some m') × Taken 0 m'
phys_mem_test-Taken_example = phys_mem_test-Taken (λ i. 0)
