-- ===== src/Domain/Resources.antt =====
-- app/domain/value_objects/resource_requirements.py, and the units of time.
use aethergrid.Base.{ℕ, ◌*◌, ◌≤◌, Bool, ◌&&◌, leb}

abbrev pub Time : Type 0
Time = ℕ

abbrev pub Duration : Type 0
Duration = ℕ

-- `timedelta(seconds=n)`
abbrev pub seconds : ℕ → Duration
seconds n = n * 1000000

-- A bundle of compute resources. `__post_init__` refuses negative amounts, so they are naturals.
pub record Resources : Type 0 where
  pub cpu_cores : ℕ
  pub memory_mib : ℕ
  pub vram_mib : ℕ

-- Componentwise order: what `Node.__post_init__` and `Node.can_host` compare by.
pub record Fits (r s : Resources) : Type 0 where
  pub cpu : r.cpu_cores ≤ s.cpu_cores
  pub memory : r.memory_mib ≤ s.memory_mib
  pub vram : r.vram_mib ≤ s.vram_mib

unfoldable pub covers : Resources → Resources → Bool
covers s r =
    leb r.cpu_cores s.cpu_cores && (leb r.memory_mib s.memory_mib && leb r.vram_mib s.vram_mib)
