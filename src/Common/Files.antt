-- ===== src/Common/Files.antt =====
-- The file system, as an interface.
use mathlib.Core.Bool.{Bool}
use mathlib.Core.Option.{Option}
use gpuswarm.Common.Text.{Str}

-- os.ReadFile (`none` is an error), Stat (false is an error), MkdirAll and WriteFile (`some` is an
-- error) and filepath.Dir, on the state Disk.
pub record FileSystem : Type 1 where
  pub Disk : Type 0
  pub read : Disk → Str → Option Str
  pub stat : Disk → Str → Bool
  pub mkdir_all : Disk → Str → Disk × Option Str
  pub write : Disk → Str → Str → Disk × Option Str
  pub dir : Str → Str
