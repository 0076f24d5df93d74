-- ===== src/Pki/Files.antt =====
-- `WriteFile` of internal/pki/pki.go: a file is written under a temporary name and renamed.
--
-- The calls of the operating system are the record `Files`; each may fail.
pub mod Atomic
use Prim.Native.String.{◌++◌}
use k3_control_plane.Base.{ℕ, String, Bool, true, false}
use k3_control_plane.Base.Attempt.{attempt}

pub data Read : Type 0 where
  contents : String → Read
  absent unreadable : Read

-- A call that changes the files gives them with whether there was no error.
pub record Files (F : Type 0) : Type 0 where
  pub read_file : String → F → Read
  -- os.OpenFile with O_WRONLY, O_CREATE and O_TRUNC, and the permissions of a new file
  pub open_empty : String → ℕ → F → F × Bool
  pub write : String → String → F → F × Bool
  pub sync : String → F → F × Bool
  pub close : String → F → F × Bool
  pub rename : String → String → F → F × Bool

-- 0o600 and 0o644
abbrev pub owner_only : ℕ
owner_only = 384

abbrev pub readable_by_all : ℕ
readable_by_all = 420

module _ {F : Type 0} (files : Files F) where
  -- `f.Close()`, whose error is not looked at, and the return of an error
  abbrev pub close_and_fail : String → F → F × Bool
  close_and_fail path f = ((files.close path f).0, false)

  unfoldable pub write_file : String → String → ℕ → F → F × Bool
  write_file path bytes perm f =
      let tmp = path ++ ".tmp" in
      attempt (files.open_empty tmp perm f) (λ g. (g, false))
        λ opened. attempt (files.write tmp bytes opened) (close_and_fail tmp) λ written.
          attempt (files.sync tmp written) (close_and_fail tmp)
            λ synced. attempt (files.close tmp synced) (λ g. (g, false)) (files.rename tmp path)
