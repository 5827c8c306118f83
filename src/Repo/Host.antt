-- ===== src/Repo/Host.antt =====
-- What packages/repo/src takes from elsewhere: paths, files and digests of Node.js, on a POSIX host,
-- and the npm package `diff`. The state stands for the file system.
use protostar.Base.{◌≡◌, String, Bool, true, false, List, Option, some, ◌==◌, length}

-- What `lstat` tells.
pub data Stat : Type 0 where
  absent unreadable : Stat
  present : (is_symlink : Bool) → Stat

-- `lines` are those of the hunk; its position is its text.
pub record Hunk : Type 0 where
  pub position : String
  pub lines : List String

pub record StructuredPatch : Type 0 where
  pub old_file_name : Option String
  pub new_file_name : Option String
  pub hunks : List Hunk

pub record Host : Type 1 where
  pub State : Type 0
  pub Bytes : Type 0
  pub is_absolute : String → Bool
  pub resolve : String → String
  -- `resolve(root, path)` and `relative(from, to)`
  pub resolve_from : String → String → String
  pub relative : String → String → String
  -- `posix.normalize`
  pub normalize : String → String
  pub lstat : String → State → Stat
  -- `none` and `false` stand for a rejected promise.
  pub read_bytes : String → State → Option Bytes
  pub write_bytes : String → Bytes → State → State × Bool
  pub unlink : String → State → State × Bool
  -- `createHash("sha256").update(bytes).digest("hex")`
  pub sha256_hex : Bytes → String
  pub to_text : Bytes → String
  pub from_text : String → Bytes
  -- `none` where parsePatch throws, and where applyPatch returns false.
  pub parse_patch : String → Option (List StructuredPatch)
  pub apply_patch : String → StructuredPatch → Option String
  -- `[...new Set(paths)].sort()` sorts by code units.
  pub sort : List String → List String

-- What the code relies on: a write that succeeds is read back, and touches nothing at another
-- resolved path. The latter holds while no two resolved paths name one file, by a hard link or a
-- linked directory; of paths that are not resolved, as with a double slash, nothing is said.
pub record StoresFiles (host : Host) : Type 0 where
  pub read_written :
      (p : String) (b : host.Bytes) (s : host.State)
      → (host.write_bytes p b s).1 ≡ true
      → host.read_bytes p (host.write_bytes p b s).0 ≡ some b
  pub read_other :
      (p q : String) (b : host.Bytes) (s : host.State)
      → host.resolve p ≡ p
      → host.resolve q ≡ q
      → (p == q) ≡ false
      → host.read_bytes q (host.write_bytes p b s).0 ≡ host.read_bytes q s

-- Sorting keeps the length.
pub record Sorts (host : Host) : Type 0 where
  pub sort_length : (xs : List String) → length (host.sort xs) ≡ length xs
