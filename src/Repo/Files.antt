-- ===== src/Repo/Files.antt =====
-- packages/repo/src/fs-adapter.ts: reading, writing and deleting one file of a workspace. An error
-- is shown by its reason.
pub mod Paths
use Prim.Native.String
use text.Mathlib.Text.{starts_with}
use protostar.Base.{String, Bool, true, false, not, ◌||◌, Option, none, some, ◌==◌, if◌then◌else◌}
use protostar.Repo.Host.{Stat, absent, unreadable, present, Host}

pub data FileAccess : Type 0 where
  read write execute : FileAccess

-- What the adapter reads of an `AuthorizedWorkspaceOp`; `root` is the root of its workspace.
pub record AuthorizedWorkspaceOp : Type 0 where
  pub root : String
  pub path : String
  pub access : FileAccess

pub data FsAdapterErrorReason : Type 0 where
  canonicalization_mismatch escape_attempt symlink_refusal access_mismatch : FsAdapterErrorReason
  io_error : FsAdapterErrorReason

pub data Guarded {ℓ} (A : Type ℓ) : Type ℓ where
  ok : A → Guarded A
  refused : FsAdapterErrorReason → Guarded A

infixl 5 ◌>>=◌ ◌>>◌
abbrev pub ◌>>=◌ {ℓ κ} : {A : Type ℓ} {B : Type κ} → Guarded A → (A → Guarded B) → Guarded B
ok a >>= f = f a
refused e >>= f = refused e

abbrev pub ◌>>◌ {ℓ} : {B : Type ℓ} → Guarded (Unit {0}) → Guarded B → Guarded B
m >> k = m >>= λ _. k

abbrev pub or_io_error {ℓ} : {A : Type ℓ} → Option A → Guarded A
or_io_error none = refused io_error
or_io_error (some a) = ok a

-- Every access of the type may read.
unfoldable pub assert_read_access : AuthorizedWorkspaceOp → Guarded (Unit {0})
assert_read_access op = elim op.access [ read ↦ ok tt | write ↦ ok tt | execute ↦ ok tt ]

unfoldable pub assert_write_access : AuthorizedWorkspaceOp → Guarded (Unit {0})
assert_write_access op = elim op.access [ write ↦ ok tt | _ ↦ refused access_mismatch ]

module _ (host : Host) where
  open host use {
    State, Bytes, is_absolute, resolve, resolve_from, relative, lstat, read_bytes, write_bytes,
    unlink,
  }

  unfoldable pub assert_safe_path : AuthorizedWorkspaceOp → Guarded String
  assert_safe_path op =
      let resolved =
        if is_absolute op.path then resolve op.path else resolve_from op.root op.path in
      let inside = relative op.root resolved in
      if not (resolved == op.path)
      then refused canonicalization_mismatch
      else if inside == ".." || (starts_with inside "../" || is_absolute inside)
      then refused escape_attempt
      else ok resolved

  unfoldable pub assert_no_symlink : String → State → Guarded (Unit {0})
  assert_no_symlink path s = elim (lstat path s) [
    | present link ↦ if link then refused symlink_refusal else ok tt
    | _ ↦ refused io_error
  ]

  unfoldable pub assert_writable_target_is_not_symlink : String → State → Guarded (Unit {0})
  assert_writable_target_is_not_symlink path s = elim (lstat path s) [
    | present link ↦ if link then refused symlink_refusal else ok tt
    | absent ↦ ok tt
    | unreadable ↦ refused io_error
  ]

  unfoldable pub read_file : AuthorizedWorkspaceOp → State → Guarded Bytes
  unfolding assert_read_access assert_safe_path assert_no_symlink
  read_file op s = do
    assert_read_access op
    path ← assert_safe_path op
    assert_no_symlink path s
    or_io_error (read_bytes path s)

  -- What the call of Node.js comes to, with a check of the new state behind it.
  abbrev pub checked_after :
      State × Bool → (State → Guarded (Unit {0})) → State × Guarded (Unit {0})
  checked_after (s, true) check = (s, check s)
  checked_after (s, false) check = (s, refused io_error)

  abbrev pub unless_refused :
      Guarded String → State → (String → State × Guarded (Unit {0})) → State × Guarded (Unit {0})
  unless_refused (ok path) s act = act path
  unless_refused (refused e) s act = (s, refused e)

  -- The path that the checks before a write let through.
  unfoldable pub writable_path : AuthorizedWorkspaceOp → State → Guarded String
  unfolding assert_write_access assert_safe_path assert_writable_target_is_not_symlink
  writable_path op s = do
    assert_write_access op
    path ← assert_safe_path op
    assert_writable_target_is_not_symlink path s
    ok path

  unfoldable pub write_file : AuthorizedWorkspaceOp → Bytes → State → State × Guarded (Unit {0})
  unfolding writable_path assert_no_symlink
  write_file op bytes s =
      unless_refused (writable_path op s) s
        (λ path. checked_after (write_bytes path bytes s) (assert_no_symlink path))

  unfoldable pub deletable_path : AuthorizedWorkspaceOp → State → Guarded String
  unfolding assert_write_access assert_safe_path assert_no_symlink
  deletable_path op s = do
    assert_write_access op
    path ← assert_safe_path op
    assert_no_symlink path s
    ok path

  unfoldable pub delete_file : AuthorizedWorkspaceOp → State → State × Guarded (Unit {0})
  unfolding deletable_path
  delete_file op s =
      unless_refused (deletable_path op s) s (λ path. checked_after (unlink path s) (λ _. ok tt))
