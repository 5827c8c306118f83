-- ===== src/Repo/Files/Paths.antt =====
-- What the guards of the file adapter let through.
use protostar.Base.{
  ◌≡◌, refl, sym, subst, ap, ◌∙◌, ◌⊎◌, inl, inr, String, Bool, true, false, Option, none, some,
  arith, ◌==◌, eq_iff, if◌then◌else◌,
}
use protostar.Repo.Host.{Host, StoresFiles}
use protostar.Repo.Files.{
  write, AuthorizedWorkspaceOp, FsAdapterErrorReason, Guarded, ok, refused, ◌>>=◌,
  assert_read_access, assert_write_access, assert_safe_path, or_io_error, checked_after,
  unless_refused, assert_no_symlink, assert_writable_target_is_not_symlink, read_file,
  writable_path, write_file,
}

bind_ok :
    {A B : Type 0} (m : Guarded A) (f : A → Guarded B) {b : B}
    → (m >>= f) ≡ ok b
    → (a : A) × (m ≡ ok a) × (f a ≡ ok b)
bind_ok (ok a) f h = (a, refl, h)
bind_ok (refused e) f h = absurd (cc)

or_io_error-ok : {A : Type 0} (o : Option A) {a : A} → or_io_error o ≡ ok a → o ≡ some a
or_io_error-ok none h = absurd (cc)
or_io_error-ok (some a) h = cc

pub Guarded-cases :
    {A : Type 0} (m : Guarded A)
    → ((e : FsAdapterErrorReason) × (m ≡ refused e)) ⊎ ((a : A) × (m ≡ ok a))
Guarded-cases (ok a) = inr (a, refl)
Guarded-cases (refused e) = inl (e, refl)

module _ (host : Host) where
  -- A path that is let through is the path of the operation.
  safe_path-own :
      (op : AuthorizedWorkspaceOp) (path : String)
      → assert_safe_path host op ≡ ok path
      → path ≡ op.path
  unfolding assert_safe_path
  safe_path-own op path h = ground (
    arith,
    eq_iff
        (if host.is_absolute op.path
          then host.resolve op.path
          else host.resolve_from op.root op.path)
        op.path,
  )

  -- What is read is the content of the operation's path.
  pub read_file-ok :
      (op : AuthorizedWorkspaceOp) (s : host.State) (b : host.Bytes)
      → read_file host op s ≡ ok b
      → host.read_bytes op.path s ≡ some b
  unfolding read_file
  read_file-ok op s b h =
      let (_, _, h₁) = bind_ok (assert_read_access op) _ h in
      let (path, safe, h₂) = bind_ok (assert_safe_path host op) _ h₁ in
      let (_, _, h₃) = bind_ok (assert_no_symlink host path s) _ h₂ in
      ap (λ q. host.read_bytes q s) (sym (safe_path-own op path safe)) ∙ or_io_error-ok _ h₃

  -- A write that is let through has write access and goes to the operation's path, inside the
  -- workspace.
  pub writable_path-ok :
      (op : AuthorizedWorkspaceOp) (s : host.State) (path : String)
      → writable_path host op s ≡ ok path
      → (op.access ≡ write) × (assert_safe_path host op ≡ ok op.path) × (path ≡ op.path)
  unfolding writable_path assert_write_access
  writable_path-ok op s path h =
      let (_, access, h₁) = bind_ok (assert_write_access op) _ h in
      let (path', safe, h₂) = bind_ok (assert_safe_path host op) _ h₁ in
      let (_, _, h₃) = bind_ok (assert_writable_target_is_not_symlink host path' s) _ h₂ in
      let own = safe_path-own op path' safe in (ground arith, safe ∙ ap ok own, ground arith)

  checked_after-state :
      (w : host.State × Bool) (check : host.State → Guarded (Unit {0}))
      → (checked_after host w check).0 ≡ w.0
  checked_after-state (s, true) check = refl
  checked_after-state (s, false) check = refl

  checked_after-ok :
      (w : host.State × Bool) (check : host.State → Guarded (Unit {0})) {u : Unit {0}}
      → (checked_after host w check).1 ≡ ok u
      → w.1 ≡ true
  checked_after-ok (s, true) check h = refl
  checked_after-ok (s, false) check h = cc

  module _ (stores : StoresFiles host) (op : AuthorizedWorkspaceOp) (b : host.Bytes)
      (s : host.State) where
    -- A write changes nothing at another resolved path, whether it succeeds or not.
    pub write_file-other :
        (q : String)
        → host.resolve op.path ≡ op.path
        → host.resolve q ≡ q
        → (op.path == q) ≡ false
        → host.read_bytes q (write_file host op b s).0 ≡ host.read_bytes q s
    unfolding write_file
    write_file-other q own_resolved resolved h = elim (Guarded-cases (writable_path host op s)) [
      | inl (e, stopped) ↦ rw (stopped, unless_refused)
      | inr (path, let_through) ↦
          let (_, _, own) = writable_path-ok op s path let_through in
          rw (let_through, unless_refused)
            (ap (host.read_bytes q) (checked_after-state (host.write_bytes path b s) _)
              ∙ stores.read_other path q b s
                  (subst (λ p. host.resolve p ≡ p) (sym own) own_resolved) resolved
                  (subst (λ p. (p == q) ≡ false) (sym own) h))
    ]

    -- A write that succeeds had write access, went inside the workspace, and is read back.
    pub write_file-ok :
        {u : Unit {0}}
        → (write_file host op b s).1 ≡ ok u
        → (op.access ≡ write)
          × (assert_safe_path host op ≡ ok op.path)
          × (host.read_bytes op.path (write_file host op b s).0 ≡ some b)
    unfolding write_file
    write_file-ok h = elim (Guarded-cases (writable_path host op s)) [
      | inl (e, stopped) ↦ absurd (cc (rw (stopped, unless_refused) at h))
      | inr (path, let_through) ↦
          let (access, safe, own) = writable_path-ok op s path let_through in
          let wrote =
            checked_after-ok (host.write_bytes path b s) _
              (rw (let_through, unless_refused) at h) in
          (
            access,
            safe,
            rw (let_through, unless_refused)
                (ap (host.read_bytes op.path) (checked_after-state (host.write_bytes path b s) _)
                  ∙ ap (λ q. host.read_bytes q (host.write_bytes path b s).0) (sym own)
                  ∙ stores.read_written path b s wrote),
          )
    ]
