-- ===== src/Repo/ChangeSet/Patches.antt =====
-- What one patch does, and what a run of patches does to the contents of the files.
use protostar.Base.{
  ◌≡◌, ◌≢◌, refl, sym, subst, ap, ◌∙◌, inl, inr, String, false, List, [], ◌∷◌, Option, none, some,
  arith, ◌==◌, eq_iff, is_empty, Bool-cases,
}
use protostar.Repo.Host.{StructuredPatch, Host, StoresFiles}
use protostar.Repo.Files.{
  write, FsAdapterErrorReason, Guarded, ok, refused, assert_safe_path, read_file, write_file,
}
use protostar.Repo.Files.Paths.{Guarded-cases, read_file-ok, write_file-other, write_file-ok}
use protostar.Repo.ChangeSet.{
  PatchRequest, ApplyStatus, applied, skipped_hash_mismatch, skipped_error, ApplyError, io_error,
  ApplyResult, contains_binary_marker, Patched, patched, stopped, result, failed, fit_parsed,
  patch_bytes, written, write_patched, apply_read, apply_one_patch,
}

module _ (host : Host) where
  open host use {State, Bytes, read_bytes, sha256_hex, to_text, from_text, parse_patch, apply_patch}

  -- The first patch of the diff has hunks, none of them marks a binary file, and it takes the text of
  -- `bytes` to `text`.
  abbrev pub Patches : PatchRequest → Bytes → String → Type 0
  Patches p bytes text =
      (patch : StructuredPatch) × (rest : List StructuredPatch) × (parse_patch p.diff
        ≡ some (patch ∷ rest))
      × (is_empty patch.hunks ≡ false)
      × (contains_binary_marker p.diff (patch ∷ rest) ≡ false)
      × (apply_patch (to_text bytes) patch ≡ some text)

  -- What a result says of its patch, where `before` and `after` are the contents of its file.
  abbrev pub IsAccountOf : PatchRequest → (before after : Option Bytes) → ApplyResult → Type 0
  IsAccountOf p before after r =
      (r.path ≡ p.path)
      × (r.status ≡ applied
          → (p.op.access ≡ write)
            × (assert_safe_path host p.op ≡ ok p.op.path)
            × (bytes : Bytes) × (text : String) × (before ≡ some bytes)
            × (sha256_hex bytes ≡ p.pre_image_sha256)
            × Patches p bytes text
            × (after ≡ some (from_text text)))
      × (r.status ≡ skipped_hash_mismatch
          → (bytes : Bytes) × (before ≡ some bytes) × (sha256_hex bytes ≢ p.pre_image_sha256))
      × (r.status ≢ applied → r.error ≢ some io_error → after ≡ before)

  patch_bytes-patched :
      (p : PatchRequest) (b : Bytes) (text : String)
      → patch_bytes host p b ≡ patched text
      → (sha256_hex b ≡ p.pre_image_sha256) × Patches p b text
  unfolding patch_bytes
  patch_bytes-patched p b text h = elim (Bool-cases (sha256_hex b == p.pre_image_sha256)) [
    | inr other ↦ absurd (cc (rw other at h))
    | inl same ↦ ((eq_iff _ _).0 same, parsed-patched (parse_patch p.diff) refl (rw same at h))
  ]
    where
      parsed-patched :
          (o : Option (List StructuredPatch))
          → parse_patch p.diff ≡ o
          → fit_parsed host p b o ≡ patched text
          → Patches p b text
      parsed-patched none e k = absurd (cc)
      parsed-patched (some []) e k = absurd (ground (arith, k))
      parsed-patched (some (q ∷ qs)) e k = (q, qs, e, ground arith, ground arith, ground arith)

  fit_parsed-stopped :
      (p : PatchRequest) (b : Bytes) (o : Option (List StructuredPatch)) (status : ApplyStatus)
      (error : Option ApplyError)
      → fit_parsed host p b o ≡ stopped status error
      → status ≡ skipped_error
  fit_parsed-stopped p b none status error h = cc
  fit_parsed-stopped p b (some []) status error h = ground arith
  fit_parsed-stopped p b (some (q ∷ qs)) status error h = ground arith

  patch_bytes-stopped :
      (p : PatchRequest) (b : Bytes) (status : ApplyStatus) (error : Option ApplyError)
      → patch_bytes host p b ≡ stopped status error
      → (status ≢ applied) × (status ≡ skipped_hash_mismatch → sha256_hex b ≢ p.pre_image_sha256)
  unfolding patch_bytes
  patch_bytes-stopped p b status error h = elim (Bool-cases (sha256_hex b == p.pre_image_sha256)) [
    | inr other ↦ (ground arith, λ e same. cc ((eq_iff _ _).1 same))
    | inl same ↦
        let kind = fit_parsed-stopped p b (parse_patch p.diff) status error (rw same at h) in
        (ground arith, ground arith)
  ]

  written-state : (p : PatchRequest) (w : State × Guarded (Unit {0})) → (written host p w).0 ≡ w.0
  written-state p (s, ok u) = refl
  written-state p (s, refused e) = refl

  written-ok :
      (p : PatchRequest) (w : State × Guarded (Unit {0})) (u : Unit {0})
      → w.1 ≡ ok u
      → written host p w ≡ (w.0, result p.path applied none)
  written-ok p (s, ok u') u h = refl
  written-ok p (s, refused e) u h = absurd (cc)

  written-refused :
      (p : PatchRequest) (w : State × Guarded (Unit {0})) (e : FsAdapterErrorReason)
      → w.1 ≡ refused e
      → written host p w ≡ (w.0, failed p.path io_error)
  written-refused p (s, ok u) e h = absurd (cc)
  written-refused p (s, refused e') e h = refl

  -- The result of one patch accounts for what happened to its file.
  module _ (stores : StoresFiles host) (p : PatchRequest) (s : State) where
    abbrev pub Accounts : State × ApplyResult → Type 0
    Accounts (s', r) = IsAccountOf p (read_bytes p.op.path s) (read_bytes p.op.path s') r

    write_patched-Accounts :
        (b : Bytes) (x : Patched)
        → read_bytes p.op.path s ≡ some b
        → patch_bytes host p b ≡ x
        → Accounts (write_patched host p s x)
    write_patched-Accounts b (stopped status error) before e =
        let (not_applied, mismatch) = patch_bytes-stopped p b status error e in
        (refl, λ h. absurd (not_applied h), λ h. (b, before, mismatch h), λ h k. refl)
    write_patched-Accounts b (patched text) before e =
        let (same, patches) = patch_bytes-patched p b text e in
        let w = write_file host p.op (from_text text) s in
        elim (Guarded-cases w.1) [
          | inl (reason, not_written) ↦
              subst Accounts (sym (written-refused p w reason not_written))
                (refl, λ h. cc, λ h. cc, λ h k. absurd (k refl))
          | inr (u, wrote) ↦
              let (access, safe, after) = write_file-ok host stores p.op (from_text text) s wrote in
              subst Accounts (sym (written-ok p w u wrote)) (
                refl,
                λ h. (access, safe, b, text, before, same, patches, after),
                λ h. cc,
                λ h k. absurd (h refl),
              )
        ]

    pub apply_one_patch-Accounts : Accounts (apply_one_patch host p s)
    unfolding apply_one_patch
    apply_one_patch-Accounts = elim (Guarded-cases (read_file host p.op s)) [
      | inl (reason, not_read) ↦ rw (not_read, apply_read) (refl, λ h. cc, λ h. cc, λ h k. refl)
      | inr (b, was_read) ↦
          rw (was_read, apply_read)
            (write_patched-Accounts b (patch_bytes host p b) (read_file-ok host p.op s b was_read)
              refl)
    ]

    write_patched-other :
        (x : Patched) (q : String)
        → host.resolve p.op.path ≡ p.op.path
        → host.resolve q ≡ q
        → (p.op.path == q) ≡ false
        → read_bytes q (write_patched host p s x).0 ≡ read_bytes q s
    write_patched-other (stopped status error) q own resolved h = refl
    write_patched-other (patched text) q own resolved h =
        ap (read_bytes q) (written-state p (write_file host p.op (from_text text) s))
        ∙ write_file-other host stores p.op (from_text text) s q own resolved h

    -- Nothing at another resolved path changes.
    pub apply_one_patch-other :
        (q : String)
        → host.resolve p.op.path ≡ p.op.path
        → host.resolve q ≡ q
        → (p.op.path == q) ≡ false
        → read_bytes q (apply_one_patch host p s).0 ≡ read_bytes q s
    unfolding apply_one_patch
    apply_one_patch-other q own resolved h = elim (Guarded-cases (read_file host p.op s)) [
      | inl (reason, not_read) ↦ rw (not_read, apply_read)
      | inr (b, was_read) ↦
          rw (was_read, apply_read) (write_patched-other (patch_bytes host p b) q own resolved h)
    ]
