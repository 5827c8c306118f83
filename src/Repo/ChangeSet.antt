-- ===== src/Repo/ChangeSet.antt =====
-- packages/repo/src/apply-change-set.ts, with canonicalizeRelativePath of packages/paths/src: patch
-- requests, and the change set that is applied patch by patch.
pub mod Patches
pub mod Guards
pub mod Contents
use Prim.Native.String
use Prim.Native.Char.{Char, code}
use text.Mathlib.Text.{starts_with}
use protostar.Base.{
  String, Bool, true, false, not, ◌&&◌, ◌||◌, List, [], ◌∷◌, Option, none, some, ◌==◌, any, map,
  length, is_empty, is_some, first_some, leb, nat_eq, if◌then◌else◌,
}
use protostar.Repo.Host.{Hunk, StructuredPatch, Host}
use protostar.Repo.Files.{
  AuthorizedWorkspaceOp, FsAdapterErrorReason, Guarded, ok, refused, read_file, write_file,
}
use protostar.Review.Loop.{unique}

pub record PatchRequest : Type 0 where
  pub path : String
  pub op : AuthorizedWorkspaceOp
  pub diff : String
  pub pre_image_sha256 : String

pub data PatchRequestMintError : Type 0 where
  path_mismatch diff_filename_mismatch diff_parse_error : PatchRequestMintError

pub data ChangeSetArchetype : Type 0 where
  cosmetic_tweak feature_add refactor bugfix : ChangeSetArchetype

pub data ApplyStatus : Type 0 where
  applied skipped_hash_mismatch skipped_error : ApplyStatus

pub data ApplyError : Type 0 where
  binary_not_supported cosmetic_archetype_multifile hunk_fit_failure : ApplyError
  io_error parse_error path_op_diff_mismatch : ApplyError

pub record ApplyResult : Type 0 where
  pub path : String
  pub status : ApplyStatus
  pub error : Option ApplyError
  pub touched_files : Option (List String)

-- `slice(2)`
slice_two : String → String
slice_two (String.◌∷◌ c (String.◌∷◌ d s)) = s
slice_two _ = String.[]

unfoldable pub strip_diff_prefix : String → String
unfolding slice_two
strip_diff_prefix filename =
    if starts_with filename "a/" || starts_with filename "b/" then slice_two filename else filename

abbrev pub first : List StructuredPatch → Option StructuredPatch
first [] = none
first (p ∷ ps) = some p

abbrev is_line_terminator : Char → Bool
is_line_terminator c =
    nat_eq (code c) 10 || (nat_eq (code c) 13 || (nat_eq (code c) 8232 || nat_eq (code c) 8233))

-- `/^Binary files /m`, from a position that is or is not the start of a line.
unfoldable pub has_binary_line : Bool → String → Bool
has_binary_line at_start String.[] = false
has_binary_line at_start (String.◌∷◌ c s) =
    (at_start && starts_with (String.◌∷◌ c s) "Binary files ")
    || has_binary_line (is_line_terminator c) s

unfoldable pub contains_binary_marker : String → List StructuredPatch → Bool
unfolding has_binary_line
contains_binary_marker diff_text parsed =
    has_binary_line true diff_text
    || any (λ p. any (λ h. any (λ l. starts_with l "Binary files ") h.lines) p.hunks) parsed

pub data Check : Type 0 where
  checked : (canon_path : String) → Check
  mismatched : PatchRequestMintError → Check

pub data Minted : Type 0 where
  minted : PatchRequest → Minted
  refused_mint : PatchRequestMintError → Minted

-- What becomes of the bytes of a file: the new text, or the result without a write.
pub data Patched : Type 0 where
  patched : String → Patched
  stopped : ApplyStatus → Option ApplyError → Patched

abbrev pub result : String → ApplyStatus → Option ApplyError → ApplyResult
result path status error = record {
  path = path;
  status = status;
  error = error;
  touched_files = none;
}

abbrev pub failed : String → ApplyError → ApplyResult
failed path error = result path skipped_error (some error)

abbrev pub is_cosmetic : Option ChangeSetArchetype → Bool
is_cosmetic (some cosmetic_tweak) = true
is_cosmetic _ = false

module _ (host : Host) where
  open host use {
    State, Bytes, is_absolute, relative, normalize, sha256_hex, to_text, from_text, parse_patch,
    apply_patch, sort,
  }

  -- `none` stands for the error that the function throws.
  unfoldable pub canonicalize_relative_path : String → Option String
  unfolding slice_two
  canonicalize_relative_path input =
      let normal = normalize input in
      let normalized = if starts_with normal "./" then slice_two normal else normal in
      if is_absolute input
      then none
      else if normalized == ".." || starts_with normalized "../"
      then none
      else some normalized

  unfoldable pub op_path_relative : AuthorizedWorkspaceOp → String
  op_path_relative op = if is_absolute op.path then relative op.root op.path else op.path

  -- The name of the file that the diff is of.
  unfoldable pub diff_filename : List StructuredPatch → Option String
  diff_filename parsed = elim (first parsed) [
    | none ↦ none
    | some p ↦ elim (first_some p.new_file_name p.old_file_name) [
      | none ↦ none
      | some filename ↦ if filename == "/dev/null" || filename == "" then none else some filename
    ]
  ]

  abbrev pub check_diff_path : String → Option String → Check
  check_diff_path canon none = mismatched diff_filename_mismatch
  check_diff_path canon (some diff_path) =
      if canon == diff_path then checked canon else mismatched diff_filename_mismatch

  abbrev pub check_filename : String → Option String → Check
  check_filename canon none = mismatched diff_parse_error
  check_filename canon (some filename) =
      check_diff_path canon (canonicalize_relative_path (strip_diff_prefix filename))

  unfoldable pub check_diff : String → Option (List StructuredPatch) → Check
  unfolding diff_filename
  check_diff canon none = mismatched diff_parse_error
  check_diff canon (some parsed) = check_filename canon (diff_filename parsed)

  abbrev pub check_paths : Option String → Option String → String → Check
  check_paths (some canon) (some canon_op) diff =
      if canon == canon_op then check_diff canon (parse_patch diff) else mismatched path_mismatch
  check_paths _ _ diff = mismatched path_mismatch

  unfoldable pub check_invariant : PatchRequest → Check
  unfolding check_diff op_path_relative
  check_invariant input =
      check_paths (canonicalize_relative_path input.path)
        (canonicalize_relative_path (op_path_relative input.op)) input.diff

  -- mintPatchRequest; the request has the fields of its input.
  unfoldable pub mint_patch_request : PatchRequest → Minted
  unfolding check_invariant
  mint_patch_request input = elim (check_invariant input) [
    | checked canon ↦ minted input
    | mismatched error ↦ refused_mint error
  ]

  unfoldable pub reassert_invariants : List PatchRequest → Option (List ApplyResult)
  unfolding check_invariant
  reassert_invariants [] = none
  reassert_invariants (patch ∷ patches) = elim (check_invariant patch) [
    | checked canon ↦ reassert_invariants patches
    | mismatched error ↦ some (failed patch.path path_op_diff_mismatch ∷ [])
  ]

  abbrev pub touched : List PatchRequest → List String
  touched patches = sort (unique [] (map (λ p. p.path) patches))

  abbrev pub first_path : List PatchRequest → List String → String
  first_path (p ∷ ps) files = p.path
  first_path [] (f ∷ fs) = f
  first_path [] [] = ""

  unfoldable pub refuse_cosmetic_multifile :
      List PatchRequest → Option ChangeSetArchetype → Option (List ApplyResult)
  refuse_cosmetic_multifile patches archetype =
      if not (is_cosmetic archetype) || leb (length (touched patches)) 1
      then none
      else some (
          record (failed (first_path patches (touched patches)) cosmetic_archetype_multifile) {
            touched_files = some (touched patches);
          }
          ∷ [])

  abbrev pub fit : Option String → Patched
  fit none = stopped skipped_error (some hunk_fit_failure)
  fit (some text) = patched text

  abbrev pub fit_first : Bytes → Option StructuredPatch → Patched
  fit_first bytes none = stopped skipped_error (some parse_error)
  fit_first bytes (some p) =
      if is_empty p.hunks
      then stopped skipped_error (some parse_error)
      else fit (apply_patch (to_text bytes) p)

  abbrev pub fit_parsed : PatchRequest → Bytes → Option (List StructuredPatch) → Patched
  fit_parsed patch bytes none = stopped skipped_error (some parse_error)
  fit_parsed patch bytes (some parsed) =
      if contains_binary_marker patch.diff parsed
      then stopped skipped_error (some binary_not_supported)
      else fit_first bytes (first parsed)

  -- From the bytes that were read to the text that is written.
  unfoldable pub patch_bytes : PatchRequest → Bytes → Patched
  unfolding contains_binary_marker
  patch_bytes patch bytes =
      if not (sha256_hex bytes == patch.pre_image_sha256)
      then stopped skipped_hash_mismatch none
      else fit_parsed patch bytes (parse_patch patch.diff)

  abbrev pub written : PatchRequest → State × Guarded (Unit {0}) → State × ApplyResult
  written patch (s, ok _) = (s, result patch.path applied none)
  written patch (s, refused _) = (s, failed patch.path io_error)

  abbrev pub write_patched : PatchRequest → State → Patched → State × ApplyResult
  write_patched patch s (patched text) = written patch (write_file host patch.op (from_text text) s)
  write_patched patch s (stopped status error) = (s, result patch.path status error)

  abbrev pub apply_read : PatchRequest → State → Guarded Bytes → State × ApplyResult
  apply_read patch s (refused _) = (s, failed patch.path io_error)
  apply_read patch s (ok bytes) = write_patched patch s (patch_bytes patch bytes)

  unfoldable pub apply_one_patch : PatchRequest → State → State × ApplyResult
  unfolding patch_bytes read_file write_file
  apply_one_patch patch s = apply_read patch s (read_file host patch.op s)

  -- The loop over the patches.
  unfoldable pub apply_patches : List PatchRequest → State → State × List ApplyResult
  unfolding apply_one_patch
  apply_patches [] s = (s, [])
  apply_patches (patch ∷ patches) s =
      let (s', r) = apply_one_patch patch s in
      let (s'', rs) = apply_patches patches s' in (s'', r ∷ rs)

  abbrev pub unless_some :
      Option (List ApplyResult) → State × List ApplyResult → State → State × List ApplyResult
  unless_some none run s = run
  unless_some (some refusal) run s = (s, refusal)

  unfoldable pub apply_change_set :
      List PatchRequest → Option ChangeSetArchetype → State → State × List ApplyResult
  unfolding reassert_invariants refuse_cosmetic_multifile apply_patches
  apply_change_set patches archetype s =
      unless_some (reassert_invariants patches)
        (unless_some (refuse_cosmetic_multifile patches archetype) (apply_patches patches s) s) s
