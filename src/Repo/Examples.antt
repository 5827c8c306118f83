-- ===== src/Repo/Examples.antt =====
-- A host whose files are a dictionary, and change sets of one and of two files. Its digest of a text
-- is the text, and a diff is the text that it leads to.
use text.Mathlib.Text.{starts_with}
use protostar.Base.{
  ◌≡◌, refl, String, true, false, List, [], ◌∷◌, Option, none, some, ◌==◌, Dict, get, put, arith,
  get-put, eq_refl, has, if◌then◌else◌,
}
use protostar.Repo.Host.{Stat, absent, present, StructuredPatch, Host, StoresFiles, Sorts}
use protostar.Repo.Files.{write}
use protostar.Repo.ChangeSet.{
  PatchRequest, cosmetic_tweak, feature_add, ApplyStatus, applied, skipped_error,
  skipped_hash_mismatch, ApplyResult, strip_diff_prefix, canonicalize_relative_path,
  op_path_relative, diff_filename, check_invariant, apply_patches, apply_change_set,
}
use protostar.Repo.ChangeSet.Guards.{IsAdmitted, IsRefusal, apply_change_set-IsAdmitted}
use protostar.Repo.ChangeSet.Contents.{AreAccountsOf, targets, contents, apply_change_set-contents}

abbrev found : Option String → Stat
found none = absent
found (some text) = present false

abbrev parsed : String → List StructuredPatch
parsed d =
    record {
      old_file_name = none;
      new_file_name = some (if d == "new a" then "a/a" else "b/b");
      hunks = record { position = "1"; lines = d ∷ [] } ∷ [];
    }
    ∷ []

-- `/w//a` is another name of `/w/a`.
abbrev canonical : String → String
canonical p = if p == "/w//a" then "/w/a" else p

abbrev pub host : Host
host = record {
  State = Dict String;
  Bytes = String;
  is_absolute = λ p. starts_with p "/";
  resolve = λ p. canonical p;
  resolve_from = λ root p. canonical p;
  relative = λ root p. if p == "/w/a" then "a" else if p == "/w/b" then "b" else "..";
  normalize = λ p. p;
  lstat = λ p s. found (get s (canonical p));
  read_bytes = λ p s. get s (canonical p);
  write_bytes = λ p b s. (put s (canonical p) b, true);
  unlink = λ p s. (s, false);
  sha256_hex = λ b. b;
  to_text = λ b. b;
  from_text = λ t. t;
  parse_patch = λ d. some (parsed d);
  apply_patch = λ text p. some "patched";
  sort = λ xs. xs;
}

host_stores : StoresFiles host
host_stores = record {
  read_written =
      λ p b s h. ground (arith, get-put s (canonical p) (canonical p) b, eq_refl (canonical p));
  read_other = λ p q b s own resolved h. rw (own, resolved) (ground (arith, get-put s p q b));
}

host_sorts : Sorts host
host_sorts = record { sort_length = λ xs. refl }

abbrev request : String → String → PatchRequest
request name digest = record {
  path = name;
  op = record { root = "/w"; path = if name == "a" then "/w/a" else "/w/b"; access = write };
  diff = if name == "a" then "new a" else "new b";
  pre_image_sha256 = digest;
}

abbrev files : Dict String
files = ("/w/a", "old a") ∷ ("/w/b", "old b") ∷ ("/w/c", "old c") ∷ []

abbrev two_requests : List PatchRequest
two_requests = request "a" "old a" ∷ request "b" "stale" ∷ []

abbrev statuses : List ApplyResult → List ApplyStatus
statuses [] = []
statuses (r ∷ rs) = r.status ∷ statuses rs

-- The first patch is applied, the second is skipped.
two_requests_applied :
    statuses (apply_change_set host two_requests none files).1
    ≡ applied ∷ skipped_hash_mismatch ∷ []
unfolding apply_change_set check_invariant canonicalize_relative_path strip_diff_prefix
two_requests_applied = refl

two_requests_contents :
    get (apply_change_set host two_requests none files).0 "/w/a" ≡ some "patched"
unfolding apply_change_set check_invariant canonicalize_relative_path strip_diff_prefix
two_requests_contents = refl

-- A cosmetic change of two files is refused.
cosmetic_refused :
    statuses (apply_change_set host two_requests (some cosmetic_tweak) files).1 ≡ skipped_error ∷ []
unfolding apply_change_set check_invariant canonicalize_relative_path strip_diff_prefix
cosmetic_refused = refl

two_requests-IsAdmitted : IsAdmitted host two_requests (some feature_add)
unfolding canonicalize_relative_path op_path_relative diff_filename strip_diff_prefix
two_requests-IsAdmitted = (
  (
    ("a", refl, refl, parsed "new a", "a/a", refl, refl, refl),
    (("b", refl, refl, parsed "new b", "b/b", refl, refl, refl), tt),
  ),
  λ h. absurd (cc),
)

apply_change_set-IsAdmitted_example :
    (IsAdmitted host two_requests (some cosmetic_tweak)
      → apply_change_set host two_requests (some cosmetic_tweak) files
        ≡ apply_patches host two_requests files)
    × (¬ (IsAdmitted host two_requests (some cosmetic_tweak))
        → ((apply_change_set host two_requests (some cosmetic_tweak) files).0 ≡ files)
          × IsRefusal host (apply_change_set host two_requests (some cosmetic_tweak) files).1)
apply_change_set-IsAdmitted_example =
    apply_change_set-IsAdmitted host host_sorts two_requests (some cosmetic_tweak) files

apply_change_set-contents_example :
    AreAccountsOf host two_requests
      (contents host files)
      (contents host (apply_change_set host two_requests (some feature_add) files).0)
      (apply_change_set host two_requests (some feature_add) files).1
    × ((q : String)
        → canonical q ≡ q
        → has (targets two_requests) q ≡ false
        → get (apply_change_set host two_requests (some feature_add) files).0 (canonical q)
          ≡ get files (canonical q))
apply_change_set-contents_example =
    apply_change_set-contents host host_stores host_sorts two_requests (some feature_add) files
      two_requests-IsAdmitted (refl, (refl, tt)) (refl, (refl, tt))
