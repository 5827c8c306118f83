-- ===== src/RealExecution/Patches.antt =====
-- patchesFromChangeSet and materializeMissingAuthorizedWriteTargets of runRealExecution: no file is
-- created or patched without the authorization of a write.
use Prim.Native.String
use Prim.Native.Char.{Char, code}
use text.Mathlib.Text.{starts_with}
use protostar.Base.{
  String, Bool, true, false, not, ◌&&◌, ◌||◌, List, [], ◌∷◌, Option, none, some, ◌==◌, nat_eq,
  if◌then◌else◌,
}
use protostar.Authority.Envelope.{write, CapabilityEnvelope}
use protostar.Authority.Operations.{
  WorkspaceRef, WorkspaceOp, AuthorizeResult, authorized, refused, authorize_workspace_op,
}
use protostar.Repo.Host.{Host}
use protostar.Repo.Files.{FileAccess}
use protostar.Repo.ChangeSet.{PatchRequest, Minted, minted, refused_mint, mint_patch_request}
use protostar.RealExecution.Types.{
  ChangeEntry, inspect_target, create_target, Services, done, thrown, M, ◌>>=◌, ◌>>◌, pure,
  or_throw,
}
use protostar.RealExecution.Emission.{perform}

-- What is fixed for the run of a plan: its workspace, the envelope and the root of the checkout.
pub record WriteContext : Type 0 where
  pub workspace : WorkspaceRef
  pub resolved_envelope : CapabilityEnvelope
  pub workspace_root : String

-- The `input` of the authorization of a write.
abbrev pub write_op : WriteContext → String → WorkspaceOp
write_op c path = record {
  workspace = c.workspace;
  path = path;
  access = write;
  resolved_envelope = c.resolved_envelope;
}

-- One of `*?[]{}`
is_glob_character : Char → Bool
is_glob_character c =
    nat_eq (code c) b'*'
    || (nat_eq (code c) b'?'
        || (nat_eq (code c) b'['
            || (nat_eq (code c) b']' || (nat_eq (code c) b'{' || nat_eq (code c) b'}'))))

unfoldable pub is_glob_target : String → Bool
unfolding is_glob_character
is_glob_target String.[] = false
is_glob_target (String.◌∷◌ c s) = is_glob_character c || is_glob_target s

module _ (host : Host) (context : WriteContext) where
  -- The request of an entry whose write is authorized.
  unfoldable pub request_of : ChangeEntry → PatchRequest
  request_of entry = record {
    path = entry.path;
    op = record {
      root = context.workspace_root;
      path =
          if host.is_absolute entry.path
          then entry.path
          else host.resolve_from context.workspace_root entry.path;
      access = FileAccess.write;
    };
    diff = entry.diff;
    pre_image_sha256 = entry.pre_image_sha256;
  }

  abbrev pub minted_request : Minted → Option PatchRequest
  minted_request (minted request) = some request
  minted_request (refused_mint error) = none

  abbrev pub request_if : AuthorizeResult WorkspaceOp → ChangeEntry → Option PatchRequest
  request_if (authorized op) entry = minted_request (mint_patch_request host (request_of entry))
  request_if (refused errors) entry = none

  -- The body of the map over the entries; `none` stands for the error that it throws.
  unfoldable pub patch_of_entry : ChangeEntry → Option PatchRequest
  unfolding request_of
  patch_of_entry entry = request_if (authorize_workspace_op (write_op context entry.path)) entry

  abbrev pub cons_some :
      Option PatchRequest → Option (List PatchRequest) → Option (List PatchRequest)
  cons_some (some p) (some ps) = some (p ∷ ps)
  cons_some _ _ = none

  unfoldable pub patches_from_change_set : List ChangeEntry → Option (List PatchRequest)
  unfolding patch_of_entry
  patches_from_change_set [] = some []
  patches_from_change_set (entry ∷ entries) =
      cons_some (patch_of_entry entry) (patches_from_change_set entries)

  module _ (services : Services) where
    abbrev pub absolute_target : String → String
    absolute_target target = host.resolve_from (host.resolve context.workspace_root) target

    abbrev pub escapes : String → Bool
    escapes path =
        let root = host.resolve context.workspace_root in
        not (path == root) && not (starts_with path (String.◌++◌ root "/"))

    -- `exists`, which throws on an error other than ENOENT.
    unfoldable pub target_exists : String → M Bool
    target_exists path s =
        let s' = record s { history = inspect_target path ∷ s.history } in
        or_throw (services.target_exists s.history path) s'

    abbrev pub create_unless : String → Bool → M (Unit {0})
    create_unless path true = pure tt
    create_unless path false = perform services (create_target path)

    unfoldable pub create_if_missing : String → M (Unit {0})
    unfolding target_exists
    create_if_missing path s =
        if escapes path
        then thrown s
        else (do found ← target_exists path; create_unless path found) s

    abbrev pub materialize_if : AuthorizeResult WorkspaceOp → String → M (Unit {0})
    materialize_if (authorized op) target = create_if_missing (absolute_target target)
    materialize_if (refused errors) target = pure tt

    unfoldable pub materialize_target : String → M (Unit {0})
    unfolding is_glob_target create_if_missing
    materialize_target target s =
        if host.is_absolute target || is_glob_target target
        then done tt s
        else materialize_if (authorize_workspace_op (write_op context target)) target s

    unfoldable pub materialize_missing_authorized_write_targets : List String → M (Unit {0})
    unfolding materialize_target
    materialize_missing_authorized_write_targets [] = pure tt
    materialize_missing_authorized_write_targets (t ∷ ts) = do
      materialize_target t
      materialize_missing_authorized_write_targets ts
