-- ===== src/Repo/ChangeSet/Contents.antt =====
-- What a change set leaves in the files.
use protostar.Base.{
  ◌≡◌, refl, sym, subst, ◌∙◌, String, true, false, List, [], ◌∷◌, Option, arith, ◌==◌, eq_iff,
  eq_refl, inl, inr, Bool-cases, map, has, IsDistinct, All,
}
use protostar.Repo.Host.{Host, StoresFiles, Sorts}
use protostar.Repo.ChangeSet.{
  PatchRequest, ChangeSetArchetype, ApplyResult, apply_one_patch, apply_patches, apply_change_set,
}
use protostar.Repo.ChangeSet.Patches.{IsAccountOf, apply_one_patch-Accounts, apply_one_patch-other}
use protostar.Repo.ChangeSet.Guards.{IsAdmitted, apply_change_set-IsAdmitted}

-- The files that the requests are for.
abbrev pub targets : List PatchRequest → List String
targets ps = map (λ p. p.op.path) ps

other_of :
    (x : String) (xs : List String) (q : String)
    → has xs x ≡ false
    → has xs q ≡ true
    → (x == q) ≡ false
other_of x xs q h m = elim (Bool-cases (x == q)) [
  | inl same ↦ absurd (cc (subst (λ y. has xs y ≡ true) (sym ((eq_iff x q).0 same)) m))
  | inr other ↦ other
]

module _ (host : Host) where
  open host use {State, Bytes, read_bytes}

  -- One result for each request, in their order, each an account of its file.
  abbrev pub AreAccountsOf :
      List PatchRequest → (before after : String → Option Bytes) → List ApplyResult → Type 0
  AreAccountsOf [] before after [] = Unit
  AreAccountsOf (p ∷ ps) before after (r ∷ rs) =
      IsAccountOf host p (before p.op.path) (after p.op.path) r × AreAccountsOf ps before after rs
  AreAccountsOf _ before after _ = ⊥

  AreAccountsOf-before :
      (ps : List PatchRequest) (before before' after : String → Option Bytes)
      (rs : List ApplyResult)
      → ((q : String) → has (targets ps) q ≡ true → before q ≡ before' q)
      → AreAccountsOf ps before after rs
      → AreAccountsOf ps before' after rs
  AreAccountsOf-before [] before before' after [] h a = tt
  AreAccountsOf-before [] before before' after (r ∷ rs) h a = absurd a
  AreAccountsOf-before (p ∷ ps) before before' after [] h a = absurd a
  AreAccountsOf-before (p ∷ ps) before before' after (r ∷ rs) h (a, rest) = (
    subst (λ b. IsAccountOf host p b (after p.op.path) r)
        (h p.op.path (ground (arith, eq_refl p.op.path))) a,
    AreAccountsOf-before ps before before' after rs (λ q m. h q (ground arith)) rest,
  )

  -- The requests are for resolved paths, which name a file in one way only.
  abbrev pub AreResolved : List PatchRequest → Type 0
  AreResolved ps = All (λ p. host.resolve p.op.path ≡ p.op.path) ps

  target-resolved :
      (ps : List PatchRequest) (q : String)
      → AreResolved ps
      → has (targets ps) q ≡ true
      → host.resolve q ≡ q
  target-resolved [] q rs m = cc
  target-resolved (p ∷ ps) q (own, rs) m = elim (Bool-cases (p.op.path == q)) [
    | inl same ↦ subst (λ x. host.resolve x ≡ x) ((eq_iff p.op.path q).0 same) own
    | inr other ↦ target-resolved ps q rs (ground arith)
  ]

  abbrev pub contents : State → String → Option Bytes
  contents s q = read_bytes q s

  module _ (stores : StoresFiles host) where
    apply_patches-other :
        (ps : List PatchRequest) (s : State) (q : String)
        → AreResolved ps
        → host.resolve q ≡ q
        → has (targets ps) q ≡ false
        → read_bytes q (apply_patches host ps s).0 ≡ read_bytes q s
    unfolding apply_patches
    apply_patches-other [] s q rs r h = refl
    apply_patches-other (p ∷ ps) s q (own, rs) r h =
        apply_patches-other ps (apply_one_patch host p s).0 q rs r (ground arith)
        ∙ apply_one_patch-other host stores p s q own r (ground arith)

    apply_patches-AreAccountsOf :
        (ps : List PatchRequest) (s : State)
        → AreResolved ps
        → IsDistinct (targets ps)
        → AreAccountsOf ps
            (contents s)
            (contents (apply_patches host ps s).0)
            (apply_patches host ps s).1
    unfolding apply_patches
    apply_patches-AreAccountsOf [] s rs d = tt
    apply_patches-AreAccountsOf (p ∷ ps) s (own, rs) (d, ds) =
        let s' = (apply_one_patch host p s).0 in
        (
          subst (λ a. IsAccountOf host p (read_bytes p.op.path s) a (apply_one_patch host p s).1)
              (sym (apply_patches-other ps s' p.op.path rs own d))
              (apply_one_patch-Accounts host stores p s),
          AreAccountsOf-before ps (contents s') (contents s) _ _
              (λ q m.
                apply_one_patch-other host stores p s q own (target-resolved ps q rs m)
                  (other_of p.op.path (targets ps) q d m))
              (apply_patches-AreAccountsOf ps s' rs ds),
        )

    -- For a change set that is admitted and whose requests are for distinct resolved paths, the results
    -- stand in the order of the requests and account for their files. Of the host it is assumed that a
    -- write that succeeds is read back, that it changes nothing at another resolved path, and that
    -- sorting keeps the length. A patch is reported as applied only
    -- if it had write access inside the workspace, the file held what its digest promised, its diff
    -- fits, and the file holds the patched text in the end; as a mismatch only if the digest of the
    -- file's bytes is another. A file whose patch was skipped, but for errors of input and output, and
    -- every resolved path that no request is for, has its content from before.
    pub apply_change_set-contents :
        (sorts : Sorts host) (ps : List PatchRequest) (archetype : Option ChangeSetArchetype)
        (s : State)
        → IsAdmitted host ps archetype
        → AreResolved ps
        → IsDistinct (targets ps)
        → AreAccountsOf ps
            (contents s)
            (contents (apply_change_set host ps archetype s).0)
            (apply_change_set host ps archetype s).1
          × ((q : String)
              → host.resolve q ≡ q
              → has (targets ps) q ≡ false
              → read_bytes q (apply_change_set host ps archetype s).0 ≡ read_bytes q s)
    apply_change_set-contents sorts ps archetype s admitted resolved distinct =
        rw ((apply_change_set-IsAdmitted host sorts ps archetype s).0 admitted) (
          apply_patches-AreAccountsOf ps s resolved distinct,
          λ q r h. apply_patches-other ps s q resolved r h,
        )
