-- ===== src/Repo/ChangeSet/Guards.antt =====
-- What is checked before the first file of a change set is touched.
use protostar.Base.{
  ◌≡◌, ◌≤◌, ◌<◌, refl, sym, ap, ◌∙◌, ◌↔◌, ◌⊎◌, inl, inr, String, true, List, [], ◌∷◌, Option, none,
  some, arith, ◌==◌, eq_iff, eq_refl, map, length, has, All, leb, Bool-cases, Option-cases,
}
use protostar.Repo.Host.{StructuredPatch, Host, Sorts}
use protostar.Review.Loop.{unique}
use protostar.Review.Mechanical.Agreement.{has-unique_nil}
use protostar.Repo.ChangeSet.{
  PatchRequest, PatchRequestMintError, ChangeSetArchetype, skipped_error, path_op_diff_mismatch,
  ApplyResult, failed, strip_diff_prefix, Check, checked, mismatched, is_cosmetic,
  canonicalize_relative_path, op_path_relative, diff_filename, check_diff_path, check_filename,
  check_diff, check_paths, check_invariant, reassert_invariants, touched, first_path,
  cosmetic_archetype_multifile, refuse_cosmetic_multifile, unless_some, apply_patches,
  apply_change_set,
}

abbrev pub paths : List PatchRequest → List String
paths ps = map (λ p. p.path) ps

module _ (host : Host) where
  -- The request's path, the path of its operation inside the workspace and the file that its diff
  -- names come to one path.
  abbrev pub Agrees : PatchRequest → Type 0
  Agrees p =
      (canon : String) × (canonicalize_relative_path host p.path ≡ some canon)
      × (canonicalize_relative_path host (op_path_relative host p.op) ≡ some canon)
      × (parsed : List StructuredPatch) × (filename : String) × (host.parse_patch p.diff
          ≡ some parsed)
      × (diff_filename host parsed ≡ some filename)
      × (canonicalize_relative_path host (strip_diff_prefix filename) ≡ some canon)

  -- A change set that may be applied: each request agrees with itself, and a cosmetic one has a
  -- single path.
  abbrev pub IsAdmitted : List PatchRequest → Option ChangeSetArchetype → Type 0
  IsAdmitted ps archetype =
      All Agrees ps
      × (is_cosmetic archetype ≡ true
          → (x y : String) → has (paths ps) x ≡ true
          → has (paths ps) y ≡ true
          → x ≡ y)

  check_filename-checked :
      (canon c : String) (o : Option String)
      → check_filename host canon o ≡ checked c
      → (c ≡ canon)
        × (filename : String) × (o ≡ some filename)
        × (canonicalize_relative_path host (strip_diff_prefix filename) ≡ some canon)
  check_filename-checked canon c none h = absurd (cc)
  check_filename-checked canon c (some filename) h =
      elim (Option-cases (canonicalize_relative_path host (strip_diff_prefix filename))) [
        | inl threw ↦ absurd (cc (rw (threw, check_diff_path) at h))
        | inr (path, e) ↦
            let k = rw (e, check_diff_path) at h in
            (ground arith, filename, refl, e ∙ ground (arith, eq_iff canon path))
      ]

  pub check_invariant-checked :
      (p : PatchRequest) (c : String) → check_invariant host p ≡ checked c → Agrees p
  unfolding check_invariant check_diff
  check_invariant-checked p c h = elim (Option-cases (canonicalize_relative_path host p.path)) [
    | inl threw ↦ absurd (cc (rw (threw, check_paths) at h))
    | inr (a, ea) ↦
        elim (Option-cases (canonicalize_relative_path host (op_path_relative host p.op))) [
          | inl threw ↦ absurd (cc (rw (ea, threw, check_paths) at h))
          | inr (b, eb) ↦ elim (Bool-cases (a == b)) [
            | inr differ ↦ absurd (cc (rw (ea, eb, check_paths, differ) at h))
            | inl same ↦ elim (Option-cases (host.parse_patch p.diff)) [
              | inl threw ↦ absurd (cc (rw (ea, eb, check_paths, same, threw, check_diff) at h))
              | inr (parsed, ep) ↦
                  let (_, filename, ef, ec) =
                    check_filename-checked a c (diff_filename host parsed)
                      (rw (ea, eb, check_paths, same, ep, check_diff) at h) in
                  (a, ea, eb ∙ ap some (sym ((eq_iff a b).0 same)), parsed, filename, ep, ef, ec)
            ]
          ]
        ]
  ]

  check_invariant-Agrees :
      (p : PatchRequest) → Agrees p → (c : String) × (check_invariant host p ≡ checked c)
  unfolding check_invariant check_diff
  check_invariant-Agrees p (c, ea, eb, parsed, filename, ep, ef, ec) =
      (c, rw (ea, eb, check_paths, eq_refl, ep, check_diff, ef, ec, check_diff_path, eq_refl))

  Check-cases :
      (c : Check)
      → ((canon : String) × (c ≡ checked canon))
        ⊎ ((e : PatchRequestMintError) × (c ≡ mismatched e))
  Check-cases (checked canon) = inl (canon, refl)
  Check-cases (mismatched e) = inr (e, refl)

  -- One result, of a patch that was skipped.
  abbrev pub IsRefusal : List ApplyResult → Type 0
  IsRefusal rs = (r : ApplyResult) × (rs ≡ r ∷ []) × (r.status ≡ skipped_error)

  reassert_invariants-cases :
      (ps : List PatchRequest)
      → ((reassert_invariants host ps ≡ none) × All Agrees ps)
        ⊎ ((rs : List ApplyResult) × (reassert_invariants host ps ≡ some rs)
            × IsRefusal rs
            × (¬ (All Agrees ps)))
  unfolding reassert_invariants
  reassert_invariants-cases [] = inl (refl, tt)
  reassert_invariants-cases (p ∷ ps) = elim (Check-cases (check_invariant host p)) [
    | inr (e, differs) ↦ inr (
      failed p.path path_op_diff_mismatch ∷ [],
      rw (differs, reassert_invariants),
      (_, refl, refl),
      λ h. let (c, agrees) = check_invariant-Agrees p h.0 in cc,
    )
    | inl (c, agrees) ↦ elim (reassert_invariants-cases ps) [
      | inl (passed, all_agree) ↦
          inl (
            rw (agrees, reassert_invariants) passed,
            (check_invariant-checked p c agrees, all_agree),
          )
      | inr (rs, refused, is_refusal, not_all) ↦
          inr (rs, rw (agrees, reassert_invariants) refused, is_refusal, λ h. not_all h.1)
    ]
  ]

-- At most one entry is left of a list exactly when all of its entries are equal.
unique-same :
    (x : String) (xs : List String)
    → ((y : String) → has xs y ≡ true → x ≡ y)
    → unique (x ∷ []) xs ≡ []
unique-same x [] h = refl
unique-same x (y ∷ xs) h =
    ground (arith, h y, eq_refl y, eq_iff x y, unique-same x xs (λ z m. h z (ground arith)))

one_of :
    (xs : List String) (x y : String) → length xs ≤ 1 → has xs x ≡ true → has xs y ≡ true → x ≡ y
one_of [] x y l h k = cc
one_of (z ∷ []) x y l h k = ground (arith, eq_iff z x, eq_iff z y)
one_of (z ∷ w ∷ xs) x y l h k = absurd (omega arith)

unique-all_same :
    (xs : List String)
    → (length (unique [] xs) ≤ 1) ↔ ((x y : String) → has xs x ≡ true → has xs y ≡ true → x ≡ y)
unique-all_same xs = (
  λ l x y h k. one_of (unique [] xs) x y l (has-unique_nil xs x ∙ h) (has-unique_nil xs y ∙ k),
  unique_le xs,
)
  where
    unique_le :
        (xs : List String)
        → ((x y : String) → has xs x ≡ true → has xs y ≡ true → x ≡ y)
        → length (unique [] xs) ≤ 1
    unique_le [] h = omega arith
    unique_le (x ∷ xs) h = omega (
      arith,
      ap length (unique-same x xs (λ y m. h x y (ground (arith, eq_refl x)) (ground arith))),
    )

module _ (host : Host) (sorts : Sorts host) where
  refuse_cosmetic_multifile-cases :
      (ps : List PatchRequest) (archetype : Option ChangeSetArchetype)
      → ((refuse_cosmetic_multifile host ps archetype ≡ none)
          × (is_cosmetic archetype ≡ true → length (unique [] (paths ps)) ≤ 1))
        ⊎ ((rs : List ApplyResult) × (refuse_cosmetic_multifile host ps archetype ≡ some rs)
            × IsRefusal host rs
            × (is_cosmetic archetype ≡ true)
            × (1 < length (unique [] (paths ps))))
  unfolding refuse_cosmetic_multifile
  refuse_cosmetic_multifile-cases ps archetype =
      let same = sorts.sort_length (unique [] (paths ps)) in
      elim (Bool-cases (is_cosmetic archetype)) [
        | inr plain ↦ inl (rw (plain, refuse_cosmetic_multifile), λ h. cc)
        | inl cosmetic ↦ elim (Bool-cases (leb (length (touched host ps)) 1)) [
          | inl one ↦ inl (rw (cosmetic, one, refuse_cosmetic_multifile), λ h. ground arith)
          | inr more ↦ inr (
            record (failed (first_path host ps (touched host ps)) cosmetic_archetype_multifile) {
              touched_files = some (touched host ps);
            }
                ∷ [],
            rw (cosmetic, more, refuse_cosmetic_multifile),
            (_, refl, refl),
            cosmetic,
            ground arith,
          )
        ]
      ]

  -- A change set is applied patch by patch exactly when each request agrees with itself (its path,
  -- its operation's path and the file of its diff come to one path) and, if the archetype is the
  -- cosmetic one, all requests have the same path. Otherwise no file is touched and the one result is
  -- of a patch that was skipped with an error. Sorting is taken to keep the length.
  pub apply_change_set-IsAdmitted :
      (ps : List PatchRequest) (archetype : Option ChangeSetArchetype) (s : host.State)
      → (IsAdmitted host ps archetype
          → apply_change_set host ps archetype s ≡ apply_patches host ps s)
        × (¬ (IsAdmitted host ps archetype)
            → ((apply_change_set host ps archetype s).0 ≡ s)
              × IsRefusal host (apply_change_set host ps archetype s).1)
  unfolding apply_change_set
  apply_change_set-IsAdmitted ps archetype s = elim (reassert_invariants-cases host ps) [
    | inr (rs, refused, is_refusal, not_all) ↦
        rw (refused, unless_some) (λ (h, _). absurd (not_all h), λ n. (refl, is_refusal))
    | inl (passed, all_agree) ↦ elim (refuse_cosmetic_multifile-cases ps archetype) [
      | inl (allowed, one) ↦
          rw (passed, allowed, unless_some)
            (λ h. refl, λ n. absurd (n (all_agree, λ c. (unique-all_same (paths ps)).0 (one c))))
      | inr (rs, refused, is_refusal, cosmetic, more) ↦
          rw (passed, refused, unless_some)
            (
              λ (h, same). absurd (omega (arith, (unique-all_same (paths ps)).1 (same cosmetic))),
              λ n. (refl, is_refusal),
            )
    ]
  ]
