-- ===== src/Authority/Precedence/Limits.antt =====
-- The budget of the resolved envelope.
use protostar.Base.{
  ◌≡◌, refl, sym, subst, ap, ◌∙◌, ◌↔◌, ◌⊎◌, inl, inr, true, List, [], ◌∷◌, Option, none, some,
  arith, All,
}
use protostar.Base.Number.{
  Number, fin, nan, pos_inf, neg_inf, le_num, le_num_trans, le_num_refl, le_int_total, is_finite,
  min_num,
}
use protostar.Authority.Envelope.{
  BudgetField, max_usd, max_tokens, timeout_ms, max_repair_loops, limit, TierConstraint,
}
use protostar.Authority.Precedence.{limits, least, foldl_min, intersect_envelopes}
use protostar.Authority.Tiers.{budget_of}

-- A finite limit of the tier for the field.
abbrev pub SetsLimit : BudgetField → TierConstraint → Number → Type 0
SetsLimit field t v = (limit (budget_of t) field ≡ some v) × (is_finite v ≡ true)

-- Some tier sets the limit.
abbrev pub IsLimitOfSome : BudgetField → List TierConstraint → Number → Type 0
IsLimitOfSome field [] v = ⊥
IsLimitOfSome field (t ∷ ts) v = SetsLimit field t v ⊎ IsLimitOfSome field ts v

-- The limit is the least that the tiers set: one of theirs, and no larger than any.
abbrev pub IsLeastLimit : BudgetField → List TierConstraint → Option Number → Type 0
IsLeastLimit field ts none = (v : Number) → ¬ IsLimitOfSome field ts v
IsLeastLimit field ts (some w) =
    IsLimitOfSome field ts w × ((v : Number) → IsLimitOfSome field ts v → le_num w v ≡ true)

abbrev Entry : Number → List Number → Type 0
Entry v [] = ⊥
Entry v (w ∷ ws) = (v ≡ w) ⊎ Entry v ws

limits-Entry :
    (field : BudgetField) (ts : List TierConstraint) (v : Number)
    → Entry v (limits field ts) ↔ IsLimitOfSome field ts v
limits-Entry field [] v = (λ e. e, λ e. e)
limits-Entry field (t ∷ ts) v = ground (arith, limits-Entry field ts v)

AllFinite : List Number → Type 0
AllFinite vs = All (λ v. is_finite v ≡ true) vs

limits-AllFinite : (field : BudgetField) (ts : List TierConstraint) → AllFinite (limits field ts)
unfolding AllFinite
limits-AllFinite field [] = tt
limits-AllFinite field (t ∷ ts) = ground (arith, limits-AllFinite field ts)

-- The lesser of two finite numbers is one of them, and no larger than either.
min_num_lesser :
    (a b : Number)
    → is_finite a ≡ true
    → is_finite b ≡ true
    → (is_finite (min_num a b) ≡ true)
      × ((min_num a b ≡ a) ⊎ (min_num a b ≡ b))
      × (le_num (min_num a b) a ≡ true)
      × (le_num (min_num a b) b ≡ true)
min_num_lesser nan b f g = cc
min_num_lesser neg_inf b f g = cc
min_num_lesser pos_inf b f g = cc
min_num_lesser (fin a) nan f g = cc
min_num_lesser (fin a) neg_inf f g = cc
min_num_lesser (fin a) pos_inf f g = cc
min_num_lesser (fin a) (fin b) f g = ground (arith, le_int_total a b, le_num_refl a, le_num_refl b)

foldl_min_lem :
    (a : Number) (vs : List Number)
    → is_finite a ≡ true
    → AllFinite vs
    → Entry (foldl_min a vs) (a ∷ vs)
      × ((v : Number) → Entry v (a ∷ vs) → le_num (foldl_min a vs) v ≡ true)
unfolding AllFinite
foldl_min_lem nan [] f h = cc
foldl_min_lem neg_inf [] f h = cc
foldl_min_lem pos_inf [] f h = cc
foldl_min_lem (fin a) [] f h =
    (inl refl, λ v e. elim e [ inl q ↦ ap (le_num (fin a)) q ∙ le_num_refl a | inr q ↦ absurd q ])
foldl_min_lem a (b ∷ vs) f (g, h) =
    let (fm, which, under_a, under_b) = min_num_lesser a b f g in
    let (entry, under) = foldl_min_lem (min_num a b) vs fm h in
    let m = foldl_min (min_num a b) vs in
    let first = under (min_num a b) (inl refl) in
    (
      ground (arith, entry, which),
      λ v e. elim e [
        | inl q ↦ ap (le_num m) q ∙ le_num_trans m (min_num a b) a first under_a
        | inr e ↦ elim e [
          | inl q ↦ ap (le_num m) q ∙ le_num_trans m (min_num a b) b first under_b
          | inr q ↦ under v (inr q)
        ]
      ],
    )

least-IsLeastLimit :
    (field : BudgetField) (ts : List TierConstraint) (vs : List Number)
    → limits field ts ≡ vs
    → AllFinite vs
    → IsLeastLimit field ts (least vs)
unfolding AllFinite
least-IsLeastLimit field ts [] e f = λ v h. subst (Entry v) e ((limits-Entry field ts v).1 h)
least-IsLeastLimit field ts (v ∷ vs) e (g, f) =
    let (entry, under) = foldl_min_lem v vs g f in
    (
      (limits-Entry field ts _).0 (subst (Entry _) (sym e) entry),
      λ w h. under w (subst (Entry w) e ((limits-Entry field ts w).1 h)),
    )

-- Each limit of the resolved budget is the least of the finite limits that the tiers set for it: one
-- of them, and no larger than any. Where no tier sets one, there is none.
pub intersect_envelopes-IsLeastLimit :
    (t : TierConstraint) (ts : List TierConstraint) (field : BudgetField)
    → IsLeastLimit field
        (t ∷ ts)
        (limit (intersect_envelopes (t ∷ ts)).resolved_envelope.budget field)
unfolding intersect_envelopes
intersect_envelopes-IsLeastLimit t ts max_usd =
    least-IsLeastLimit max_usd (t ∷ ts) _ refl (limits-AllFinite max_usd (t ∷ ts))
intersect_envelopes-IsLeastLimit t ts max_tokens =
    least-IsLeastLimit max_tokens (t ∷ ts) _ refl (limits-AllFinite max_tokens (t ∷ ts))
intersect_envelopes-IsLeastLimit t ts timeout_ms =
    least-IsLeastLimit timeout_ms (t ∷ ts) _ refl (limits-AllFinite timeout_ms (t ∷ ts))
intersect_envelopes-IsLeastLimit t ts max_repair_loops =
    least-IsLeastLimit max_repair_loops (t ∷ ts) _ refl (limits-AllFinite max_repair_loops (t ∷ ts))
