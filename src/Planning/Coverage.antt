-- ===== src/Planning/Coverage.antt =====
-- validateAcCoverage and checkAcceptanceTestRefsCoverage of packages/planning/src/index.ts. A
-- criterion is shown by its id; the text of an error is made from that alone.
use protostar.Base.{
  String, Bool, not, List, [], ◌∷◌, map, flat_map, filter, Option, or_else, has, is_empty,
  if◌then◌else◌,
}
use protostar.Planning.Types.{AcceptanceTestRef, PlanTask}

pub record AcCoverage : Type 0 where
  pub ok : Bool
  pub uncovered_ac_ids : List String

-- The ids that the tasks cover, which the code has in a set.
abbrev pub covered_ids : List PlanTask → List String
covered_ids tasks = flat_map (λ t. t.covers) tasks

abbrev pub ac_coverage : List String → AcCoverage
ac_coverage uncovered = record { ok = is_empty uncovered; uncovered_ac_ids = uncovered }

unfoldable pub validate_ac_coverage :
    List String → List PlanTask → Option (List String) → AcCoverage
validate_ac_coverage criteria tasks given =
    ac_coverage (filter (λ c. not (has (or_else given (covered_ids tasks)) c)) criteria)

abbrev pub ref_ids : List AcceptanceTestRef → List String
ref_ids refs = map (λ r. r.ac_id) refs

abbrev pub referred_ids : List PlanTask → List String
referred_ids tasks = flat_map (λ t. ref_ids (or_else t.acceptance_test_refs [])) tasks

-- The entries of `new Set(ids)`; `seen` are those before.
unfoldable pub unique : List String → List String → List String
unique seen [] = []
unique seen (id ∷ ids) =
    let rest = unique (id ∷ seen) ids in if has seen id then rest else id ∷ rest

pub data RefsCoverage : Type 0 where
  pass : RefsCoverage
  fail : (missing_ac_ids : List String) → RefsCoverage

abbrev pub refs_coverage : List String → RefsCoverage
refs_coverage [] = pass
refs_coverage (id ∷ ids) = fail (id ∷ ids)

unfoldable pub check_acceptance_test_refs_coverage : List PlanTask → List String → RefsCoverage
unfolding unique
check_acceptance_test_refs_coverage tasks criteria =
    refs_coverage (filter (λ id. not (has (referred_ids tasks) id)) (unique [] criteria))
