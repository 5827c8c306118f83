-- ===== src/Authority/Operations/Keys.antt =====
-- The keys of grants tell grants apart, where their texts have no zero character.
use Prim.Native.String
use Prim.Native.Char.{Char, code}
use text.Mathlib.TextEquality.{Char-path}
use text.Mathlib.TextLemmas.{nil-append, cons-append}
use protostar.Base.{
  ℕ, ◌≡◌, refl, sym, ap, ap₂, ◌∙◌, inl, inr, String, Bool, true, not, ◌&&◌, List, [], ◌∷◌, arith,
  ◌==◌, eq_iff, all, any, filter, nat_eq, Bool-cases, or_else,
}
use protostar.Authority.Envelope.{
  Access, read, write, execute, RepoScopeGrant, ToolPermissionGrant, ExecuteGrant,
}
use protostar.Authority.Tiers.{
  access_text, joined, repo_scope_key, tool_permission_key, execute_grant_key,
}
use protostar.Authority.Precedence.{listed, intersect_by_key}

unfoldable pub has_no_zero : String → Bool
has_no_zero String.[] = true
has_no_zero (String.◌∷◌ c s) = not (nat_eq (code c) 0) && has_no_zero s

abbrev rest : String → String
rest String.[] = String.[]
rest (String.◌∷◌ c s) = s

abbrev first : String → ℕ
first String.[] = 0
first (String.◌∷◌ c s) = code c

abbrev zero_character : Char
zero_character = "\0"

joined-nil : (b : String) → joined String.[] b ≡ String.◌∷◌ zero_character b
joined-nil b =
    nil-append (String.◌++◌ "\0" b)
    ∙ cons-append zero_character String.[] b
    ∙ ap (String.◌∷◌ zero_character) (nil-append b)

joined-cons : (c : Char) (a b : String) → joined (String.◌∷◌ c a) b ≡ String.◌∷◌ c (joined a b)
joined-cons c a b = cons-append c a (String.◌++◌ "\0" b)

-- Up to the first zero character.
joined-injective :
    (a a' b b' : String)
    → has_no_zero a ≡ true
    → has_no_zero a' ≡ true
    → joined a b ≡ joined a' b'
    → (a ≡ a') × (b ≡ b')
unfolding has_no_zero
joined-injective String.[] String.[] b b' h h' e =
    (refl, ap rest (sym (joined-nil b) ∙ e ∙ joined-nil b'))
joined-injective String.[] (String.◌∷◌ c a') b b' h h' e =
    ground (arith, ap first (sym (joined-nil b) ∙ e ∙ joined-cons c a' b'))
joined-injective (String.◌∷◌ c a) String.[] b b' h h' e =
    ground (arith, ap first (sym (joined-cons c a b) ∙ e ∙ joined-nil b'))
joined-injective (String.◌∷◌ c a) (String.◌∷◌ d a') b b' h h' e =
    let e' = sym (joined-cons c a b) ∙ e ∙ joined-cons d a' b' in
    let (same, later) = joined-injective a a' b b' (ground arith) (ground arith) (ap rest e') in
    (ap₂ String.◌∷◌ (Char-path c d (ap first e')) same, later)

-- A grant whose key can be read back.
abbrev pub is_plain_scope : RepoScopeGrant → Bool
is_plain_scope g = has_no_zero g.workspace && has_no_zero g.path

abbrev pub is_plain_execute : ExecuteGrant → Bool
is_plain_execute g = has_no_zero g.command

abbrev pub is_plain_tool : ToolPermissionGrant → Bool
is_plain_tool g = has_no_zero g.tool

access_of : (a b : Access) → access_text a ≡ access_text b → a ≡ b
access_of read read e = refl
access_of read write e = cc
access_of read execute e = cc
access_of write read e = cc
access_of write write e = refl
access_of write execute e = cc
access_of execute read e = cc
access_of execute write e = cc
access_of execute execute e = refl

pub repo_scope_key-injective :
    (x y : RepoScopeGrant)
    → is_plain_scope x ≡ true
    → is_plain_scope y ≡ true
    → repo_scope_key x ≡ repo_scope_key y
    → (x.workspace ≡ y.workspace) × (x.path ≡ y.path) × (x.access ≡ y.access)
unfolding repo_scope_key
repo_scope_key-injective x y h k e =
    let (workspaces, later) =
      joined-injective x.workspace y.workspace _ _ (ground arith) (ground arith) e in
    let (paths, texts) = joined-injective x.path y.path _ _ (ground arith) (ground arith) later in
    (workspaces, paths, access_of x.access y.access texts)

pub execute_grant_key-injective :
    (x y : ExecuteGrant)
    → is_plain_execute x ≡ true
    → is_plain_execute y ≡ true
    → execute_grant_key x ≡ execute_grant_key y
    → (x.command ≡ y.command) × (x.scope ≡ y.scope)
unfolding execute_grant_key
execute_grant_key-injective x y h k e = joined-injective x.command y.command x.scope y.scope h k e

pub tool_permission_key-injective :
    (x y : ToolPermissionGrant)
    → is_plain_tool x ≡ true
    → is_plain_tool y ≡ true
    → tool_permission_key x ≡ tool_permission_key y
    → (x.tool ≡ y.tool) × (or_else x.permission_level "" ≡ or_else y.permission_level "")
unfolding tool_permission_key
tool_permission_key-injective x y h k e = joined-injective x.tool y.tool _ _ h k e

-- A test that depends on a grant's key alone holds in every list, if it holds in the intersection.
module _ {A : Type 0} (key_of : A → String) (is_plain p : A → Bool)
    (respects : (x y : A)
      → is_plain x ≡ true
      → is_plain y ≡ true
      → key_of x ≡ key_of y
      → p x ≡ true
      → p y ≡ true) where
  listed-any :
      (xs : List A) (x : A)
      → all is_plain xs ≡ true
      → is_plain x ≡ true
      → listed key_of xs (key_of x) ≡ true
      → p x ≡ true
      → any p xs ≡ true
  listed-any [] x h k e r = cc
  listed-any (y ∷ xs) x h k e r = elim (Bool-cases (key_of y == key_of x)) [
    | inl same ↦
        let holds = respects x y k (ground arith) (sym ((eq_iff (key_of y) (key_of x)).0 same)) r in
        ground arith
    | inr other ↦ ground (arith, listed-any xs x (ground arith) k (ground arith) r)
  ]

  listed-all :
      (lists : List (List A)) (x : A)
      → all (all is_plain) lists ≡ true
      → is_plain x ≡ true
      → all (λ list. listed key_of list (key_of x)) lists ≡ true
      → p x ≡ true
      → all (any p) lists ≡ true
  listed-all [] x h k e r = refl
  listed-all (xs ∷ lists) x h k e r = ground (
    arith,
    listed-any xs x (ground arith) k (ground arith) r,
    listed-all lists x (ground arith) k (ground arith) r,
  )

  filter-any :
      (rest : List (List A)) (xs : List A)
      → all is_plain xs ≡ true
      → all (all is_plain) rest ≡ true
      → any p (filter (λ item. all (λ list. listed key_of list (key_of item)) rest) xs) ≡ true
      → (any p xs ≡ true) × (all (any p) rest ≡ true)
  filter-any rest [] h hs k = cc
  filter-any rest (x ∷ xs) h hs k =
      ground (arith, listed-all rest x hs, filter-any rest xs (ground arith) hs)

  pub intersect_by_key-any :
      (first : List A) (rest : List (List A))
      → all (all is_plain) (first ∷ rest) ≡ true
      → any p (intersect_by_key key_of (first ∷ rest)) ≡ true
      → all (any p) (first ∷ rest) ≡ true
  unfolding intersect_by_key
  intersect_by_key-any first rest h k =
      ground (arith, filter-any rest first (ground arith) (ground arith) k)
