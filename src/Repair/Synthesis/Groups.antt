-- ===== src/Repair/Synthesis/Groups.antt =====
-- The grouping loops against plain filters over the findings and the critiques.
use protostar.Base.{
  ◌≡◌, refl, sym, ap, ◌∙◌, inl, inr, String, Bool, false, ◌&&◌, List, [], ◌∷◌, ◌++◌, Option, none,
  some, ◌==◌, eq_iff, eq_refl, append-nil, append_assoc, Dict, get, get-put, or_else, is_empty,
  Bool-cases, if◌then◌else◌,
}
use protostar.Repair.Synthesis.{
  empty_group, push_mechanical, push_model, group_finding, Group, RepairTask, repair_of,
  group_findings, group_refs, group_critiques,
}

abbrev pub names : Option String → String → Bool
names none id = false
names (some k) id = k == id

module _ {F C : Type 0} (repair_task_id : F → Option String) (task_refs : C → List String) where
  -- The findings that name the task, in their order.
  abbrev pub findings_for : String → List F → List F
  findings_for id [] = []
  findings_for id (f ∷ fs) =
      if names (repair_task_id f) id then f ∷ findings_for id fs else findings_for id fs

  -- A critique, once for each of its references to the task.
  abbrev pub times : String → C → List String → List C
  times id c [] = []
  times id c (k ∷ ks) = if k == id then c ∷ times id c ks else times id c ks

  abbrev pub critiques_for : String → List C → List C
  critiques_for id [] = []
  critiques_for id (c ∷ cs) = times id c (task_refs c) ++ critiques_for id cs

  -- What the plan says of a task: nothing, if nobody named it.
  abbrev pub repair_for : List F → List C → String → List (RepairTask F C)
  repair_for fs cs id =
      let found = findings_for id fs in
      let said = critiques_for id cs in
      if is_empty found && is_empty said
      then []
      else record {
        plan_task_id = id;
        mechanical_critiques = found;
        model_critiques = if is_empty said then none else some said;
      }
        ∷ []

  abbrev pub repairs_for : List F → List C → List String → List (RepairTask F C)
  repairs_for fs cs [] = []
  repairs_for fs cs (id ∷ ids) = repair_for fs cs id ++ repairs_for fs cs ids

  abbrev pub push_f : Option (Group F C) → F → Option (Group F C)
  push_f none f = some (record { mechanical_critiques = f ∷ []; model_critiques = [] })
  push_f (some g) f = some (record g { mechanical_critiques = g.mechanical_critiques ++ f ∷ [] })

  abbrev pub push_c : Option (Group F C) → C → Option (Group F C)
  push_c none c = some (record { mechanical_critiques = []; model_critiques = c ∷ [] })
  push_c (some g) c = some (record g { model_critiques = g.model_critiques ++ c ∷ [] })

  abbrev pub add_findings : Option (Group F C) → List F → Option (Group F C)
  add_findings o [] = o
  add_findings o (f ∷ fs) = add_findings (push_f o f) fs

  abbrev pub add_critiques : Option (Group F C) → List C → Option (Group F C)
  add_critiques o [] = o
  add_critiques o (c ∷ cs) = add_critiques (push_c o c) cs

  push_mechanical-get :
      (m : Dict (Group F C)) (k id : String) (f : F)
      → get (push_mechanical m k f) id ≡ (if k == id then push_f (get m id) f else get m id)
  push_mechanical-get m k id f = elim (Bool-cases (k == id)) [
    | inl same ↦ rw ((eq_iff k id).0 same) (here m id f)
    | inr other ↦ get-put m k id _ ∙ rw other
  ]
    where
      here :
          (m : Dict (Group F C)) (id : String) (f : F)
          → get (push_mechanical m id f) id ≡ (if id == id then push_f (get m id) f else get m id)
      here m id f = get-put m id id _ ∙ rw (eq_refl id) (by_group (get m id))
        where
          by_group :
              (o : Option (Group F C))
              → some (record (or_else o empty_group) {
                mechanical_critiques = (or_else o empty_group).mechanical_critiques ++ f ∷ [];
              })
                ≡ push_f o f
          by_group none = refl
          by_group (some g) = refl

  push_model-get :
      (m : Dict (Group F C)) (k id : String) (c : C)
      → get (push_model m k c) id ≡ (if k == id then push_c (get m id) c else get m id)
  push_model-get m k id c = elim (Bool-cases (k == id)) [
    | inl same ↦ rw ((eq_iff k id).0 same) (here m id c)
    | inr other ↦ get-put m k id _ ∙ rw other
  ]
    where
      here :
          (m : Dict (Group F C)) (id : String) (c : C)
          → get (push_model m id c) id ≡ (if id == id then push_c (get m id) c else get m id)
      here m id c = get-put m id id _ ∙ rw (eq_refl id) (by_group (get m id))
        where
          by_group :
              (o : Option (Group F C))
              → some (record (or_else o empty_group) {
                model_critiques = (or_else o empty_group).model_critiques ++ c ∷ [];
              })
                ≡ push_c o c
          by_group none = refl
          by_group (some g) = refl

  group_finding-get :
      (f : F) (o : Option String) (m : Dict (Group F C)) (id : String) (rest : List F)
      → add_findings (get (group_finding repair_task_id task_refs f o m) id) rest
        ≡ add_findings (get m id) (if names o id then f ∷ rest else rest)
  group_finding-get f none m id rest = refl
  group_finding-get f (some k) m id rest = elim (Bool-cases (k == id)) [
    | inl same ↦ rw (push_mechanical-get m k id f, same)
    | inr other ↦ rw (push_mechanical-get m k id f, other)
  ]

  pub group_findings-get :
      (fs : List F) (m : Dict (Group F C)) (id : String)
      → get (group_findings repair_task_id task_refs fs m) id
        ≡ add_findings (get m id) (findings_for id fs)
  unfolding group_findings
  group_findings-get [] m id = refl
  group_findings-get (f ∷ fs) m id =
      group_findings-get fs (group_finding repair_task_id task_refs f (repair_task_id f) m) id
      ∙ group_finding-get f (repair_task_id f) m id (findings_for id fs)

  group_refs-get :
      (c : C) (ks : List String) (m : Dict (Group F C)) (id : String)
      → get (group_refs repair_task_id task_refs c ks m) id
        ≡ add_critiques (get m id) (times id c ks)
  unfolding group_refs
  group_refs-get c [] m id = refl
  group_refs-get c (k ∷ ks) m id = elim (Bool-cases (k == id)) [
    | inl same ↦ group_refs-get c ks (push_model m k c) id ∙ rw (push_model-get m k id c, same)
    | inr other ↦ group_refs-get c ks (push_model m k c) id ∙ rw (push_model-get m k id c, other)
  ]

  add_critiques-append :
      (o : Option (Group F C)) (xs ys : List C)
      → add_critiques o (xs ++ ys) ≡ add_critiques (add_critiques o xs) ys
  add_critiques-append o [] ys = refl
  add_critiques-append o (x ∷ xs) ys = add_critiques-append (push_c o x) xs ys

  pub group_critiques-get :
      (cs : List C) (m : Dict (Group F C)) (id : String)
      → get (group_critiques repair_task_id task_refs cs m) id
        ≡ add_critiques (get m id) (critiques_for id cs)
  unfolding group_critiques
  group_critiques-get [] m id = refl
  group_critiques-get (c ∷ cs) m id =
      group_critiques-get cs (group_refs repair_task_id task_refs c (task_refs c) m) id
      ∙ ap (λ o. add_critiques o (critiques_for id cs)) (group_refs-get c (task_refs c) m id)
      ∙ sym (add_critiques-append (get m id) (times id c (task_refs c)) (critiques_for id cs))

  add_findings-some :
      (g : Group F C) (fs : List F)
      → add_findings (some g) fs
        ≡ some (record g { mechanical_critiques = g.mechanical_critiques ++ fs })
  add_findings-some g [] =
      ap (λ l. some (record g { mechanical_critiques = l })) (sym (append-nil _))
  add_findings-some g (f ∷ fs) =
      add_findings-some (record g { mechanical_critiques = g.mechanical_critiques ++ f ∷ [] }) fs
      ∙ ap (λ l. some (record g { mechanical_critiques = l }))
          (append_assoc g.mechanical_critiques (f ∷ []) fs)

  add_critiques-some :
      (g : Group F C) (cs : List C)
      → add_critiques (some g) cs ≡ some (record g { model_critiques = g.model_critiques ++ cs })
  add_critiques-some g [] = ap (λ l. some (record g { model_critiques = l })) (sym (append-nil _))
  add_critiques-some g (c ∷ cs) =
      add_critiques-some (record g { model_critiques = g.model_critiques ++ c ∷ [] }) cs
      ∙ ap (λ l. some (record g { model_critiques = l }))
          (append_assoc g.model_critiques (c ∷ []) cs)

  -- The group of a task is what was found and said of it.
  pub repair_of-add :
      (id : String) (fs : List F) (cs : List C)
      → repair_of id (add_critiques (add_findings none fs) cs) ≡ (
          if is_empty fs && is_empty cs
          then []
          else record {
            plan_task_id = id;
            mechanical_critiques = fs;
            model_critiques = if is_empty cs then none else some cs;
          }
            ∷ [])
  repair_of-add id [] [] = refl
  repair_of-add id [] (c ∷ cs) = ap (repair_of id) (add_critiques-some _ cs)
  repair_of-add id (f ∷ fs) [] = ap (repair_of id) (add_findings-some _ fs)
  repair_of-add id (f ∷ fs) (c ∷ cs) = ap (repair_of id) (
      ap (λ o. add_critiques o (c ∷ cs))
        (add_findings-some (record { mechanical_critiques = f ∷ []; model_critiques = [] }) fs)
      ∙ add_critiques-some (record { mechanical_critiques = f ∷ fs; model_critiques = [] })
          (c ∷ cs))
