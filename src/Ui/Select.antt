-- ===== src/Ui/Select.antt =====
-- ui/src/views/select_project.rs: the organization and project that are offered first, and the context
-- that is saved; and the options of ui/src/views/navbar.rs.
use datum_connect.Base.{
  ℕ, ◌+◌, ◌≡◌, inl, inr, Bool, true, ◌&&◌, Option, none, some, List, [], ◌∷◌, map, arith,
  if◌then◌else◌, ◌==◌, ==_refl, option_eq, nat_eq, text_eq, Bool-cases, leb, any, find,
  Option-cases, Result, ok, err,
}
use datum_connect.Text.{Text, codes}
use datum_connect.Session.{SelectedContext, Project, OrganizationWithProjects}
use datum_connect.Session.Client.{is_valid}
use datum_connect.Session.Validation.{still_valid}

abbrev lower_ascii : ℕ → ℕ
lower_ascii c = if leb b'A' c && leb c b'Z' then c + 32 else c

-- `a.eq_ignore_ascii_case(b)`
abbrev pub eq_ignore_ascii_case : Text → Text → Bool
eq_ignore_ascii_case a b = map lower_ascii a == map lower_ascii b

-- The signals `selected_org` and `selected_project`
pub record Selection : Type 0 where
  pub selected_org : Option Text
  pub selected_project : Option Text

abbrev has_org : Text → OrganizationWithProjects → Bool
has_org i o = o.org.resource_id == i

abbrev has_project : Text → Project → Bool
has_project i p = p.resource_id == i

abbrev first {ℓ} : {A : Type ℓ} → List A → Option A
first [] = none
first (x ∷ xs) = some x

abbrev or_first {ℓ} : {A : Type ℓ} → Option A → List A → Option A
or_first none xs = first xs
or_first (some a) xs = some a

abbrev is_personal : OrganizationWithProjects → Bool
is_personal o = eq_ignore_ascii_case o.org.kind (codes "personal")

-- The last part of the effect: the personal organization, or the first one, and its first project.
abbrev fallback_org : List OrganizationWithProjects → Selection → Selection
fallback_org list s = elim (or_first (find is_personal list) list) [
  | none ↦ s
  | some o ↦ record {
    selected_org = some o.org.resource_id;
    selected_project = elim (first o.projects) [
      | none ↦ s.selected_project
      | some p ↦ some p.resource_id
    ];
  }
]

abbrev in_org :
    List OrganizationWithProjects
    → SelectedContext
    → Selection
    → OrganizationWithProjects
    → Selection
in_org list ctx s o =
    if any (has_project ctx.project_id) o.projects
    then record { selected_org = some ctx.org_id; selected_project = some ctx.project_id }
    else elim (first o.projects) [
      | some p ↦ record { selected_org = some ctx.org_id; selected_project = some p.resource_id }
      | none ↦ fallback_org list (record s { selected_org = some ctx.org_id })
    ]

abbrev preselected : List OrganizationWithProjects → Option SelectedContext → Selection → Selection
preselected list none s = fallback_org list s
preselected list (some ctx) s = elim (find (has_org ctx.org_id) list) [
  | none ↦ fallback_org list s
  | some o ↦ in_org list ctx s o
]

-- The effect that runs when the lists have come
unfoldable pub preselect :
    List OrganizationWithProjects → Option SelectedContext → Selection → Selection
preselect [] ctx s = s
preselect (x ∷ xs) ctx s = elim s.selected_org [ some i ↦ s | none ↦ preselected (x ∷ xs) ctx s ]

-- `save_and_nav`, up to the context that it stores
unfoldable pub save_context : List OrganizationWithProjects → Text → Text → Result SelectedContext
save_context orgs org_id project_id = elim (find (has_org org_id) orgs) [
  | none ↦ err "selected org not found"
  | some o ↦ elim (find (has_project project_id) o.projects) [
    | none ↦ err "selected project not found"
    | some p ↦ ok (record {
      org_id = org_id;
      org_name = o.org.display_name;
      project_id = project_id;
      project_name = p.display_name;
    })
  ]
]

-- The projects that navbar and select_project offer for an organization, with their names
abbrev pub project_options : List OrganizationWithProjects → Option Text → List (Text × Text)
project_options orgs none = []
project_options orgs (some org_id) = elim (find (has_org org_id) orgs) [
  | none ↦ []
  | some o ↦ map (λ p. (p.resource_id, p.display_name)) o.projects
]

abbrev pub org_options : List OrganizationWithProjects → List (Text × Text)
org_options orgs = map (λ o. (o.org.resource_id, o.org.display_name)) orgs

find-any :
    {A : Type 0} (test : A → Bool) (xs : List A) (a : A)
    → find test xs ≡ some a
    → any test xs ≡ true
find-any test [] a h = ground arith
find-any test (x ∷ xs) a h = ground (arith, find-any test xs a)

found_is_valid :
    (list : List OrganizationWithProjects) (o : OrganizationWithProjects) (c : SelectedContext)
    → find (has_org c.org_id) list ≡ some o
    → any (has_project c.project_id) o.projects ≡ true
    → is_valid list c ≡ true
found_is_valid [] o c f h = ground arith
found_is_valid (x ∷ xs) o c f h = ground (arith, found_is_valid xs o c)

-- A context that is saved is one that the check of the cloud client keeps, as long as the lists are
-- the same, and it has the identifiers that were chosen.
pub save_context-still_valid :
    (orgs : List OrganizationWithProjects) (org_id project_id : Text) (c : SelectedContext)
    → save_context orgs org_id project_id ≡ ok c
    → (still_valid orgs (some c) ≡ some c) × (c.org_id ≡ org_id) × (c.project_id ≡ project_id)
unfolding save_context
save_context-still_valid orgs org_id project_id c h =
    elim (Option-cases (find (has_org org_id) orgs)) [
      | inl e ↦ ground arith
      | inr (o, e) ↦ elim (Option-cases (find (has_project project_id) o.projects)) [
        | inl q ↦ ground arith
        | inr (p, q) ↦
            ground
              (arith, find-any (has_project project_id) o.projects p q, found_is_valid orgs o c)
      ]
    ]

-- An identifier of an organization in the list
abbrev pub is_org : List OrganizationWithProjects → Text → Bool
is_org list i = any (has_org i) list

find-has_org :
    (test : OrganizationWithProjects → Bool) (list : List OrganizationWithProjects)
    (o : OrganizationWithProjects)
    → find test list ≡ some o
    → is_org list o.org.resource_id ≡ true
find-has_org test [] o h = ground arith
find-has_org test (x ∷ xs) o h = ground (arith, find-has_org test xs o, ==_refl x.org.resource_id)

fallback_org-is_org :
    (x : OrganizationWithProjects) (xs : List OrganizationWithProjects) (s : Selection)
    → (i : Text) × ((fallback_org (x ∷ xs) s).selected_org ≡ some i) × (is_org (x ∷ xs) i ≡ true)
fallback_org-is_org x xs s = elim (Option-cases (find is_personal (x ∷ xs))) [
  | inl e ↦ (x.org.resource_id, ground arith, ground (arith, ==_refl x.org.resource_id))
  | inr (o, e) ↦ (o.org.resource_id, ground arith, find-has_org is_personal (x ∷ xs) o e)
]

in_org-is_org :
    (x : OrganizationWithProjects) (xs : List OrganizationWithProjects) (c : SelectedContext)
    (s : Selection) (o : OrganizationWithProjects)
    → is_org (x ∷ xs) c.org_id ≡ true
    → (i : Text) × ((in_org (x ∷ xs) c s o).selected_org ≡ some i) × (is_org (x ∷ xs) i ≡ true)
in_org-is_org x xs c s o h = elim (Bool-cases (any (has_project c.project_id) o.projects)) [
  | inl e ↦ (c.org_id, ground arith, h)
  | inr e ↦ elim (Option-cases (first o.projects)) [
    | inr (p, q) ↦ (c.org_id, ground arith, h)
    | inl q ↦
        let (i, f, g) = fallback_org-is_org x xs (record s { selected_org = some c.org_id }) in
        (i, ground (arith, f), g)
  ]
]

-- With any organization in the list, the effect selects one of them.
pub preselect-is_org :
    (x : OrganizationWithProjects) (xs : List OrganizationWithProjects)
    (ctx : Option SelectedContext) (s : Selection)
    → s.selected_org ≡ none
    → (i : Text) × ((preselect (x ∷ xs) ctx s).selected_org ≡ some i) × (is_org (x ∷ xs) i ≡ true)
unfolding preselect
preselect-is_org x xs none s h =
    let (i, f, g) = fallback_org-is_org x xs s in (i, ground (arith, f), g)
preselect-is_org x xs (some c) s h = elim (Option-cases (find (has_org c.org_id) (x ∷ xs))) [
  | inl e ↦ let (i, f, g) = fallback_org-is_org x xs s in (i, ground (arith, f), g)
  | inr (o, e) ↦
      let (i, f, g) = in_org-is_org x xs c s o (find-any (has_org c.org_id) (x ∷ xs) o e) in
      (i, ground (arith, f), g)
]
