-- ===== src/Session/Validation.antt =====
-- The check of the selected context in `refresh_orgs_projects_and_validate_context`.
use datum_connect.Base.{
  ℕ, ◌≡◌, refl, ◌↔◌, ◌⊎◌, inl, inr, true, false, any, Bool-cases, ◌==◌, Option, none, some, List,
  [], ◌∷◌, arith, if◌then◌else◌, option_eq, nat_eq, text_eq, Option-cases, Result, ok, is_ok,
  Result-cases,
}
use datum_connect.Json.{Json}
use datum_connect.Text.{Text}
use datum_connect.Login.Client.{SessionFile, Provider}
use datum_connect.Session.{ApiEnv, SelectedContext, Organization, OrganizationWithProjects, Project}
use datum_connect.Session.Context.{ContextFile, SessionStateWrapper, set_selected_context-result}
use datum_connect.Session.Client.{
  Http, DatumCloudClient, fetch_direct, orgs, projects, collect_projects, orgs_and_projects,
  is_valid, validated, refresh_orgs_projects_and_validate_context,
}

-- The selection, if it is one of the list's projects.
abbrev pub still_valid :
    List OrganizationWithProjects → Option SelectedContext → Option SelectedContext
still_valid list none = none
still_valid list (some s) = if is_valid list s then some s else none

-- One of the projects has the identifier.
abbrev pub HasProject : List Project → Text → Type 0
HasProject [] project_id = ⊥
HasProject (p ∷ ps) project_id = (p.resource_id ≡ project_id) ⊎ HasProject ps project_id

-- The organization of the selection is one of the list, and has the project of the selection.
abbrev pub Offers : List OrganizationWithProjects → SelectedContext → Type 0
Offers [] s = ⊥
Offers (o ∷ os) s =
    ((o.org.resource_id ≡ s.org_id) × HasProject o.projects s.project_id) ⊎ Offers os s

any-HasProject :
    (ps : List Project) (i : Text) → (any (λ p. p.resource_id == i) ps ≡ true) ↔ HasProject ps i
any-HasProject [] i = (λ h. cc, λ h. absurd h)
any-HasProject (p ∷ ps) i =
    (λ h. ground (arith, any-HasProject ps i), λ h. ground (arith, any-HasProject ps i))

is_valid-Offers :
    (list : List OrganizationWithProjects) (s : SelectedContext)
    → (is_valid list s ≡ true) ↔ Offers list s
is_valid-Offers [] s = (λ h. cc, λ h. absurd h)
is_valid-Offers (o ∷ os) s = (
  λ h. ground (arith, is_valid-Offers os s, any-HasProject o.projects s.project_id),
  λ h. ground (arith, is_valid-Offers os s, any-HasProject o.projects s.project_id),
)

-- What a check that succeeds makes of a selection: it stays if the list offers it, and is taken back
-- if not.
abbrev pub IsChecked :
    List OrganizationWithProjects → Option SelectedContext → Option SelectedContext → Type 0
IsChecked list none after = after ≡ none
IsChecked list (some s) after =
    (Offers list s × (after ≡ some s)) ⊎ (¬ Offers list s × (after ≡ none))

still_valid-IsChecked :
    (list : List OrganizationWithProjects) (before after : Option SelectedContext)
    → after ≡ still_valid list before
    → IsChecked list before after
still_valid-IsChecked list none after h = h
still_valid-IsChecked list (some s) after h = elim (Bool-cases (is_valid list s)) [
  | inl e ↦ inl ((is_valid-Offers list s).0 e, ground arith)
  | inr e ↦ inr (λ o. absurd (ground (arith, (is_valid-Offers list s).1 o)), ground arith)
]

module _ (J : Json) (H : Http J) (S : SessionFile) (F : ContextFile) where
  abbrev session_of : DatumCloudClient J H S F → SessionStateWrapper F
  session_of w = w.session

  module _ (env : ApiEnv) (P : Provider) (now : ℕ) where
    fetch_direct-Keeps :
        (target : Text) (w : DatumCloudClient J H S F)
        → (fetch_direct J H S F env P now target w).0.session ≡ w.session
    unfolding fetch_direct
    fetch_direct-Keeps target w = ground arith

    projects-Keeps :
        (i : Text) (w : DatumCloudClient J H S F)
        → (projects J H S F env P now i w).0.session ≡ w.session
    unfolding projects
    projects-Keeps i w = grind (arith, fetch_direct-Keeps)

    orgs-Keeps : (w : DatumCloudClient J H S F) → (orgs J H S F env P now w).0.session ≡ w.session
    unfolding orgs
    orgs-Keeps w = grind (arith, fetch_direct-Keeps)

    collect_projects-Keeps :
        (os : List Organization) (w : DatumCloudClient J H S F)
        → (collect_projects J H S F env P now os w).0.session ≡ w.session
    unfolding collect_projects
    collect_projects-Keeps [] w = refl
    collect_projects-Keeps (o ∷ os) w = grind (arith, projects-Keeps, collect_projects-Keeps os)

    -- The lists are fetched before the selection is looked at; it is kept meanwhile, and a list that
    -- arrives whole is cached.
    orgs_and_projects_lem :
        (answered : List Organization → List Organization) (w : DatumCloudClient J H S F)
        → let (w', r) = orgs_and_projects J H S F env P now answered w in
          (w'.session.selected_context ≡ w.session.selected_context)
          × (w'.session.selected_context_tx ≡ w.session.selected_context_tx)
          × (w'.session.repo ≡ w.session.repo)
          × ((is_ok r ≡ true) → r ≡ ok w'.session.orgs_projects)
    unfolding orgs_and_projects
    orgs_and_projects_lem answered w = grind (arith, orgs-Keeps, collect_projects-Keeps)

    validated_lem :
        (list : List OrganizationWithProjects) (w : DatumCloudClient J H S F)
        → let (w', r) = validated J H S F env P now list w.session.selected_context w in
          (w'.session.orgs_projects ≡ w.session.orgs_projects)
          × (w'.session.selected_context ≡ (
              if is_ok r
              then still_valid list w.session.selected_context
              else w.session.selected_context))
    validated_lem list w = elim (Option-cases w.session.selected_context) [
      | inl e ↦ ground arith
      | inr (s, e) ↦ ground (
        arith,
        set_selected_context-result F (if is_valid list s then some s else none) w.session,
      )
    ]

    pub validated_selection :
        (answered : List Organization → List Organization) (w w' : DatumCloudClient J H S F)
        (r : Result (Unit {0}))
        → refresh_orgs_projects_and_validate_context J H S F env P now answered w ≡ (w', r)
        → w'.session.selected_context ≡ (
            if is_ok r
            then still_valid w'.session.orgs_projects w.session.selected_context
            else w.session.selected_context)
    unfolding refresh_orgs_projects_and_validate_context
    validated_selection answered w w' r h = ground (
      arith,
      orgs_and_projects_lem answered w,
      Result-cases (orgs_and_projects J H S F env P now answered w).1,
      validated_lem (orgs_and_projects J H S F env P now answered w).0.session.orgs_projects
          (orgs_and_projects J H S F env P now answered w).0,
    )

    pub validate_lem :
        (answered : List Organization → List Organization) (w w' : DatumCloudClient J H S F)
        (r : Result (Unit {0}))
        → refresh_orgs_projects_and_validate_context J H S F env P now answered w ≡ (w', r)
        → (is_ok r ≡ true
            → IsChecked w'.session.orgs_projects w.session.selected_context
                w'.session.selected_context)
          × (is_ok r ≡ false → w'.session.selected_context ≡ w.session.selected_context)
    validate_lem answered w w' r h =
        let e = validated_selection answered w w' r h in
        (
          λ k.
              still_valid-IsChecked w'.session.orgs_projects w.session.selected_context
                w'.session.selected_context (ground (arith, e)),
          λ k. ground (arith, e),
        )
