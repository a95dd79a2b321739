-- ===== src/Ui/Tunnels.antt =====
-- The list of tunnels that the views share (ui/src/state.rs), and what the actions of the views do when
-- the tunnel service has answered (ui/src/views/proxies_list.rs,
-- ui/src/components/add_tunnel_dialog.rs).
use datum_connect.Base.{
  ℕ, ◌+◌, ◌≡◌, refl, ap, ◌∙◌, Bool, true, false, not, ◌&&◌, ◌||◌, Option, none, some, List, [], ◌∷◌,
  arith, if◌then◌else◌, ◌==◌, option_eq, nat_eq, text_eq, any, find, keep, Result, ok, err,
}
use datum_connect.Text.{Text, codes, starts_with}
use datum_connect.Session.{SelectedContext}
use datum_connect.Tunnels.{TunnelSummary, TunnelDeleteOutcome}
use datum_connect.Node.{or_else}

pub data HeartbeatCall : Type 0 where
  register_project deregister_project : Text → HeartbeatCall

-- `heartbeat` are the calls of the heartbeat agent, the last one first.
pub record AppState : Type 0 where
  pub tunnel_cache : List TunnelSummary
  pub tunnel_refreshes : ℕ
  pub heartbeat : List HeartbeatCall

abbrev pub set_tunnel_cache : List TunnelSummary → AppState → AppState
set_tunnel_cache list s = record s { tunnel_cache = list }

abbrev pub bump_tunnel_refresh : AppState → AppState
bump_tunnel_refresh s = record s { tunnel_refreshes = s.tunnel_refreshes + 1 }

unfoldable pub upsert_summary : TunnelSummary → List TunnelSummary → List TunnelSummary
upsert_summary t [] = t ∷ []
upsert_summary t (x ∷ xs) =
    let rest = upsert_summary t xs in if x.id == t.id then t ∷ xs else x ∷ rest

unfoldable pub upsert_tunnel : TunnelSummary → AppState → AppState
unfolding upsert_summary
upsert_tunnel t s = record s { tunnel_cache = upsert_summary t s.tunnel_cache }

unfoldable pub remove_tunnel : Text → AppState → AppState
remove_tunnel i s = record s { tunnel_cache = keep (λ t. not (t.id == i)) s.tunnel_cache }

abbrev call_heartbeat : HeartbeatCall → AppState → AppState
call_heartbeat c s = record s { heartbeat = c ∷ s.heartbeat }

-- The action of a view, with the answer of the tunnel service
pub data Action : Type 0 where
  -- `save_create_tunnel`, in the selected project
  create_tunnel : Text → Result TunnelSummary → Action
  -- `save_tunnel`
  save_tunnel : Result TunnelSummary → Action
  -- `toggle_action`, to the state given, in the selected context
  toggle_tunnel : Bool → Option SelectedContext → Result TunnelSummary → Action
  -- `on_delete` of a tunnel's id
  delete_tunnel : Text → Result TunnelDeleteOutcome → Action
  -- a list that the poll has fetched
  listed_tunnels : List TunnelSummary → Action

abbrev toggled : Bool → Option SelectedContext → AppState → AppState
toggled true (some selected) s = call_heartbeat (register_project selected.project_id) s
toggled _ _ s = s

unfoldable pub act : Action → AppState → AppState
unfolding upsert_tunnel remove_tunnel
act (create_tunnel project_id (err e)) s = s
act (create_tunnel project_id (ok t)) s =
    call_heartbeat (register_project project_id) (bump_tunnel_refresh (upsert_tunnel t s))
act (save_tunnel (err e)) s = s
act (save_tunnel (ok t)) s = bump_tunnel_refresh (upsert_tunnel t s)
act (toggle_tunnel enabled selected (err e)) s = s
act (toggle_tunnel enabled selected (ok t)) s =
    bump_tunnel_refresh (upsert_tunnel t (toggled enabled selected s))
act (delete_tunnel i (err e)) s = s
act (delete_tunnel i (ok outcome)) s =
    let called =
      if outcome.connector_deleted
      then call_heartbeat (deregister_project outcome.project_id) s
      else s in
    bump_tunnel_refresh (remove_tunnel i called)
act (listed_tunnels list) s = set_tunnel_cache list s

abbrev is_empty {ℓ} : {A : Type ℓ} → List A → Bool
is_empty [] = true
is_empty (x ∷ xs) = false

-- The list is fetched again after three seconds, not only when something has changed.
abbrev pub polls_again : List TunnelSummary → Bool
polls_again list =
    any (λ t. is_empty t.hostnames) list || any (λ t. not t.accepted || not t.programmed) list

abbrev first {ℓ} : {A : Type ℓ} → List A → Option A
first [] = none
first (x ∷ xs) = some x

-- The hostname that a card shows
abbrev pub public_hostname : TunnelSummary → Option Text
public_hostname t =
    or_else
      (find (λ h. not (starts_with h (codes "v4.")) && not (starts_with h (codes "v6.")))
        t.hostnames)
      (first t.hostnames)

abbrev pub display_endpoint : TunnelSummary → Text
display_endpoint t = if is_empty t.endpoint then codes "unknown" else t.endpoint

unfoldable pub find_tunnel : Text → List TunnelSummary → Option TunnelSummary
find_tunnel i xs = find (λ t. t.id == i) xs

abbrev pub UniqueIds : List TunnelSummary → Type 0
UniqueIds [] = Unit
UniqueIds (x ∷ xs) = (find_tunnel x.id xs ≡ none) × UniqueIds xs

pub find_tunnel-upsert_summary :
    (t : TunnelSummary) (i : Text) (xs : List TunnelSummary)
    → find_tunnel i (upsert_summary t xs) ≡ (if t.id == i then some t else find_tunnel i xs)
unfolding upsert_summary find_tunnel
find_tunnel-upsert_summary t i [] = refl
find_tunnel-upsert_summary t i (x ∷ xs) = ground (arith, find_tunnel-upsert_summary t i xs)

upsert_summary-UniqueIds :
    (t : TunnelSummary) (xs : List TunnelSummary) → UniqueIds xs → UniqueIds (upsert_summary t xs)
unfolding upsert_summary find_tunnel
upsert_summary-UniqueIds t [] u = (refl, tt)
upsert_summary-UniqueIds t (x ∷ xs) (n, u) =
    ground (arith, upsert_summary-UniqueIds t xs u, find_tunnel-upsert_summary t x.id xs)

pub find_tunnel-keep :
    (i j : Text) (xs : List TunnelSummary)
    → find_tunnel j (keep (λ t. not (t.id == i)) xs) ≡ (if i == j then none else find_tunnel j xs)
unfolding find_tunnel
find_tunnel-keep i j [] = ground arith
find_tunnel-keep i j (x ∷ xs) = ground (arith, find_tunnel-keep i j xs)

keep-UniqueIds :
    (i : Text) (xs : List TunnelSummary) → UniqueIds xs → UniqueIds (keep (λ t. not (t.id == i)) xs)
unfolding find_tunnel
keep-UniqueIds i [] u = tt
keep-UniqueIds i (x ∷ xs) (n, u) = ground (arith, keep-UniqueIds i xs u, find_tunnel-keep i x.id xs)

-- Lists that are fetched have no two tunnels of one id.
abbrev pub IsProper : Action → Type 0
IsProper (listed_tunnels list) = UniqueIds list
IsProper _ = Unit

-- No action makes the views list a tunnel twice, if the lists that are fetched have none twice.
pub act-UniqueIds :
    (a : Action) (s : AppState)
    → IsProper a
    → UniqueIds s.tunnel_cache
    → UniqueIds (act a s).tunnel_cache
unfolding act
act-UniqueIds (create_tunnel p (err e)) s q u = u
act-UniqueIds (create_tunnel p (ok t)) s q u = upsert_summary-UniqueIds t s.tunnel_cache u
act-UniqueIds (save_tunnel (err e)) s q u = u
act-UniqueIds (save_tunnel (ok t)) s q u = upsert_summary-UniqueIds t s.tunnel_cache u
act-UniqueIds (toggle_tunnel b c (err e)) s q u = u
act-UniqueIds (toggle_tunnel b c (ok t)) s q u =
    ground (arith, upsert_summary-UniqueIds t s.tunnel_cache u)
act-UniqueIds (delete_tunnel i (err e)) s q u = u
act-UniqueIds (delete_tunnel i (ok o)) s q u = ground (arith, keep-UniqueIds i s.tunnel_cache u)
act-UniqueIds (listed_tunnels list) s q u = q

-- The tunnel that an action leaves under an id, where `before` was there: what the service has
-- answered last.
abbrev pub shown : Action → Text → Option TunnelSummary → Option TunnelSummary
shown (create_tunnel p (ok t)) j before = if t.id == j then some t else before
shown (save_tunnel (ok t)) j before = if t.id == j then some t else before
shown (toggle_tunnel enabled selected (ok t)) j before = if t.id == j then some t else before
shown (delete_tunnel i (ok outcome)) j before = if i == j then none else before
shown (listed_tunnels list) j before = find_tunnel j list
shown (create_tunnel p (err e)) j before = before
shown (save_tunnel (err e)) j before = before
shown (toggle_tunnel enabled selected (err e)) j before = before
shown (delete_tunnel i (err e)) j before = before

abbrev pub act_all : List Action → AppState → AppState
act_all [] s = s
act_all (a ∷ rest) s = act_all rest (act a s)

abbrev pub shown_all : List Action → Text → Option TunnelSummary → Option TunnelSummary
shown_all [] j before = before
shown_all (a ∷ rest) j before = shown_all rest j (shown a j before)

find_tunnel-act :
    (a : Action) (s : AppState) (j : Text)
    → find_tunnel j (act a s).tunnel_cache ≡ shown a j (find_tunnel j s.tunnel_cache)
unfolding act
find_tunnel-act (create_tunnel p (err e)) s j = refl
find_tunnel-act (create_tunnel p (ok t)) s j = find_tunnel-upsert_summary t j s.tunnel_cache
find_tunnel-act (save_tunnel (err e)) s j = refl
find_tunnel-act (save_tunnel (ok t)) s j = find_tunnel-upsert_summary t j s.tunnel_cache
find_tunnel-act (toggle_tunnel b c (err e)) s j = refl
find_tunnel-act (toggle_tunnel b c (ok t)) s j =
    ground (arith, find_tunnel-upsert_summary t j s.tunnel_cache)
find_tunnel-act (delete_tunnel i (err e)) s j = refl
find_tunnel-act (delete_tunnel i (ok o)) s j = ground (arith, find_tunnel-keep i j s.tunnel_cache)
find_tunnel-act (listed_tunnels list) s j = refl

-- After any actions the views find under each id what the service has answered last for it: the tunnel
-- of the last creation, save or switch that succeeded, nothing after a deletion, and after a fetch
-- what the fetched list has. Actions that fail change nothing.
pub find_tunnel-act_all :
    (run : List Action) (s : AppState) (j : Text)
    → find_tunnel j (act_all run s).tunnel_cache ≡ shown_all run j (find_tunnel j s.tunnel_cache)
find_tunnel-act_all [] s j = refl
find_tunnel-act_all (a ∷ rest) s j =
    find_tunnel-act_all rest (act a s) j ∙ ap (shown_all rest j) (find_tunnel-act a s j)
