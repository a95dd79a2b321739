-- ===== src/Tunnels/Active.antt =====
-- The operations of `TunnelService` on the selected project; without one they are refused.
use datum_connect.Base.{◌≡◌, refl, Bool, Option, none, some, option_eq, nat_eq, text_eq, err}
use datum_connect.Text.{Text}
use datum_connect.Connection.{EndpointAddr}
use datum_connect.State.Store.{Disk}
use datum_connect.Tunnels.{TunnelSummary, TunnelDeleteOutcome, Url}
use datum_connect.Tunnels.Io.{ControlPlane, Io, pure}
use datum_connect.Tunnels.Service.{create_project, update_project, set_enabled_project}
use datum_connect.Tunnels.Removal.{delete_project}

module _ (K : ControlPlane) (D : Disk) (parse_url : Text → Option Url) (addr : EndpointAddr)
    (publish_tickets : Bool) where
  abbrev in_project : {A : Type 0} → Option Text → (Text → Io K D A) → Io K D A
  in_project none act = pure (err "No project selected")
  in_project (some project_id) act = act project_id

  create_active : Option Text → Text → Text → Io K D TunnelSummary
  create_active selected label endpoint =
      in_project selected (λ i. create_project K D parse_url addr publish_tickets i label endpoint)

  update_active : Option Text → Text → Text → Text → Io K D TunnelSummary
  update_active selected tunnel_id label endpoint =
      in_project selected
        (λ i. update_project K D parse_url addr publish_tickets i tunnel_id label endpoint)

  set_enabled_active : Option Text → Text → Bool → Io K D TunnelSummary
  set_enabled_active selected tunnel_id enabled =
      in_project selected
        (λ i. set_enabled_project K D parse_url addr publish_tickets i tunnel_id enabled)

  delete_active : Option Text → Text → Io K D TunnelDeleteOutcome
  delete_active selected tunnel_id = in_project selected (λ i. delete_project K D addr i tunnel_id)

  -- Without a selected project nothing is changed and nobody is asked.
  active-none :
      (tunnel_id label endpoint : Text) (enabled : Bool)
      → (create_active none label endpoint ≡ pure (err "No project selected"))
        × (update_active none tunnel_id label endpoint ≡ pure (err "No project selected"))
        × (set_enabled_active none tunnel_id enabled ≡ pure (err "No project selected"))
        × (delete_active none tunnel_id ≡ pure (err "No project selected"))
  unfolding create_active update_active set_enabled_active delete_active
  active-none tunnel_id label endpoint enabled = (refl, refl, refl, refl)
