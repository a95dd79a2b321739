-- ===== src/Ui/Tests.antt =====
-- Runs of the views' logic, and instances of its theorems.
use datum_connect.Base.{
  ℕ, ◌+◌, ◌*◌, ◌/◌, min, max, ◌≡◌, refl, true, false, none, some, List, [], ◌∷◌, ◌==◌, option_eq,
  nat_eq, text_eq, length, ok, err,
}
use datum_connect.Text.{codes}
use datum_connect.Session.{SelectedContext, OrganizationWithProjects}
use datum_connect.Session.Validation.{still_valid}
use datum_connect.Tunnels.{TunnelSummary}
use datum_connect.Ui.Tunnels.{
  AppState, Action, create_tunnel, save_tunnel, find_tunnel, act_all, shown_all,
  find_tunnel-act_all,
}
use datum_connect.Ui.Bandwidth.{
  Float, Sampler, Metric, sample, watch, all_points, keep_last, max_points, watch_lem,
}
use datum_connect.Ui.Select.{preselect, save_context, save_context-still_valid}

-- Whole numbers in place of floating-point ones
abbrev whole : Float
whole = record {
  F64 = ℕ;
  zero = 0;
  is_zero = λ n. n == 0;
  per_second = λ bytes dt. bytes * 1000 / max dt 1;
  blend = λ old raw. (old * 88 + raw * 12) / 100;
  to_u64 = λ n. n;
}

abbrev idle : Sampler whole
idle = record { last_sample_at = 0; last_sample = none; ema_send = 0; ema_recv = 0 }

abbrev metric : ℕ → ℕ → Metric
metric bytes at_time = record { send = bytes; recv = 0; now = at_time; local_now = at_time }

abbrev metrics : List Metric
metrics = metric 1000 0 ∷ metric 1500 100 ∷ metric 3000 1000 ∷ metric 500 2000 ∷ []

-- The second comes too early, and the counter that was reset in the last counts as no traffic.
samples :
    (watch whole metrics idle []).1
    ≡ record { ts = 1000; send_per_s = 2000; recv_per_s = 0 }
      ∷ record { ts = 2000; send_per_s = 1760; recv_per_s = 0 }
      ∷ []
unfolding watch sample nat_eq
samples = refl

watch_lem_example :
    ((watch whole metrics idle []).1 ≡ keep_last max_points (all_points whole metrics idle))
    × (length (watch whole metrics idle []).1
        ≡ min max_points (length (all_points whole metrics idle)))
watch_lem_example = watch_lem whole metrics idle

abbrev orgs : List OrganizationWithProjects
orgs =
    record {
      org = record { resource_id = codes "o"; display_name = codes "Org"; kind = codes "PERSONAL" };
      projects = record { resource_id = codes "p"; display_name = codes "Project" } ∷ [];
    }
    ∷ []

abbrev chosen : SelectedContext
chosen = record {
  org_id = codes "o";
  org_name = codes "Org";
  project_id = codes "p";
  project_name = codes "Project";
}

selects_personal :
    preselect orgs none (record { selected_org = none; selected_project = none })
    ≡ record { selected_org = some (codes "o"); selected_project = some (codes "p") }
unfolding preselect nat_eq text_eq
selects_personal = refl

saves : save_context orgs (codes "o") (codes "p") ≡ ok chosen
unfolding save_context nat_eq text_eq
saves = refl

save_context-still_valid_example :
    (still_valid orgs (some chosen) ≡ some chosen)
    × (codes "o" ≡ codes "o")
    × (codes "p" ≡ codes "p")
save_context-still_valid_example =
    save_context-still_valid orgs (codes "o") (codes "p") chosen saves

abbrev tunnel : TunnelSummary
tunnel = record {
  id = codes "t";
  label = codes "Web";
  endpoint = codes "http://localhost:80";
  hostnames = [];
  enabled = true;
  accepted = false;
  programmed = false;
}

abbrev empty : AppState
empty = record { tunnel_cache = []; tunnel_refreshes = 0; heartbeat = [] }

abbrev actions : List Action
actions = create_tunnel (codes "p") (ok tunnel) ∷ save_tunnel (err "404") ∷ []

find_tunnel-act_all_example :
    find_tunnel (codes "t") (act_all actions empty).tunnel_cache
    ≡ shown_all actions (codes "t") (find_tunnel (codes "t") [])
find_tunnel-act_all_example = find_tunnel-act_all actions empty (codes "t")

finds : shown_all actions (codes "t") none ≡ some tunnel
unfolding nat_eq text_eq
finds = refl
