-- ===== src/Gateway/Metrics/Samples.antt =====
-- No sample is printed twice.
use datum_connect.Base.{
  Bool, true, not, ◌&&◌, List, [], ◌∷◌, ◌≡◌, refl, option_eq, nat_eq, text_eq, ◌==◌, any,
}
use datum_connect.Text.{Text, codes}
use datum_connect.Gateway.{GatewayMetrics}
use datum_connect.Gateway.Metrics.Render.{
  EndpointMetrics, Item, lit, arg, gateway_items, endpoint_items,
}

-- The names, with their labels, that stand before the values.
abbrev pub sample_names : List Item → List Text
sample_names [] = []
sample_names (lit s ∷ []) = []
sample_names (lit s ∷ arg n ∷ rest) = codes s ∷ sample_names rest
sample_names (lit s ∷ lit t ∷ rest) = sample_names (lit t ∷ rest)
sample_names (arg n ∷ rest) = sample_names rest

abbrev pub distinct : List Text → Bool
distinct [] = true
distinct (x ∷ xs) = not (any (λ y. x == y) xs) && distinct xs

pub render-distinct :
    (e : EndpointMetrics) (m : GatewayMetrics)
    → distinct (sample_names (gateway_items m (endpoint_items e))) ≡ true
unfolding gateway_items endpoint_items nat_eq text_eq
render-distinct e m = refl
