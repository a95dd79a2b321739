-- ===== src/Ui/Bandwidth.antt =====
-- The sampler of ui/src/views/tunnel_bandwidth.rs: bytes a second between the samples that are plotted,
-- smoothed, of which the last 120 are kept. The floating-point operations are parameters; times are
-- milliseconds.
use datum_connect.Base.{
  ℕ, ◌-◌, min, ◌≡◌, refl, sym, ap, ◌∙◌, inl, inr, Bool, Option, none, some, List, [], ◌∷◌, ◌++◌,
  arith, if◌then◌else◌, option_eq, nat_eq, text_eq, ltb, length, skip, Option-cases, length-append,
}
use mathlib.Core.List.{append-nil, append_assoc}
use datum_connect.Base.Slices.{skip_add, length-skip, skip-append}

pub record Float : Type 1 where
  pub F64 : Type 0
  pub zero : F64
  pub is_zero : F64 → Bool
  -- `bytes as f64 / dt.as_secs_f64().max(0.001)`, of bytes and milliseconds
  pub per_second : ℕ → ℕ → F64
  -- `ema * (1.0 - alpha) + raw * alpha`
  pub blend : F64 → F64 → F64
  -- `ema.max(0.0) as u64`
  pub to_u64 : F64 → ℕ

pub record RatePoint : Type 0 where
  pub ts : ℕ
  pub send_per_s : ℕ
  pub recv_per_s : ℕ

-- What `metrics_sub.recv()` yields, with the readings of the two clocks at that time
pub record Metric : Type 0 where
  pub send : ℕ
  pub recv : ℕ
  pub now : ℕ
  pub local_now : ℕ

abbrev pub max_points : ℕ
max_points = 120

-- `next.drain(0..next.len() - 120)` if there are more
abbrev pub drained : List RatePoint → List RatePoint
drained next = if ltb max_points (length next) then skip (length next - max_points) next else next

module _ (F : Float) where
  pub record Sampler : Type 0 where
    pub last_sample_at : ℕ
    -- `last_sample_send` and `last_sample_recv`, which are set together
    pub last_sample : Option (ℕ × ℕ)
    pub ema_send : F.F64
    pub ema_recv : F.F64

  abbrev ema : F.F64 → F.F64 → F.F64
  ema old raw = if F.is_zero old then raw else F.blend old raw

  abbrev plotted : Sampler → Metric → ℕ → ℕ → Sampler × Option RatePoint
  plotted s m prev_send prev_recv =
      let dt = m.now - s.last_sample_at in
      let ema_send = ema s.ema_send (F.per_second (m.send - prev_send) dt) in
      let ema_recv = ema s.ema_recv (F.per_second (m.recv - prev_recv) dt) in
      (
        record {
          last_sample_at = m.now;
          last_sample = some (m.send, m.recv);
          ema_send = ema_send;
          ema_recv = ema_recv;
        },
        some (record {
          ts = m.local_now;
          send_per_s = F.to_u64 ema_send;
          recv_per_s = F.to_u64 ema_recv;
        }),
      )

  -- One turn of the loop: the first metric is the baseline, and one that comes less than 650 ms after
  -- the last sample is left out.
  unfoldable pub sample : Sampler → Metric → Sampler × Option RatePoint
  sample s m = elim s.last_sample [
    | none ↦ (record s { last_sample = some (m.send, m.recv); last_sample_at = m.now }, none)
    | some (prev_send, prev_recv) ↦
        if ltb (m.now - s.last_sample_at) 650 then (s, none) else plotted s m prev_send prev_recv
  ]

  abbrev add_point : List RatePoint → Option RatePoint → List RatePoint
  add_point points none = points
  add_point points (some p) = drained (points ++ p ∷ [])

  unfoldable pub watch : List Metric → Sampler → List RatePoint → Sampler × List RatePoint
  watch [] s points = (s, points)
  watch (m ∷ ms) s points = let (s', p) = sample s m in watch ms s' (add_point points p)

  -- Every point that the metrics give
  unfoldable pub all_points : List Metric → Sampler → List RatePoint
  all_points [] s = []
  all_points (m ∷ ms) s =
      let (s', p) = sample s m in
      let rest = all_points ms s' in elim p [ none ↦ rest | some q ↦ q ∷ rest ]

-- The last `n` of a list
abbrev pub keep_last : ℕ → List RatePoint → List RatePoint
keep_last n xs = skip (length xs - n) xs

drained-keep_last : (xs : List RatePoint) → drained xs ≡ keep_last max_points xs
drained-keep_last xs = ground (arith, short xs)
  where
    short : (ys : List RatePoint) → skip 0 ys ≡ ys
    short ys = refl

keep_last-append :
    (n : ℕ) (xs ys : List RatePoint) → keep_last n (keep_last n xs ++ ys) ≡ keep_last n (xs ++ ys)
keep_last-append n xs ys =
    ap (keep_last n) (sym (skip-append (length xs - n) xs ys (omega arith)))
    ∙ skip_add (length xs - n) (length (skip (length xs - n) (xs ++ ys)) - n) (xs ++ ys)
    ∙ ap (λ m. skip m (xs ++ ys))
        (omega (arith, length-skip (length xs - n) (xs ++ ys), length-append xs ys))

module _ (F : Float) where
  watch-keep_last :
      (ms : List Metric) (s : Sampler F) (xs : List RatePoint)
      → (watch F ms s (keep_last max_points xs)).1 ≡ keep_last max_points (xs ++ all_points F ms s)
  unfolding watch all_points
  watch-keep_last [] s xs = ap (keep_last max_points) (sym (append-nil xs))
  watch-keep_last (m ∷ ms) s xs = elim (Option-cases (sample F s m).1) [
    | inl e ↦ ground (arith, watch-keep_last ms (sample F s m).0 xs)
    | inr (p, e) ↦
        let next =
          drained-keep_last (keep_last max_points xs ++ p ∷ [])
          ∙ keep_last-append max_points xs (p ∷ []) in
        ground (
          arith,
          watch-keep_last ms (sample F s m).0 (xs ++ p ∷ []),
          next,
          append_assoc xs (p ∷ []) (all_points F ms (sample F s m).0),
        )
  ]

  -- What the chart shows is the last 120 of the points that the metrics give, and all of them as long
  -- as there are no more.
  pub watch_lem :
      (ms : List Metric) (s : Sampler F)
      → ((watch F ms s []).1 ≡ keep_last max_points (all_points F ms s))
        × (length (watch F ms s []).1 ≡ min max_points (length (all_points F ms s)))
  watch_lem ms s = (
    watch-keep_last ms s [],
    ground (
      arith,
      watch-keep_last ms s [],
      length-skip (length (all_points F ms s) - max_points) (all_points F ms s),
    ),
  )
