-- ===== src/Wake/Probe.antt =====
-- src/util/cached_probe.hpp: a probe whose answer is kept for a time. The probe is a parameter: its answer at each reading of the clock.
use snapback.Prelude.{◌≡◌, refl, Bool, List, [], ◌∷◌, Option, none, some, if◌then◌else◌, arith}
use snapback.Prelude.Int.{ℤ, ◌-ℤ◌, ◌<ℤ◌, leb_ℤ}

pub record CachedProbe : Type 0 where
  pub cached : Option Bool
  pub probed_at_ms : ℤ

module _ (probe : ℤ → Bool) (ttl_ms : ℤ) where
  unfoldable pub fresh_value : ℤ → CachedProbe × Bool
  fresh_value now = (record { cached = some (probe now); probed_at_ms = now }, probe now)

  unfoldable pub value : CachedProbe → ℤ → CachedProbe × Bool
  value p now = elim p.cached [
    | none ↦ fresh_value now
    | some b ↦ if leb_ℤ ttl_ms (now -ℤ p.probed_at_ms) then fresh_value now else (p, b)
  ]

  unfoldable pub values : CachedProbe → List ℤ → CachedProbe × List Bool
  values p [] = (p, [])
  values p (now ∷ nows) = let (q, b) = value p now in let (r, bs) = values q nows in (r, b ∷ bs)

  unfoldable pub invalidate : CachedProbe → CachedProbe
  invalidate p = record p { cached = none }

  -- All of a list of readings are within the time to live of the first.
  unfoldable pub AllWithin : ℤ → List ℤ → Type 0
  AllWithin from [] = Unit
  AllWithin from (now ∷ nows) = (now -ℤ from <ℤ ttl_ms) × AllWithin from nows

  unfoldable pub repeats : Bool → List ℤ → List Bool
  repeats b [] = []
  repeats b (now ∷ nows) = b ∷ repeats b nows

  values_kept :
      (b : Bool) (from : ℤ) (nows : List ℤ)
      → AllWithin from nows
      → values (record { cached = some b; probed_at_ms = from }) nows
        ≡ (record { cached = some b; probed_at_ms = from }, repeats b nows)
  unfolding values value AllWithin repeats
  values_kept b from [] h = refl
  values_kept b from (now ∷ nows) h = ground (arith, h.0, values_kept b from nows h.1)

  -- Behind an invalidation, or at the start, one probe answers for all the polls within its time to live.
  pub values_of_one_probe :
      (p : CachedProbe) (now : ℤ) (nows : List ℤ)
      → AllWithin now nows
      → values (invalidate p) (now ∷ nows) ≡ (
        record { cached = some (probe now); probed_at_ms = now },
        repeats (probe now) (now ∷ nows),
      )
  unfolding values value invalidate fresh_value repeats
  values_of_one_probe p now nows h = ground (arith, values_kept (probe now) now nows h)
