-- ===== src/Handshake/Extensions/Bounds.antt =====
-- The slices of the parser, and the rounds of its loop.
use wispurr.Base.{◌≡◌, ◌≢◌, refl, ◌⊎◌, inl, inr}
use wispurr.Handshake.Extensions.{
  Extensions, Read, reads, malformed, overruns, Parsed, panics, out_of_fuel,
}

pub Read-cases :
    (r : Read) → (r ≡ malformed) ⊎ ((r ≡ overruns) ⊎ ((exts : Extensions) × (r ≡ reads exts)))
Read-cases malformed = inl refl
Read-cases overruns = inr (inl refl)
Read-cases (reads exts) = inr (inr (exts, refl))

-- Neither of the two ends that are none of the parser's.
abbrev pub Ends : Parsed → Type 0
Ends r = (r ≢ panics) × (r ≢ out_of_fuel)
