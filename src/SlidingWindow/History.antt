-- ===== src/SlidingWindow/History.antt =====
-- Rounds of eviction between the calls of a limiter.
use wispurr.Base.{
  ℕ, ◌+◌, ◌≤◌, ◌≡◌, refl, ap, ◌∙◌, Bool, true, false, not, Option, none, some, String, arith, ltb,
  leb, Bool-cases, inl, inr, if_intro,
}
use wispurr.Base.Int.{pos, leb_ℤ}
use wispurr.Base.Map.{filter, string_key}
use wispurr.Base.Expiring.{Alike, Alike-later, Alike-insert, Alike-retain}
use wispurr.SlidingWindow.{
  WindowEntry, SlidingWindow, open_window, count_call, allow_entry, allow_on, evict_on,
}

-- An entry whose window has not ended.
abbrev live : ℕ → WindowEntry → ℕ → Bool
live window e t = not (leb (e.start + window) t)

pub record SameLimiter (now : ℕ) (v w : SlidingWindow) : Type 0 where
  pub limits : v.limit ≡ w.limit
  pub windows : v.window ≡ w.window
  pub entries_alike : Alike (live v.window) now v.entries w.entries

module _ (v w : SlidingWindow) (now later : ℕ) where
  pub SameLimiter-later : now ≤ later → SameLimiter now v w → SameLimiter later v w
  SameLimiter-later h s = record {
    limits = s.limits;
    windows = s.windows;
    entries_alike = Alike-later (live v.window) now later v.entries w.entries h s.entries_alike;
  }

  pub evict_on-SameLimiter :
      (idle : ℕ)
      → v.window ≤ idle
      → now ≤ later
      → SameLimiter now v w
      → SameLimiter later (evict_on v idle later) w
  unfolding evict_on
  evict_on-SameLimiter idle k h s = record {
    limits = s.limits;
    windows = s.windows;
    entries_alike =
        Alike-retain (live v.window) later v.entries w.entries
          (λ e. not (ltb (e.start + idle) later)) (λ e t g d. ground (arith, k, g, d))
          (Alike-later (live v.window) now later v.entries w.entries h s.entries_alike);
  }

module _ (v w : SlidingWindow) (key : String) (now : ℕ) (s : SameLimiter now v w) where
  -- The call of both that finds the same live entry, or none.
  Both : SlidingWindow × Bool → SlidingWindow × Bool → Type 0
  Both (x, b) (y, c) = (b ≡ c) × SameLimiter now x y

  opened : Both (open_window v key now) (open_window w key now)
  unfolding open_window Both
  opened = (
    refl,
    record {
      limits = s.limits;
      windows = s.windows;
      entries_alike = Alike-insert (live v.window) now v.entries w.entries key _ s.entries_alike;
    },
  )

  counted : (e : WindowEntry) → Both (count_call v key e) (count_call w key e)
  unfolding count_call Both
  counted e = (
    ap (leb_ℤ (pos (e.count + 1))) s.limits,
    record {
      limits = s.limits;
      windows = s.windows;
      entries_alike = Alike-insert (live v.window) now v.entries w.entries key _ s.entries_alike;
    },
  )

  entered :
      (o p : Option WindowEntry)
      → filter (λ e. live v.window e now) o ≡ filter (λ e. live v.window e now) p
      → Both (allow_entry v key now o) (allow_entry w key now p)
  unfolding allow_entry
  entered none none h = opened
  entered none (some f) h = elim (Bool-cases (leb (f.start + w.window) now)) [
    | inl k ↦ rw k opened
    | inr k ↦ absurd (ground (arith, h, k, s.windows))
  ]
  entered (some e) none h = elim (Bool-cases (leb (e.start + v.window) now)) [
    | inl k ↦ rw k opened
    | inr k ↦ absurd (ground (arith, h, k))
  ]
  entered (some e) (some f) h = elim (Bool-cases (leb (e.start + v.window) now)) [
    | inl k ↦ elim (Bool-cases (leb (f.start + w.window) now)) [
      | inl l ↦ rw (k, l) opened
      | inr l ↦ absurd (ground (arith, h, k, l, s.windows))
    ]
    | inr k ↦ elim (Bool-cases (leb (f.start + w.window) now)) [
      | inl l ↦ absurd (ground (arith, h, k, l, s.windows))
      | inr l ↦ let g : e ≡ f = ground (arith, h, k, l, s.windows) in rw (k, l, g) (counted f)
    ]
  ]

  pub allow_on-SameLimiter :
      ((allow_on v key now).1 ≡ (allow_on w key now).1)
      × SameLimiter now (allow_on v key now).0 (allow_on w key now).0
  unfolding allow_on Both
  allow_on-SameLimiter = elim (Bool-cases (leb_ℤ w.limit (pos 0))) [
    | inl k ↦
        let l : leb_ℤ v.limit (pos 0) ≡ true = ap (λ x. leb_ℤ x (pos 0)) s.limits ∙ k in
        rw (l, k) (refl, s)
    | inr k ↦
        let l : leb_ℤ v.limit (pos 0) ≡ false = ap (λ x. leb_ℤ x (pos 0)) s.limits ∙ k in
        rw (l, k) (entered (v.entries key) (w.entries key) (s.entries_alike key now (omega arith)))
  ]

entry_window :
    (w : SlidingWindow) (key : String) (now : ℕ) (o : Option WindowEntry)
    → (allow_entry w key now o).0.window ≡ w.window
unfolding allow_entry open_window count_call
entry_window w key now none = refl
entry_window w key now (some e) =
    if_intro (λ (q : SlidingWindow × Bool). q.0.window ≡ w.window) (leb (e.start + w.window) now) _
      _ (λ k. refl) (λ k. refl)

pub allow_on_window :
    (w : SlidingWindow) (key : String) (now : ℕ) → (allow_on w key now).0.window ≡ w.window
unfolding allow_on
allow_on_window w key now =
    if_intro (λ (q : SlidingWindow × Bool). q.0.window ≡ w.window) (leb_ℤ w.limit (pos 0)) _ _
      (λ e. refl) (λ e. entry_window w key now (w.entries key))
