-- ===== src/Protocol/StaleResponses/Window.antt =====
-- The tracker holds exactly the observations of the last window, and fires once.
use brain.Prelude.{
  ℕ, ◌≤◌, ◌≡◌, refl, ap, ◌∙◌, inl, inr, Bool, false, ◌&&◌, List, [], ◌∷◌, ◌++◌, arith,
  if◌then◌else◌, Bool-cases,
}
use brain.Prelude.Int.{ℤ, pos, ◌-ℤ◌, leb_ℤ}
use brain.Protocol.StaleResponses.{StaleResponseTracker, new_tracker, fresh, fire, seen, observe}

-- The times of the observations, newest first.
pub observe_all : StaleResponseTracker → List ℕ → StaleResponseTracker
observe_all t [] = t
observe_all t (now ∷ h) = observe (observe_all t h) now

abbrev pub oldest_first : List ℕ → List ℕ
oldest_first [] = []
oldest_first (e ∷ h) = oldest_first h ++ e ∷ []

-- No time of the history is after this one, and the clock never went back.
abbrev pub IsPast : ℕ → List ℕ → Type 0
IsPast now [] = Unit
IsPast now (e ∷ h) = (e ≤ now) × IsPast e h

fresh-append :
    (w : ℤ) (now : ℕ) (xs ys : List ℕ) → fresh w now (xs ++ ys) ≡ fresh w now xs ++ fresh w now ys
unfolding fresh
fresh-append w now [] ys = refl
fresh-append w now (x ∷ xs) ys = elim (Bool-cases (leb_ℤ (pos now -ℤ w) (pos x))) [
  | inl new ↦ rw new (ap (λ zs. x ∷ zs) (fresh-append w now xs ys))
  | inr old ↦ rw old (fresh-append w now xs ys)
]

still_old :
    (w : ℤ) (before now x : ℕ)
    → before ≤ now
    → leb_ℤ (pos before -ℤ w) (pos x) ≡ false
    → leb_ℤ (pos now -ℤ w) (pos x) ≡ false
still_old w before now x p old = ground arith

fresh-fresh :
    (w : ℤ) (before now : ℕ) (xs : List ℕ)
    → before ≤ now
    → fresh w now (fresh w before xs) ≡ fresh w now xs
unfolding fresh
fresh-fresh w before now [] p = refl
fresh-fresh w before now (x ∷ xs) p = elim (Bool-cases (leb_ℤ (pos before -ℤ w) (pos x))) [
  | inl new ↦ rw (new, fresh-fresh w before now xs p) refl
  | inr old ↦ rw (old, still_old w before now x p old) (fresh-fresh w before now xs p)
]

fire_kept : (t : StaleResponseTracker) → ((fire t).events ≡ t.events) × ((fire t).window ≡ t.window)
fire_kept t = ground arith

observe_all_window : (t : StaleResponseTracker) (h : List ℕ) → (observe_all t h).window ≡ t.window
unfolding observe_all observe
observe_all_window t [] = refl
observe_all_window t (now ∷ h) = (fire_kept (seen (observe_all t h) now)).1 ∙ observe_all_window t h

observe-events :
    (t : StaleResponseTracker) (now : ℕ)
    → (observe t now).events ≡ fresh t.window now t.events ++ now ∷ []
unfolding observe
observe-events t now = (fire_kept (seen t now)).0

IsPast-weaken : (x now : ℕ) (h : List ℕ) → x ≤ now → IsPast x h → IsPast now h
IsPast-weaken x now [] p q = tt
IsPast-weaken x now (e ∷ h) p q = (omega (arith, q.0), q.1)

fresh-observe_all :
    (t : StaleResponseTracker) (now : ℕ) (h : List ℕ)
    → t.events ≡ []
    → IsPast now h
    → fresh t.window now (observe_all t h).events ≡ fresh t.window now (oldest_first h)
unfolding observe_all
fresh-observe_all t now [] e p = rw e refl
fresh-observe_all t now (x ∷ h) e p =
    rw
      (
        observe-events (observe_all t h) x,
        observe_all_window t h,
        fresh-append t.window now (fresh t.window x (observe_all t h).events) (x ∷ []),
        fresh-fresh t.window x now (observe_all t h).events p.0,
        fresh-observe_all t now h e (IsPast-weaken x now h p.0 p.1),
        fresh-append t.window now (oldest_first h) (x ∷ []),
      )
      refl

-- From a tracker without events, as long as the clock never goes back, the tracker holds after each
-- observation exactly the observations of the window that ends with it: those that earlier calls
-- dropped are those that the last one would drop.
pub events_are_recent :
    (t : StaleResponseTracker) (now : ℕ) (h : List ℕ)
    → t.events ≡ []
    → IsPast now h
    → (observe_all t (now ∷ h)).events ≡ fresh t.window now (oldest_first h) ++ now ∷ []
unfolding observe_all
events_are_recent t now h e p =
    rw (observe-events (observe_all t h) now, observe_all_window t h, fresh-observe_all t now h e p)
      refl

-- What the tracker has told its callback.
abbrev pub HasFired : StaleResponseTracker → Type 0
HasFired t = t.calls ≡ (if t.fired && t.has_callback then 1 else 0)

observe-HasFired : (t : StaleResponseTracker) (now : ℕ) → HasFired t → HasFired (observe t now)
unfolding observe
observe-HasFired t now h = ground arith

-- A new tracker that is never reset calls its callback at most once, whatever it observes: once if
-- it has fired and has a callback, and never else.
pub fires_once :
    (window threshold : ℤ) (has_callback : Bool) (h : List ℕ)
    → HasFired (observe_all (new_tracker window threshold has_callback) h)
unfolding observe_all new_tracker
fires_once window threshold has_callback [] = refl
fires_once window threshold has_callback (now ∷ h) =
    observe-HasFired (observe_all (new_tracker window threshold has_callback) h) now
      (fires_once window threshold has_callback h)
