-- ===== src/Realtime/Publisher/Sweep.antt =====
-- realtime/_publisher.py: what `_sweep` forgets, and that it changes no answer of the breaker.
use dj_hyperview.Prelude.{
  ℕ, ◌-◌, ◌≤◌, Bool, true, false, ◌&&◌, not, ◌≡◌, refl, sym, ◌∙◌, Option, none, some, [], ◌∷◌, ltb,
  leb, if◌then◌else◌, Text, text_eq, eq_of_text_eq, arith, leb→le, ap,
}
use dj_hyperview.Realtime.Publisher.{
  idle, Target, expire, Targets, get, is_open, opened_until, is_forgotten, sweep,
}
use dj_hyperview.Realtime.Publisher.Breaker.{expire-open_until}

-- No key twice, as in a dictionary.
abbrev pub IsDict : Targets → Type 0
IsDict [] = Unit {0}
IsDict ((c, t) ∷ targets) = (get c targets ≡ none) × IsDict targets

abbrev swept : ℕ → Option Target → Option Target
swept now none = none
swept now (some t) = if is_forgotten (expire t now) now then none else some (expire t now)

sweep-get :
    (config : Text) (now : ℕ) (targets : Targets)
    → IsDict targets
    → get config (sweep now targets) ≡ swept now (get config targets)
unfolding get sweep
sweep-get config now [] h = refl
sweep-get config now ((c, t) ∷ targets) h =
    by_forgotten (is_forgotten (expire t now) now) (text_eq c config) refl refl
      (sweep-get config now targets h.1)
  where
    absent : text_eq c config ≡ true → get config targets ≡ none
    absent e = rw (← eq_of_text_eq c config e) h.0

    by_forgotten :
        (forgotten same : Bool)
        → is_forgotten (expire t now) now ≡ forgotten
        → text_eq c config ≡ same
        → get config (sweep now targets) ≡ swept now (get config targets)
        → get config
            (if forgotten then sweep now targets else (c, expire t now) ∷ sweep now targets)
          ≡ swept now (if same then some t else get config targets)
    by_forgotten true true f e more = rw f (more ∙ (rw (absent e) refl))
    by_forgotten true false f e more = more
    by_forgotten false true f e more = rw (e, f) refl
    by_forgotten false false f e more = rw e more

forgotten-over : (u : Target) (now : ℕ) → is_forgotten u now ≡ true → u.open_until ≤ now
unfolding is_forgotten
forgotten-over u now f = by_test u.connected (leb u.open_until now) refl f
  where
    by_test :
        (c over : Bool)
        → leb u.open_until now ≡ over
        → not c && (over && ltb idle (now - u.used)) ≡ true
        → u.open_until ≤ now
    by_test true over e h = absurd (cc)
    by_test false false e h = absurd (cc)
    by_test false true e h = leb→le u.open_until now e

-- A sweep changes no answer of the breaker, at the time of the sweep or later: no configuration whose
-- breaker is open is forgotten.
pub is_open-sweep :
    (config : Text) (now later : ℕ) (targets : Targets)
    → IsDict targets
    → now ≤ later
    → is_open config later (sweep now targets) ≡ is_open config later targets
unfolding is_open
is_open-sweep config now later targets h le =
    ap (opened_until later) (sweep-get config now targets h) ∙ by_entry (get config targets)
  where
    closed : (t : Target) → is_forgotten (expire t now) now ≡ true → ltb later t.open_until ≡ false
    closed t f =
        let over = forgotten-over (expire t now) now f in
        ground (arith, over, expire-open_until t now, le)

    by_forgotten :
        (t : Target) (b : Bool)
        → is_forgotten (expire t now) now ≡ b
        → opened_until later (if b then none else some (expire t now)) ≡ ltb later t.open_until
    by_forgotten t true f = sym (closed t f)
    by_forgotten t false f = ap (ltb later) (expire-open_until t now)

    by_entry : (o : Option Target) → opened_until later (swept now o) ≡ opened_until later o
    by_entry none = refl
    by_entry (some t) = by_forgotten t (is_forgotten (expire t now) now) refl
