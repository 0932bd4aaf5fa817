-- ===== src/Startup/Counts.antt =====
-- How often a component is started and released, by the calls that are made.
use multi_hardware.Base.{
  ℕ, suc, ◌+◌, ◌≡◌, refl, Bool, true, false, List, [], ◌∷◌, ◌++◌, map, arith, ◌==◌, nat_eq,
  if◌then◌else◌,
}
use multi_hardware.Startup.Defs.{
  StartupEffect, init_source, init_sink, release_source, release_sink, Outside, Startup, present,
  emit,
}

-- The calls of a component's own life: source or sink, started or released.
pub data Kind : Type 0 where
  source_start source_release sink_start sink_release : Kind

abbrev pub is_call : Kind → ℕ → StartupEffect → Bool
is_call source_start t (init_source u v) = u == t
is_call source_release t (release_source u) = u == t
is_call sink_start t (init_sink u v) = u == t
is_call sink_release t (release_sink u) = u == t
is_call _ t _ = false

-- How often a call is made for a type of hardware.
abbrev pub count_calls : Kind → ℕ → List StartupEffect → ℕ
count_calls k t [] = 0
count_calls k t (x ∷ xs) = if is_call k t x then suc (count_calls k t xs) else count_calls k t xs

abbrev pub count_type : ℕ → List ℕ → ℕ
count_type t [] = 0
count_type t (u ∷ us) = if u == t then suc (count_type t us) else count_type t us

pub count-append :
    (k : Kind) (t : ℕ) (xs ys : List StartupEffect)
    → count_calls k t (xs ++ ys) ≡ count_calls k t xs + count_calls k t ys
count-append k t [] ys = omega arith
count-append k t (x ∷ xs) ys = ground (arith, count-append k t xs ys)

-- The calls that a loop over the types makes: one for each, or none of the kind.
pub count-map :
    (k : Kind) (t : ℕ) (f : ℕ → StartupEffect) (us : List ℕ)
    → ((u : ℕ) → is_call k t (f u) ≡ (u == t))
    → count_calls k t (map f us) ≡ count_type t us
count-map k t f [] h = refl
count-map k t f (u ∷ us) h = ground (arith, h u, count-map k t f us h)

-- The calls that are of no kind.
abbrev pub is_other : StartupEffect → Bool
is_other (init_source u v) = false
is_other (release_source u) = false
is_other (init_sink u v) = false
is_other (release_sink u) = false
is_other _ = true

pub is_call-is_other :
    (k : Kind) (t : ℕ) (x : StartupEffect) → is_other x ≡ true → is_call k t x ≡ false
is_call-is_other source_start t x h = ground arith
is_call-is_other source_release t x h = ground arith
is_call-is_other sink_start t x h = ground arith
is_call-is_other sink_release t x h = ground arith

pub count-none :
    (k : Kind) (t : ℕ) (f : ℕ → StartupEffect) (us : List ℕ)
    → ((u : ℕ) → is_call k t (f u) ≡ false)
    → count_calls k t (map f us) ≡ 0
count-none k t f [] h = refl
count-none k t f (u ∷ us) h = ground (arith, h u, count-none k t f us h)

pub count-other :
    (k : Kind) (t : ℕ) (f : ℕ → StartupEffect) (us : List ℕ)
    → ((u : ℕ) → is_other (f u) ≡ true)
    → count_calls k t (map f us) ≡ 0
count-other k t f [] h = refl
count-other k t f (u ∷ us) h =
    ground (arith, h u, is_call-is_other k t (f u), count-other k t f us h)

-- Another call at the end.
pub count-last :
    (k : Kind) (t : ℕ) (xs : List StartupEffect) (x : StartupEffect)
    → count_calls k t (xs ++ x ∷ [])
      ≡ (if is_call k t x then suc (count_calls k t xs) else count_calls k t xs)
count-last k t [] x = refl
count-last k t (y ∷ ys) x = ground (arith, count-last k t ys x)

-- The calls that start, and those that release, what is in the maps.
abbrev pub starts : Outside → Kind → ℕ → Startup → ℕ
starts out k t s =
    count_calls k t (map (λ u. init_source u (out.source_version u)) (present s.comp_source))
    + count_calls k t (map (λ u. init_sink u (out.sink_version u)) (present s.comp_sink))

abbrev pub releases : Kind → ℕ → Startup → ℕ
releases k t s =
    count_calls k t (map (λ u. release_source u) (present s.comp_source))
    + count_calls k t (map (λ u. release_sink u) (present s.comp_sink))

-- An operation that makes no call of a kind and keeps the handlers.
abbrev pub Keeps : Kind → ℕ → Startup → Startup → Type 0
Keeps k t s s' =
    (count_calls k t s'.effects ≡ count_calls k t s.effects)
    × (s'.comp_source ≡ s.comp_source)
    × (s'.comp_sink ≡ s.comp_sink)

pub emit-Keeps :
    (k : Kind) (t : ℕ) (f : ℕ → StartupEffect) (us : List ℕ) (s : Startup)
    → ((u : ℕ) → is_other (f u) ≡ true)
    → Keeps k t s (emit (map f us) s)
emit-Keeps k t f us s h =
    (ground (arith, count-append k t s.effects (map f us), count-other k t f us h), refl, refl)

pub emit_one-Keeps :
    (k : Kind) (t : ℕ) (x : StartupEffect) (s : Startup)
    → is_other x ≡ true
    → Keeps k t s (emit (x ∷ []) s)
emit_one-Keeps k t x s h =
    (ground (arith, count-last k t s.effects x, is_call-is_other k t x h), refl, refl)
