-- ===== src/Prelude/Stateful.antt =====
-- Calls that change the world, a store or a disk: they return a result and the world that is left,
-- also where they fail.
use golance_db.Prelude.Fallible.{Result, ok, err, panic}
use mathlib.Core.Path.{◌≡◌, refl, ap, sym, subst}

abbrev pub Io : Type 0 → Type 0 → Type 0
Io W A = W → Result A × W

module _ {W : Type 0} where
  -- A value with no effect, and a call that only looks at the world
  abbrev pub done : {A : Type 0} → A → Io W A
  done a w = (ok a, w)

  abbrev pub lift : {A : Type 0} → Result A → Io W A
  lift r w = (r, w)

  abbrev pub look : {A : Type 0} → (W → Result A) → Io W A
  look f w = (f w, w)

  abbrev pub resume : {A B : Type 0} → (A → Io W B) → Result A × W → Result B × W
  resume next (ok a, w) = next a w
  resume next (err why, w) = (err why, w)
  resume next (panic, w) = (panic, w)

  infixl 5 ◌>>=◌ ◌>>◌
  abbrev pub ◌>>=◌ : {A B : Type 0} → Io W A → (A → Io W B) → Io W B
  ◌>>=◌ first next w = resume next (first w)

  abbrev pub ◌>>◌ : {A B : Type 0} → Io W A → Io W B → Io W B
  first >> last = first >>= λ _. last

  -- Inversion of a chain that succeeded
  resume_inv :
      {A B : Type 0} (next : A → Io W B) (p : Result A × W) {b : B} {w' : W}
      → resume next p ≡ (ok b, w')
      → (a : A) × (v : W) × (p ≡ (ok a, v)) × (next a v ≡ (ok b, w'))
  resume_inv next (ok a, v) e = (a, v, refl, e)
  resume_inv next (err why, v) e = cc
  resume_inv next (panic, v) e = cc

  pub ran :
      {A B : Type 0} (first : Io W A) (next : A → Io W B) (w : W) {b : B} {w' : W}
      → (first >>= next) w ≡ (ok b, w')
      → (a : A) × (v : W) × (first w ≡ (ok a, v)) × (next a v ≡ (ok b, w'))
  ran first next w e = resume_inv next (first w) e

  -- The same where the first call changes nothing
  pub ran_look :
      {A B : Type 0} (f : W → Result A) (next : A → Io W B) (w : W) {b : B} {w' : W}
      → (look f >>= next) w ≡ (ok b, w')
      → (a : A) × (f w ≡ ok a) × (next a w ≡ (ok b, w'))
  ran_look f next w {b} {w'} e =
      let (a, v, h, e') = resume_inv next (f w, w) e in
      (a, ap (λ p. p.0) h, subst (λ u. next a u ≡ (ok b, w')) (sym (ap (λ p. p.1) h)) e')

  -- What the later call leaves alone is, after both, as the first call left it.
  resume_frame :
      {A B X : Type 0} (view : W → X) (next : A → Io W B)
      → ((a : A) (v : W) → view (next a v).1 ≡ view v)
      → (p : Result A × W) → view (resume next p).1 ≡ view p.1
  resume_frame view next keep (ok a, v) = keep a v
  resume_frame view next keep (err why, v) = refl
  resume_frame view next keep (panic, v) = refl

  pub >>=-frame :
      {A B X : Type 0} (view : W → X) (first : Io W A) (next : A → Io W B)
      → ((a : A) (v : W) → view (next a v).1 ≡ view v)
      → (w : W) → view ((first >>= next) w).1 ≡ view (first w).1
  >>=-frame view first next keep w = resume_frame view next keep (first w)

-- A call of the world, where the state has a part of the caller's own
abbrev pub with_own : {W X A : Type 0} → X → Result A × W → Result A × (W × X)
with_own x (r, w) = (r, (w, x))

abbrev pub on_world : {W X A : Type 0} → Io W A → Io (W × X) A
on_world call (w, x) = with_own x (call w)

-- An update of the caller's own part
abbrev pub modify : {W X : Type 0} → (X → X) → Io (W × X) (Unit {0})
modify f (w, x) = (ok tt, (w, f x))

abbrev pub own : {W X : Type 0} → Io (W × X) X
own (w, x) = (ok x, (w, x))

with_own_inv :
    {W X A B : Type 0} (x : X) (p : Result A × W) (next : A → Io (W × X) B) {b : B} {s : W × X}
    → resume next (with_own x p) ≡ (ok b, s)
    → (a : A) × (v : W) × (p ≡ (ok a, v)) × (next a (v, x) ≡ (ok b, s))
with_own_inv x (ok a, v) next e = (a, v, refl, e)
with_own_inv x (err why, v) next e = cc
with_own_inv x (panic, v) next e = cc

pub ran_world :
    {W X A B : Type 0} (first : Io W A) (next : A → Io (W × X) B) (w : W) (x : X) {b : B}
    {s : W × X}
    → (on_world first >>= next) (w, x) ≡ (ok b, s)
    → (a : A) × (v : W) × (first w ≡ (ok a, v)) × (next a (v, x) ≡ (ok b, s))
ran_world first next w x e = with_own_inv x (first w) next e
