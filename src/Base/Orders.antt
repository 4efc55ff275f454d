-- ===== src/Base/Orders.antt =====
-- Three-way comparisons: what `std::sort` wants of them, and comparing pairs and lists by their parts.
use Prim.Native.Nat.{compare, Ordering}
use mathlib.Core.Path.{◌≡◌, refl, sym, ap, ◌∙◌}
use mathlib.Core.List.{List, [], ◌∷◌}
use mathlib.Core.Logic.{◌⊎◌, inl, inr}
use native.Mathlib.Omega.{arith}
pub use Prim.Native.Nat.{compare, Ordering}

abbrev pub flip : Ordering → Ordering
flip Ordering.lt = Ordering.gt
flip Ordering.eq = Ordering.eq
flip Ordering.gt = Ordering.lt

-- The first difference decides.
infixr 30 ◌then◌
abbrev pub ◌then◌ : Ordering → Ordering → Ordering
Ordering.lt then later = Ordering.lt
Ordering.eq then later = later
Ordering.gt then later = Ordering.gt

-- A total order of classes: what compares as equal compares alike with everything.
pub record Orders {A : Type 0} (cmp : A → A → Ordering) : Type 0 where
  pub flips : (a b : A) → cmp b a ≡ flip (cmp a b)
  pub alike : (a b c : A) → cmp a b ≡ Ordering.eq → cmp a c ≡ cmp b c
  pub chains : (a b c : A) → cmp a b ≡ Ordering.lt → cmp b c ≡ Ordering.lt → cmp a c ≡ Ordering.lt

pub compare-Orders : Orders compare
compare-Orders = record {
  flips = λ a b. ground arith;
  alike = λ a b c h. ground arith;
  chains = λ a b c h h'. ground arith;
}

pub flip-then : (x y : Ordering) → flip (x then y) ≡ flip x then flip y
flip-then Ordering.lt y = refl
flip-then Ordering.eq y = refl
flip-then Ordering.gt y = refl

pub then_assoc : (x y z : Ordering) → ((x then y) then z) ≡ (x then (y then z))
then_assoc Ordering.lt y z = refl
then_assoc Ordering.eq y z = refl
then_assoc Ordering.gt y z = refl

pub then-eq : (x y : Ordering) → (x then y) ≡ Ordering.eq → (x ≡ Ordering.eq) × (y ≡ Ordering.eq)
then-eq Ordering.lt y h = cc
then-eq Ordering.eq y h = (refl, h)
then-eq Ordering.gt y h = cc

then-lt :
    (x y : Ordering)
    → (x then y) ≡ Ordering.lt
    → (x ≡ Ordering.lt) ⊎ ((x ≡ Ordering.eq) × (y ≡ Ordering.lt))
then-lt Ordering.lt y h = inl refl
then-lt Ordering.eq y h = inr (refl, h)
then-lt Ordering.gt y h = cc

-- Comparing the values of a function.
pub pulled_Orders :
    {A B : Type 0} (f : B → A) {cmp : A → A → Ordering}
    → Orders cmp
    → Orders (λ x y. cmp (f x) (f y))
pulled_Orders f o = record {
  flips = λ a b. o.flips (f a) (f b);
  alike = λ a b c h. o.alike (f a) (f b) (f c) h;
  chains = λ a b c h h'. o.chains (f a) (f b) (f c) h h';
}

module _ {A : Type 0} {cmp : A → A → Ordering} (o : Orders cmp) where
  -- A class on the right.
  alike_right : (a b c : A) → cmp b c ≡ Ordering.eq → cmp a b ≡ cmp a c
  alike_right a b c h = o.flips b a ∙ ap flip (o.alike b c a h) ∙ sym (o.flips c a)

  -- A first part, and comparisons of what is behind it.
  flips-then : (a b : A) (x y : Ordering) → y ≡ flip x → (cmp b a then y) ≡ flip (cmp a b then x)
  flips-then a b x y h =
      ap (λ z. z then y) (o.flips a b)
      ∙ ap (λ z. flip (cmp a b) then z) h
      ∙ sym (flip-then (cmp a b) x)

  alike-then :
      (a b c : A) (x y z : Ordering)
      → (cmp a b then x) ≡ Ordering.eq
      → (x ≡ Ordering.eq → y ≡ z)
      → (cmp a c then y) ≡ (cmp b c then z)
  alike-then a b c x y z h later =
      let (e, e') = then-eq (cmp a b) x h in
      ap (λ w. w then y) (o.alike a b c e) ∙ ap (λ w. cmp b c then w) (later e')

  chains-then :
      (a b c : A) (x y z : Ordering)
      → (cmp a b then x) ≡ Ordering.lt
      → (cmp b c then y) ≡ Ordering.lt
      → (x ≡ Ordering.lt → y ≡ Ordering.lt → z ≡ Ordering.lt)
      → (cmp a c then z) ≡ Ordering.lt
  chains-then a b c x y z h h' later = elim (then-lt (cmp a b) x h) [
    | inl less ↦ elim (then-lt (cmp b c) y h') [
      | inl less' ↦ ap (λ w. w then z) (o.chains a b c less less')
      | inr (same', _) ↦ ap (λ w. w then z) (sym (alike_right a b c same') ∙ less)
    ]
    | inr (same, less) ↦ elim (then-lt (cmp b c) y h') [
      | inl less' ↦ ap (λ w. w then z) (o.alike a b c same ∙ less')
      | inr (same', less') ↦ ap (λ w. w then z) (o.alike a b c same ∙ same') ∙ later less less'
    ]
  ]

module _ {A B : Type 0} {cmp : A → A → Ordering} {cmp' : B → B → Ordering} where
  pub then-Orders :
      Orders cmp → Orders cmp' → Orders {A = A × B} (λ p q. cmp p.0 q.0 then cmp' p.1 q.1)
  then-Orders o o' = record {
    flips = λ p q. flips-then o p.0 q.0 (cmp' p.1 q.1) (cmp' q.1 p.1) (o'.flips p.1 q.1);
    alike = λ p q r h.
        alike-then o p.0 q.0 r.0 (cmp' p.1 q.1) (cmp' p.1 r.1) (cmp' q.1 r.1) h
          (o'.alike p.1 q.1 r.1);
    chains = λ p q r h h'.
        chains-then o p.0 q.0 r.0 (cmp' p.1 q.1) (cmp' q.1 r.1) (cmp' p.1 r.1) h h'
          (o'.chains p.1 q.1 r.1);
  }

-- Lists by their first difference; a list is before its continuations.
module _ {A : Type 0} (cmp : A → A → Ordering) where
  unfoldable pub lexicographic : List A → List A → Ordering
  lexicographic [] [] = Ordering.eq
  lexicographic [] (y ∷ ys) = Ordering.lt
  lexicographic (x ∷ xs) [] = Ordering.gt
  lexicographic (x ∷ xs) (y ∷ ys) = cmp x y then lexicographic xs ys

  module _ (o : Orders cmp) where
    lexicographic_flips : (xs ys : List A) → lexicographic ys xs ≡ flip (lexicographic xs ys)
    unfolding lexicographic
    lexicographic_flips [] [] = refl
    lexicographic_flips [] (y ∷ ys) = refl
    lexicographic_flips (x ∷ xs) [] = refl
    lexicographic_flips (x ∷ xs) (y ∷ ys) = flips-then o x y _ _ (lexicographic_flips xs ys)

    lexicographic_alike :
        (xs ys zs : List A)
        → lexicographic xs ys ≡ Ordering.eq
        → lexicographic xs zs ≡ lexicographic ys zs
    unfolding lexicographic
    lexicographic_alike [] [] zs h = refl
    lexicographic_alike [] (y ∷ ys) zs h = cc
    lexicographic_alike (x ∷ xs) [] zs h = cc
    lexicographic_alike (x ∷ xs) (y ∷ ys) [] h = refl
    lexicographic_alike (x ∷ xs) (y ∷ ys) (z ∷ zs) h =
        alike-then o x y z (lexicographic xs ys) _ _ h (lexicographic_alike xs ys zs)

    lexicographic_chains :
        (xs ys zs : List A)
        → lexicographic xs ys ≡ Ordering.lt
        → lexicographic ys zs ≡ Ordering.lt
        → lexicographic xs zs ≡ Ordering.lt
    unfolding lexicographic
    lexicographic_chains [] [] zs h h' = h'
    lexicographic_chains [] (y ∷ ys) [] h h' = cc
    lexicographic_chains [] (y ∷ ys) (z ∷ zs) h h' = refl
    lexicographic_chains (x ∷ xs) [] zs h h' = cc
    lexicographic_chains (x ∷ xs) (y ∷ ys) [] h h' = cc
    lexicographic_chains (x ∷ xs) (y ∷ ys) (z ∷ zs) h h' =
        chains-then o x y z _ _ _ h h' (lexicographic_chains xs ys zs)

    pub lexicographic-Orders : Orders lexicographic
    lexicographic-Orders = record {
      flips = lexicographic_flips;
      alike = lexicographic_alike;
      chains = lexicographic_chains;
    }

pub carried_Orders :
    {A : Type 0} (f g : A → A → Ordering) → ((a b : A) → f a b ≡ g a b) → Orders g → Orders f
carried_Orders f g same o = record {
  flips = λ a b. same b a ∙ o.flips a b ∙ ap flip (sym (same a b));
  alike = λ a b c h. same a c ∙ o.alike a b c (sym (same a b) ∙ h) ∙ sym (same b c);
  chains = λ a b c h h'. same a c ∙ o.chains a b c (sym (same a b) ∙ h) (sym (same b c) ∙ h');
}
