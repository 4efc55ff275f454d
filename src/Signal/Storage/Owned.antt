-- ===== src/Signal/Storage/Owned.antt =====
-- fb_signal/include/fb/event_queue.hpp, `event`: each event that holds a callable owns a live object.
use foo_bar.Base.{
  ℕ, ◌<◌, ◌≡◌, refl, sym, ap, subst, ◌∙◌, true, false, not, [], ◌∷◌, ◌++◌, some, length, get_elem?,
  set, if◌then◌else◌, ◌==◌, arith, ==_iff, Bool-cases, Option-cases, inl, inr, get_elem?-set,
  get_elem?-snoc, get_elem?-lt,
}
use foo_bar.Signal.Ring.{update}
use foo_bar.Signal.Storage.{
  Memory, Pool, is_alive, construct_object, use_object, destroy_object, no_callables, destroy_at,
  put_new, store, move_construct, move_assign, invoke,
}

alive_lt : (m : Memory) (o : ℕ) → is_alive m o ≡ true → o < length m.objects
unfolding is_alive
alive_lt m o e = elim (Option-cases (get_elem? m.objects o)) [
  | inl gone ↦ absurd (ground arith)
  | inr (b, found) ↦ get_elem?-lt m.objects o found
]

construct_object-is_alive :
    (m : Memory) (o : ℕ) → is_alive m o ≡ true → is_alive (construct_object m) o ≡ true
unfolding is_alive construct_object
construct_object-is_alive m o e =
    let lt = alive_lt m o e in
    let same : get_elem? (m.objects ++ true ∷ []) o ≡ get_elem? m.objects o =
      ground (arith, get_elem?-snoc m.objects true o) in
    rw (same, is_alive) e

construct_object-new : (m : Memory) → is_alive (construct_object m) (length m.objects) ≡ true
unfolding is_alive construct_object
construct_object-new m =
    let there : get_elem? (m.objects ++ true ∷ []) (length m.objects) ≡ some true =
      ground (arith, get_elem?-snoc m.objects true (length m.objects)) in
    rw (there, is_alive) refl

destroy_object_alive :
    (m : Memory) (o : ℕ)
    → is_alive m o ≡ true
    → destroy_object m o ≡ record m { objects = set m.objects o false }
unfolding destroy_object
destroy_object_alive m o e = rw (e, destroy_object) refl

destroy_object-is_alive :
    (m : Memory) (o q : ℕ)
    → is_alive m o ≡ true
    → is_alive m q ≡ true
    → (q == o) ≡ false
    → is_alive (destroy_object m o) q ≡ true
unfolding is_alive
destroy_object-is_alive m o q e live other =
    let write = get_elem?-set m.objects o q false (alive_lt m o e) in
    let same : get_elem? (set m.objects o false) q ≡ get_elem? m.objects q = ground arith in
    rw (destroy_object_alive m o e, same, is_alive) live

use_object_alive : (m : Memory) (o : ℕ) → is_alive m o ≡ true → use_object m o ≡ m
unfolding use_object
use_object_alive m o e = rw (e, use_object) refl

-- Each storage that has a callable holds an object inline that is alive and no other's, and nothing
-- undefined has happened.
pub record IsOwned (p : Pool) : Type 0 where
  no_faults : p.memory.faults ≡ 0
  alive : (i : ℕ) → (p.at i).has_destroy ≡ true → is_alive p.memory (p.at i).object ≡ true
  solid : (i : ℕ) → (p.at i).has_destroy ≡ true → (p.at i).is_zero ≡ false
  both : (i : ℕ) → (p.at i).has_invoke ≡ (p.at i).has_destroy
  inline : (i : ℕ) → (p.at i).is_heap ≡ false
  apart :
      (i j : ℕ)
      → (p.at i).has_destroy ≡ true
      → (p.at j).has_destroy ≡ true
      → (p.at i).object ≡ (p.at j).object
      → i ≡ j

destroy_at-IsOwned : (p : Pool) (i : ℕ) → IsOwned p → IsOwned (destroy_at p i)
unfolding destroy_at
destroy_at-IsOwned p i v = elim (Bool-cases (p.at i).has_destroy) [
  | inl e ↦
      let live = v.alive i e in
      rw (e, destroy_at, v.solid i e)
        (record {
          no_faults =
              ap (λ m. m.faults) (destroy_object_alive p.memory (p.at i).object live) ∙ v.no_faults;
          alive = λ j. elim (Bool-cases (j == i)) [
            | inl at ↦ rw at (λ off. absurd (ground arith))
            | inr other ↦ rw other (λ on.
                destroy_object-is_alive p.memory (p.at i).object (p.at j).object live (v.alive j on)
                  (differ j on e other))
          ];
          solid = λ j. elim (Bool-cases (j == i)) [
            | inl at ↦ rw at (λ off. absurd (ground arith))
            | inr other ↦ rw other (v.solid j)
          ];
          both = λ j. elim (Bool-cases (j == i)) [
            | inl at ↦ rw at refl
            | inr other ↦ rw other (v.both j)
          ];
          inline = λ j. elim (Bool-cases (j == i)) [
            | inl at ↦ rw at (v.inline i)
            | inr other ↦ rw other (v.inline j)
          ];
          apart = λ j l. elim (Bool-cases (j == i)) [
            | inl at ↦ rw at (λ off. absurd (ground arith))
            | inr other ↦ elim (Bool-cases (l == i)) [
              | inl at ↦ rw (other, at) (λ on off. absurd (ground arith))
              | inr other' ↦ rw (other, other') (v.apart j l)
            ]
          ];
        })
  | inr e ↦ rw (e, destroy_at) v
]
  where
    differ :
        (j : ℕ)
        → (p.at j).has_destroy ≡ true
        → (p.at i).has_destroy ≡ true
        → (j == i) ≡ false
        → ((p.at j).object == (p.at i).object) ≡ false
    differ j on e other = elim (Bool-cases ((p.at j).object == (p.at i).object)) [
      | inl same ↦ let equal = v.apart j i on e ((==_iff _ _).0 same) in absurd (ground arith)
      | inr differs ↦ differs
    ]

put_new-IsOwned : (p : Pool) (i : ℕ) → IsOwned p → IsOwned (put_new false p i)
unfolding put_new construct_object
put_new-IsOwned p i v = record {
  no_faults = v.no_faults;
  alive = λ j. elim (Bool-cases (j == i)) [
    | inl at ↦ rw at (λ on. construct_object-new p.memory)
    | inr other ↦ rw other (λ on. construct_object-is_alive p.memory (p.at j).object (v.alive j on))
  ];
  solid = λ j. elim (Bool-cases (j == i)) [
    | inl at ↦ rw at (λ on. refl)
    | inr other ↦ rw other (v.solid j)
  ];
  both = λ j. elim (Bool-cases (j == i)) [ inl at ↦ rw at refl | inr other ↦ rw other (v.both j) ];
  inline =
      λ j. elim (Bool-cases (j == i)) [ inl at ↦ rw at refl | inr other ↦ rw other (v.inline j) ];
  apart = λ j l. elim (Bool-cases (j == i)) [
    | inl at ↦ elim (Bool-cases (l == i)) [
      | inl at' ↦ rw (at, at') (λ on on' same. (==_iff _ _).0 at ∙ sym ((==_iff _ _).0 at'))
      | inr other ↦
          rw (at, other)
            (λ on on' same.
              (let lt = alive_lt p.memory (p.at l).object (v.alive l on') in absurd (omega arith)))
    ]
    | inr other ↦ elim (Bool-cases (l == i)) [
      | inl at ↦
          rw (other, at)
            (λ on on' same.
              (let lt = alive_lt p.memory (p.at j).object (v.alive j on) in absurd (omega arith)))
      | inr other' ↦ rw (other, other') (v.apart j l)
    ]
  ];
}

copy_blank-IsOwned :
    (p : Pool) (i j : ℕ)
    → (p.at j).has_invoke ≡ false
    → IsOwned p
    → IsOwned (record p { at = update p.at i (record (p.at j) { is_zero = true }) })
copy_blank-IsOwned p i j e v =
    let blank : (p.at j).has_destroy ≡ false = sym (v.both j) ∙ e in
    record {
      no_faults = v.no_faults;
      alive = λ l. elim (Bool-cases (l == i)) [
        | inl at ↦ rw at (v.alive j)
        | inr other ↦ rw other (v.alive l)
      ];
      solid = λ l. elim (Bool-cases (l == i)) [
        | inl at ↦ rw at (λ on. absurd (ground arith))
        | inr other ↦ rw other (v.solid l)
      ];
      both = λ l. elim (Bool-cases (l == i)) [
        | inl at ↦ rw at (v.both j)
        | inr other ↦ rw other (v.both l)
      ];
      inline = λ l. elim (Bool-cases (l == i)) [
        | inl at ↦ rw at (v.inline j)
        | inr other ↦ rw other (v.inline l)
      ];
      apart = λ l n. elim (Bool-cases (l == i)) [
        | inl at ↦ rw at (λ on. absurd (ground arith))
        | inr other ↦ elim (Bool-cases (n == i)) [
          | inl at ↦ rw (other, at) (λ on on'. absurd (ground arith))
          | inr other' ↦ rw (other, other') (v.apart l n)
        ]
      ];
    }

-- A storage without a callable is copied.
move_construct_blank :
    (p : Pool) (i j : ℕ)
    → (p.at j).has_invoke ≡ false
    → move_construct p i j ≡ record p { at = update p.at i (record (p.at j) { is_zero = true }) }
unfolding move_construct
move_construct_blank p i j e =
    ap
      (λ b.
        if not b
        then record p { at = update p.at i (record (p.at j) { is_zero = true }) }
        else full)
      e
  where
    full : Pool
    full =
        if (p.at j).is_heap
        then record p {
          at = update (update p.at i (p.at j)) j (record (p.at j) { has_invoke = false });
        }
        else destroy_at
            (put_new false (record p { memory = use_object p.memory (p.at j).object }) i) j

move_construct-IsOwned : (p : Pool) (i j : ℕ) → IsOwned p → IsOwned (move_construct p i j)
unfolding move_construct
move_construct-IsOwned p i j v = elim (Bool-cases (p.at j).has_invoke) [
  | inl e ↦
      let live = v.alive j (sym (v.both j) ∙ e) in
      rw (e, v.inline j, use_object_alive p.memory (p.at j).object live, move_construct)
        (destroy_at-IsOwned (put_new false p i) j (put_new-IsOwned p i v))
  | inr e ↦ subst IsOwned (sym (move_construct_blank p i j e)) (copy_blank-IsOwned p i j e v)
]

move_assign-IsOwned : (p : Pool) (i j : ℕ) → IsOwned p → IsOwned (move_assign p i j)
unfolding move_assign
move_assign-IsOwned p i j v = elim (Bool-cases (i == j)) [
  | inl e ↦ rw (e, move_assign) v
  | inr e ↦
      rw (e, move_assign) (move_construct-IsOwned (destroy_at p i) i j (destroy_at-IsOwned p i v))
]

invoke_owned : (p : Pool) (i : ℕ) → IsOwned p → invoke p i ≡ p
unfolding invoke
invoke_owned p i v = elim (Bool-cases (p.at i).has_invoke) [
  | inl e ↦
      rw (e, invoke, use_object_alive p.memory (p.at i).object (v.alive i (sym (v.both i) ∙ e)))
        refl
  | inr e ↦ rw (e, invoke) refl
]

-- The events that operations on them lead to.
pub data Reach : Pool → Type 0 where
  start : Reach no_callables
  stored : {p : Pool} (i : ℕ) → Reach p → Reach (store false p i)
  moved : {p : Pool} (i j : ℕ) → Reach p → Reach (move_construct p i j)
  assigned : {p : Pool} (i j : ℕ) → Reach p → Reach (move_assign p i j)
  destroyed : {p : Pool} (i : ℕ) → Reach p → Reach (destroy_at p i)
  invoked : {p : Pool} (i : ℕ) → Reach p → Reach (invoke p i)

-- In every state that operations on storages of inline callables lead to, as events are, each
-- storage that has a callable holds an object that is alive and no other storage's, and nothing
-- undefined has happened.
pub Reach-IsOwned : {p : Pool} → Reach p → IsOwned p
unfolding store no_callables
Reach-IsOwned start = record {
  no_faults = refl;
  alive = λ i off. absurd (ground arith);
  solid = λ i off. absurd (ground arith);
  both = λ i. refl;
  inline = λ i. refl;
  apart = λ i j off. absurd (ground arith);
}
Reach-IsOwned (stored {p} i r) =
    put_new-IsOwned (destroy_at p i) i (destroy_at-IsOwned p i (Reach-IsOwned r))
Reach-IsOwned (moved {p} i j r) = move_construct-IsOwned p i j (Reach-IsOwned r)
Reach-IsOwned (assigned {p} i j r) = move_assign-IsOwned p i j (Reach-IsOwned r)
Reach-IsOwned (destroyed {p} i r) = destroy_at-IsOwned p i (Reach-IsOwned r)
Reach-IsOwned (invoked {p} i r) =
    subst IsOwned (sym (invoke_owned p i (Reach-IsOwned r))) (Reach-IsOwned r)
