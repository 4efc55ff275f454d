-- ===== src/Signal/Connections.antt =====
-- fb_signal/include/fb/connection.hpp: handles of slots. A connection holds the place of its slot, or
-- nothing. The functions by which it reaches a slot of any type are those of the slot's own heap.
use foo_bar.Base.{
  ℕ, zero, suc, ◌<◌, ◌↔◌, ==_iff, ◌≡◌, refl, sym, ap, ◌∙◌, Bool, true, false, List, [], ◌∷◌, ◌++◌,
  Option, none, some, ◌==◌, if◌then◌else◌, length, get_elem?, set, All, arith, Bool-cases,
  Option-cases, inl, inr, get_elem?-set, get_elem?-lt,
}
use foo_bar.Signal.Slots.{Heap, Slot, is_active, is_blocked, id_at, deactivate, set_blocked}
use foo_bar.Signal.Slots.Keys.{set_blocked_at, set_blocked_nowhere}
use foo_bar.Signal.Slots.Reached.{IsNumbered}
use foo_bar.Signal.Slots.Live.{deactivate-is_active}

abbrev pub Connection : Type 0
Connection = Option ℕ

pub record Blocker : Type 0 where
  pub connection : Connection
  pub was_blocked : Bool

-- The move constructor and `release`: what the new one holds, and what is left.
unfoldable pub move_from : Connection → Connection × Connection
move_from other = (other, none)

-- `connection_guard::add`
unfoldable pub add_to_guard : List Connection → Connection → List Connection
add_to_guard cs c = cs ++ c ∷ []

module _ {F : Type 0} where
  unfoldable pub connected : Heap F → Connection → Bool
  connected h none = false
  connected h (some r) = is_active h r

  unfoldable pub disconnect : Heap F → Connection → Heap F
  disconnect h none = h
  disconnect h (some r) = deactivate h r

  unfoldable pub block : Heap F → Connection → Heap F
  block h none = h
  block h (some r) = set_blocked true h r

  unfoldable pub unblock : Heap F → Connection → Heap F
  unblock h none = h
  unblock h (some r) = set_blocked false h r

  unfoldable pub blocked : Heap F → Connection → Bool
  blocked h none = false
  blocked h (some r) = is_blocked h r

  unfoldable pub id : Heap F → Connection → ℕ
  id h none = 0
  id h (some r) = id_at h r

  -- `operator==`; the slots may be of two types.
  unfoldable pub equal : Heap F → Heap F → Connection → Connection → Bool
  equal h h' c d = id h c == id h' d

  -- `scoped_connection::operator=(scoped_connection &&)` from another one: the heap, this and the other.
  unfoldable pub move_assign : Heap F → Connection → Connection → Heap F × Connection × Connection
  move_assign h this other = (disconnect h this, other, none)

  -- `scoped_connection::operator=(connection)`
  unfoldable pub assign : Heap F → Connection → Connection → Heap F × Connection
  assign h this other = (disconnect h this, other)

  unfoldable pub disconnect_each : Heap F → List Connection → Heap F
  disconnect_each h [] = h
  disconnect_each h (c ∷ cs) = disconnect_each (disconnect h c) cs

  -- `connection_guard::disconnect_all`
  unfoldable pub disconnect_all : Heap F → List Connection → Heap F × List Connection
  disconnect_all h cs = (disconnect_each h cs, [])

  unfoldable pub block_all : Heap F → List Connection → Heap F
  block_all h [] = h
  block_all h (c ∷ cs) = block_all (block h c) cs

  unfoldable pub unblock_all : Heap F → List Connection → Heap F
  unblock_all h [] = h
  unblock_all h (c ∷ cs) = unblock_all (unblock h c) cs

  -- `connection_guard::cleanup`
  unfoldable pub keep_connected : Heap F → List Connection → List Connection
  keep_connected h [] = []
  keep_connected h (c ∷ cs) =
      let rest = keep_connected h cs in if connected h c then c ∷ rest else rest

  unfoldable pub start_blocker : Heap F → Connection → Heap F × Blocker
  start_blocker h c =
      let was = blocked h c in
      (if was then h else block h c, record { connection = c; was_blocked = was })

  unfoldable pub end_blocker : Heap F → Blocker → Heap F
  end_blocker h b = if b.was_blocked then h else unblock h b.connection

set-set :
    {A : Type 0} (xs : List A) (i : ℕ) (a b : A)
    → get_elem? xs i ≡ some a
    → set (set xs i b) i a ≡ xs
set-set [] i a b e = refl
set-set (x ∷ xs) zero a b e = let same : x ≡ a = ground arith in rw same refl
set-set (x ∷ xs) (suc i) a b e = ap (λ rest. x ∷ rest) (set-set xs i a b e)

module _ {F : Type 0} where
  -- A slot that is not blocked is as before after it was blocked and unblocked.
  unblock-block :
      (h : Heap F) (r : ℕ) → is_blocked h r ≡ false → set_blocked false (set_blocked true h r) r ≡ h
  unfolding is_blocked
  unblock-block h r off = elim (Option-cases (get_elem? h.slots r)) [
    | inl e ↦ rw (set_blocked_nowhere true h r e) (set_blocked_nowhere false h r e)
    | inr (slot, e) ↦
        let shut : Slot F = record slot { blocked = true } in
        let write = get_elem?-set h.slots r r shut (get_elem?-lt h.slots r e) in
        let itself : (r == r) ≡ true = ground arith in
        let written : get_elem? (set h.slots r shut) r ≡ some shut = ground arith in
        let was : slot.blocked ≡ false = ground arith in
        rw (set_blocked_at true h r slot e) (
          set_blocked_at false (record h { slots = set h.slots r shut }) r shut written
          ∙ ap (λ b. record h { slots = set (set h.slots r shut) r (record slot { blocked = b }) })
              (sym was)
          ∙ ap (λ slots. record h { slots = slots }) (set-set h.slots r slot shut e))
  ]

  pub end_blocker-start_blocker :
      (h : Heap F) (c : Connection) → let (h', b) = start_blocker h c in end_blocker h' b ≡ h
  unfolding start_blocker end_blocker blocked block unblock
  end_blocker-start_blocker h none = refl
  end_blocker-start_blocker h (some r) = elim (Bool-cases (is_blocked h r)) [
    | inl e ↦ rw e refl
    | inr e ↦ rw e (unblock-block h r e)
  ]

  stays_disconnected :
      (h : Heap F) (c d : Connection) → connected h c ≡ false → connected (disconnect h d) c ≡ false
  unfolding connected disconnect
  stays_disconnected h none d e = refl
  stays_disconnected h (some r) none e = e
  stays_disconnected h (some r) (some s) e = rw (deactivate-is_active h s r, e) refl

  stays_disconnected_each :
      (h : Heap F) (c : Connection) (cs : List Connection)
      → connected h c ≡ false
      → connected (disconnect_each h cs) c ≡ false
  unfolding disconnect_each
  stays_disconnected_each h c [] e = e
  stays_disconnected_each h c (d ∷ cs) e =
      stays_disconnected_each (disconnect h d) c cs (stays_disconnected h c d e)

  disconnected : (h : Heap F) (c : Connection) → connected (disconnect h c) c ≡ false
  unfolding connected disconnect
  disconnected h none = refl
  disconnected h (some r) = let off = deactivate-is_active h r r in ground arith

  pub disconnect_each-All :
      (h : Heap F) (cs : List Connection) → All (λ c. connected (disconnect_each h cs) c ≡ false) cs
  unfolding disconnect_each
  disconnect_each-All h [] = tt
  disconnect_each-All h (c ∷ cs) = (
    stays_disconnected_each (disconnect h c) c cs (disconnected h c),
    disconnect_each-All (disconnect h c) cs,
  )

  -- The slot of a connection was made.
  abbrev pub IsMade : Heap F → Connection → Type 0
  IsMade h none = Unit
  IsMade h (some r) = r < length h.slots

  same_of_equal :
      (h : Heap F) (c d : Connection)
      → IsNumbered h
      → IsMade h c
      → IsMade h d
      → equal h h c d ≡ true
      → c ≡ d
  unfolding equal id
  same_of_equal h none none v mc md e = refl
  same_of_equal h none (some s) v mc md e = let n = v.ids s md in absurd (ground arith)
  same_of_equal h (some r) none v mc md e = let n = v.ids r mc in absurd (ground arith)
  same_of_equal h (some r) (some s) v mc md e =
      let n = v.ids r mc in let m = v.ids s md in let same : r ≡ s = ground arith in ap some same

  -- If the slots of a heap are numbered in the order in which they were made, two connections
  -- of slots of it are equal exactly if they are of the same slot or both of none.
  pub equal_iff :
      (h : Heap F) (c d : Connection)
      → IsNumbered h
      → IsMade h c
      → IsMade h d
      → (equal h h c d ≡ true) ↔ (c ≡ d)
  unfolding equal
  equal_iff h c d v mc md =
      (same_of_equal h c d v mc md, λ same. (==_iff (id h c) (id h d)).1 (ap (id h) same))
