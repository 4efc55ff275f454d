-- ===== src/Strings/Affix.antt =====
-- fb_strings/src/string_utils.cpp: prefixes and suffixes.
use foo_bar.Base.{
  ◌-◌, ◌≡◌, refl, sym, ap, subst, ◌∙◌, ◌↔◌, Bool, true, false, ◌++◌, Bytes, ltb, if◌then◌else◌,
  length, take, drop, bytes_eq, bytes_eq_sound, bytes_eq_self, take-drop, take-append, drop-append,
  length-append, arith, Bool-cases, inl, inr,
}

unfoldable pub starts_with : Bytes → Bytes → Bool
starts_with s prefix =
    if ltb (length s) (length prefix) then false else bytes_eq (take (length prefix) s) prefix

unfoldable pub ends_with : Bytes → Bytes → Bool
ends_with s suffix =
    if ltb (length s) (length suffix)
    then false
    else bytes_eq (drop (length s - length suffix) s) suffix

unfoldable pub remove_prefix : Bytes → Bytes → Bytes
remove_prefix s prefix = if starts_with s prefix then drop (length prefix) s else s

unfoldable pub remove_suffix : Bytes → Bytes → Bytes
remove_suffix s suffix = if ends_with s suffix then take (length s - length suffix) s else s

unfoldable pub ensure_prefix : Bytes → Bytes → Bytes
ensure_prefix s prefix = if starts_with s prefix then s else prefix ++ s

unfoldable pub ensure_suffix : Bytes → Bytes → Bytes
ensure_suffix s suffix = if ends_with s suffix then s else s ++ suffix

starts_with-append : (prefix t : Bytes) → starts_with (prefix ++ t) prefix ≡ true
unfolding starts_with
starts_with-append prefix t =
    let enough : ltb (length (prefix ++ t)) (length prefix) ≡ false =
      ground (arith, length-append prefix t) in
    rw (enough, take-append (length prefix) prefix t refl) (bytes_eq_self prefix)

-- A text starts with a prefix exactly if it is the prefix and something behind it.
pub starts_with_iff :
    (s prefix : Bytes) → (starts_with s prefix ≡ true) ↔ ((t : Bytes) × (s ≡ prefix ++ t))
unfolding starts_with
starts_with_iff s prefix = (
  λ h.
      let same = bytes_eq_sound (take (length prefix) s) prefix (ground arith) in
      (
        drop (length prefix) s,
        sym (take-drop (length prefix) s) ∙ ap (λ u. u ++ drop (length prefix) s) same,
      ),
  λ (t, e). subst (λ u. starts_with u prefix ≡ true) (sym e) (starts_with-append prefix t),
)

ends_with-append : (t suffix : Bytes) → ends_with (t ++ suffix) suffix ≡ true
unfolding ends_with
ends_with-append t suffix =
    let size = length-append t suffix in
    let enough : ltb (length (t ++ suffix)) (length suffix) ≡ false = ground (arith, size) in
    let start : length t ≡ length (t ++ suffix) - length suffix = omega (arith, size) in
    rw (enough, drop-append (length (t ++ suffix) - length suffix) t suffix start)
      (bytes_eq_self suffix)

-- A text ends with a suffix exactly if it is something and the suffix behind it.
pub ends_with_iff :
    (s suffix : Bytes) → (ends_with s suffix ≡ true) ↔ ((t : Bytes) × (s ≡ t ++ suffix))
unfolding ends_with
ends_with_iff s suffix = (
  λ h.
      let start = length s - length suffix in
      let same = bytes_eq_sound (drop start s) suffix (ground arith) in
      (take start s, sym (take-drop start s) ∙ ap (λ u. take start s ++ u) same),
  λ (t, e). subst (λ u. ends_with u suffix ≡ true) (sym e) (ends_with-append t suffix),
)

-- What was put in front or behind can be taken away.
pub remove_prefix-append :
    (t affix : Bytes)
    → (remove_prefix (affix ++ t) affix ≡ t) × (remove_suffix (t ++ affix) affix ≡ t)
unfolding remove_prefix remove_suffix
remove_prefix-append t affix =
    let start : length t ≡ length (t ++ affix) - length affix =
      omega (arith, length-append t affix) in
    (
      rw (starts_with-append affix t) (drop-append (length affix) affix t refl),
      rw (ends_with-append t affix)
          (take-append (length (t ++ affix) - length affix) t affix start),
    )

-- The affix is there afterwards, whether it was there before or not.
pub starts_with-ensure_prefix :
    (s affix : Bytes)
    → (starts_with (ensure_prefix s affix) affix ≡ true)
      × (ends_with (ensure_suffix s affix) affix ≡ true)
unfolding ensure_prefix ensure_suffix
starts_with-ensure_prefix s affix =
    let front = starts_with-append affix s in
    let behind = ends_with-append s affix in
    (
      elim (Bool-cases (starts_with s affix)) [
        | inl e ↦ rw (e, e) refl
        | inr e ↦ rw (e, front) refl
      ],
      elim (Bool-cases (ends_with s affix)) [
        | inl e ↦ rw (e, e) refl
        | inr e ↦ rw (e, behind) refl
      ],
    )
